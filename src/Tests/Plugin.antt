-- ===== src/Tests/Plugin.antt =====
-- The pods and their tenants, as the daemon and the plugin see them.
use tenant_cni.Base.{Text, [], bytes, false, ok, refl, returns, some, ◌++◌, ◌∷◌, ◌≡◌}
use tenant_cni.Cni.Args.{get_regex, pod_name_key, strip}
use tenant_cni.Cni.Commands.{find_tenant}
use tenant_cni.Cni.PodName.{NoKey, get_regex_entry}
use tenant_cni.Cni.PodTenant.{find_tenant-handle_pod_add}
use tenant_cni.Controller.Events.{handle_pod_add, register_pod, tenant_of_annotation}
use tenant_cni.Ipam.PodStore.{load_pod_data, new_pod_store, store_pod_data}
use tenant_cni.Ipam.Store.{
  absent, load_value, make_directory, new_file_lock, new_store, store_value, write_file,
}
use tenant_cni.K8s.{Pod}
use tenant_cni.Machine.{Machine, open_pods, save_pods, write_pods}
use tenant_cni.Tests.{good_disk}

abbrev args_before : Text
args_before = bytes "K8S=1"

NoKey-before : NoKey args_before
unfolding strip
NoKey-before = (refl, (refl, (refl, (refl, (refl, tt)))))

get_regex_entry_example :
    get_regex
      (args_before ++ (b';' ∷ (pod_name_key ++ (bytes "web" ++ (b';' ∷ bytes "K8S_POD_UID=1")))))
    ≡ some (bytes "web")
get_regex_entry_example =
    get_regex_entry args_before 119 (bytes "eb") (bytes "K8S_POD_UID=1") NoKey-before refl

abbrev pub web : Pod
web = record {
  name = bytes "web";
  namespace = bytes "default";
  node_name = bytes "n1";
  host_network = false;
  annotations = (bytes "jovik31.dev.tenants", bytes "red") ∷ [];
}

abbrev machine : Machine (Unit {0})
machine = record {
  outside = tt;
  node_disks = λ _. good_disk absent;
  tenant_disks = λ _. good_disk absent;
  pod_disk = good_disk absent;
}

handled : (handle_pod_add web machine).0 ≡ returns (ok tt)
unfolding handle_pod_add register_pod open_pods new_pod_store new_store make_directory new_file_lock
    load_pod_data load_value write_file write_pods store_pod_data store_value save_pods
handled = refl

find_tenant-handle_pod_add_example :
    (find_tenant (bytes "web") (handle_pod_add web machine).1).0
    ≡ returns (ok (tenant_of_annotation web))
find_tenant-handle_pod_add_example = find_tenant-handle_pod_add web machine refl refl refl handled
