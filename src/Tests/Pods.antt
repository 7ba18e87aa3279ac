-- ===== src/Tests/Pods.antt =====
-- The pod store, when a pod goes.
use tenant_cni.Backend.Veth.{del_veth}
use tenant_cni.Base.{
  Outcome, Result, Text, [], arith, bytes, err, none, ok, refl, returns, tenant_name_not_found,
  text_dec, ◌∷◌, ◌≡◌,
}
use tenant_cni.Base.Dict.{Dict, lookup}
use tenant_cni.Cni.Args.{get_regex}
use tenant_cni.Cni.Commands.{
  cmd_del, delete_pod_entry, find_tenant, get_tenant_pod, pod_name_of, tenant_of_pod,
}
use tenant_cni.Cni.DelPod.{find_tenant-cmd_del}
use tenant_cni.Cni.PodEntries.{HoldsPods, handle_pod_add_lost, write_without}
use tenant_cni.Cni.Tenants.{IsFound}
use tenant_cni.Controller.Events.{handle_pod_add, register_pod, tenant_of_annotation}
use tenant_cni.Host.{fail}
use tenant_cni.Ipam.Address.{new_tenant_ipam, release_ip}
use tenant_cni.Ipam.PodStore.{PodStore, load_pod_data, new_pod_store, store_pod_data}
use tenant_cni.Ipam.Store.{
  holds, json, load_value, make_directory, new_file_lock, new_store, store_value, write_file,
}
use tenant_cni.Ipam.TenantStore.{
  del, key_of_id, load_tenant_data, new_tenant_store, store_tenant_data,
}
use tenant_cni.Machine.{
  Machine, on_outside, on_tenant, open_pods, open_tenant, save_pods, save_tenant, write_pods,
}
use tenant_cni.Tests.{good_disk, next_address, no_ipv6_text}
use tenant_cni.Tests.Commands.{
  call, netlink, node, once, taken-HoldsTenant, taken_node, taken_tenant,
}
use tenant_cni.Tests.Plugin.{web}

abbrev two_pods : Dict Text
two_pods = (bytes "web", bytes "red") ∷ (bytes "db", bytes "blue") ∷ []

abbrev pods_node : Machine (Unit {0})
pods_node = record taken_node { pod_disk = good_disk (holds (json (record { pods = two_pods }))) }

two-HoldsPods : HoldsPods (good_disk (holds (json (record { pods = two_pods })))) two_pods
unfolding text_dec
two-HoldsPods = record {
  there = λ e. absurd (ground (arith, e));
  openable = refl;
  writable = refl;
  file = refl;
  keys_once = (refl, (refl, tt));
}

pods-IsFound : IsFound once (bytes "K8S_POD_NAME=web") (bytes "web") (bytes "red") pods_node
unfolding get_regex find_tenant get_tenant_pod open_pods new_pod_store new_store make_directory
    load_pod_data load_value save_pods tenant_of_pod text_dec
pods-IsFound = record { retries_once = λ f s x e. refl; reads_name = refl; finds = refl }

abbrev deleted : Outcome (Result (Unit {0})) × Machine (Unit {0})
deleted = cmd_del netlink no_ipv6_text next_address once 3 call pods_node

deletes : deleted.0 ≡ returns (ok tt)
unfolding cmd_del pod_name_of get_regex find_tenant get_tenant_pod open_pods new_pod_store new_store
    make_directory load_pod_data load_value save_pods tenant_of_pod text_dec open_tenant
    new_tenant_store load_tenant_data new_tenant_ipam new_file_lock save_tenant on_tenant release_ip
    del key_of_id store_tenant_data store_value write_file on_outside delete_pod_entry write_pods
    del_veth
deletes = refl

find_tenant-cmd_del_example :
    ((find_tenant (bytes "web") deleted.1).0 ≡ returns (err tenant_name_not_found))
    × ((find_tenant (bytes "db") deleted.1).0 ≡ (find_tenant (bytes "db") pods_node).0)
find_tenant-cmd_del_example =
    find_tenant-cmd_del netlink no_ipv6_text next_address once 3 call (bytes "web") (bytes "db")
      (bytes "red") taken_tenant two_pods pods_node pods-IsFound taken-HoldsTenant two-HoldsPods
      (λ e. ground (arith, e)) deletes

-- A node whose only pod goes while another one comes.
abbrev one_pod : Dict Text
one_pod = (bytes "db", bytes "blue") ∷ []

abbrev one_pod_node : Machine (Unit {0})
one_pod_node = record node { pod_disk = good_disk (holds (json (record { pods = one_pod }))) }

one-HoldsPods : HoldsPods (good_disk (holds (json (record { pods = one_pod })))) one_pod
one-HoldsPods = record {
  there = λ e. absurd (ground (arith, e));
  openable = refl;
  writable = refl;
  file = refl;
  keys_once = (refl, tt);
}

abbrev comes : Outcome (Result (Unit {0})) × Machine (Unit {0})
comes = handle_pod_add web (open_pods {W = Unit {0}} fail one_pod_node).1

web_comes : comes.0 ≡ returns (ok tt)
unfolding handle_pod_add register_pod open_pods new_pod_store new_store make_directory new_file_lock
    load_pod_data load_value write_file write_pods store_pod_data store_value save_pods
web_comes = refl

web_is_new : lookup (bytes "web") one_pod ≡ none
unfolding text_dec
web_is_new = refl

handle_pod_add_lost_example :
    (s : PodStore) × ((open_pods {W = Unit {0}} fail one_pod_node).0 ≡ returns (ok s))
    × ((find_tenant (bytes "web") comes.1).0 ≡ returns (ok (tenant_of_annotation web)))
    × ((find_tenant (bytes "web") (write_without (bytes "db") s comes.1).1).0
        ≡ returns (err tenant_name_not_found))
handle_pod_add_lost_example =
    handle_pod_add_lost (bytes "db") web one_pod one_pod_node one-HoldsPods web_is_new refl
      web_comes
