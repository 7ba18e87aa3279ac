-- ===== src/Tests/System.antt =====
-- A node from the daemon's handlers to the plugin's commands.
use tenant_cni.Api.{Tenant}
use tenant_cni.Backend.Bridge.{delete_tenant_bridge}
use tenant_cni.Backend.Vxlan.{delete_vxlan_device}
use tenant_cni.Base.{
  Outcome, Result, [], already_exists, arith, bytes, none, not_found, ok, refl, returns, some,
  text_dec, ◌∷◌, ◌≡◌,
}
use tenant_cni.Cni.Tenants.{HoldsTenant}
use tenant_cni.Controller.Add.{
  add_on_node, allocate_on_node, connect_nodes, finish, label_node, publish, separate,
}
use tenant_cni.Controller.Delete.{
  delete_listed, delete_on_node, delete_pods, pods_of_tenant, release_subnet, remove_store,
  return_subnets,
}
use tenant_cni.Controller.Events.{Client}
use tenant_cni.Host.{fail, pure}
use tenant_cni.Host.Iptables.{Iptables}
use tenant_cni.Ipam.Address.{new_tenant_ipam}
use tenant_cni.Ipam.NodeStore.{load_node_data, new_node_store, store_node_data}
use tenant_cni.Ipam.PodStore.{load_pod_data, new_pod_store}
use tenant_cni.Ipam.Provision.{IsPrepared}
use tenant_cni.Ipam.Store.{
  absent, holds, json, load_value, make_directory, missing, new_file_lock, new_store, store_value,
  write_file,
}
use tenant_cni.Ipam.Tenant.{
  allocate_tenant, bridge_name, new_node_ipam, read_prefix, take_subnet, tenant_data_of,
  write_tenant,
}
use tenant_cni.Ipam.Tenant.OnDisk.{Holds}
use tenant_cni.Ipam.TenantStore.{
  delete_tenant_store, load_tenant_data, new_tenant_store, remove_entries, store_tenant_data,
}
use tenant_cni.Ipam.Types.{TenantData}
use tenant_cni.K8s.{Kube, KubeNode}
use tenant_cni.Machine.{
  IsApart, Machine, on_outside, open_node, open_pods, open_tenant, put, save_node, save_pods,
  save_tenant,
}
use tenant_cni.Net.Addr.{
  addr_text, dotted_text, form_of, ipv4, octets, octets_of, parse_addr, parse_ipv4, parse_prefix,
  prefix, prefix_text,
}
use tenant_cni.Net.Decimal.{decimal, pos, read_digits}
use tenant_cni.System.Added.{first_data}
use tenant_cni.System.Lifetime.{delete_on_node-add_on_node}
use tenant_cni.System.Served.{OnlyRuns, another_run, never}
use tenant_cni.Tests.{good_disk, no_ipv6_text}
use tenant_cni.Tests.Commands.{netlink, once}
use tenant_cni.Tests.Controller.{no_mac, variables}
use tenant_cni.Tests.Release.{two-Holds}
use tenant_cni.Tests.Tenant.{random_bytes, two_subnets}

abbrev pub red_tenant : Tenant
red_tenant = record {
  object_name = bytes "red";
  spec = record { name = bytes "red"; vni = pos 7; subnet_prefix = pos 24; nodes = [] };
}

abbrev this_node : KubeNode
this_node = record {
  name = bytes "n1";
  pod_cidr = bytes "11.4.0.0/23";
  addresses = [];
  labels = some [];
}

-- The API server answers every call.
abbrev answering : Kube (Unit {0})
answering = record {
  connect = pure tt;
  get_pod = λ _ _. fail not_found;
  list_pods = pure [];
  delete_pod = λ _ _. pure tt;
  get_node = λ _. pure this_node;
  list_nodes = pure (this_node ∷ []);
  update_node = λ _. pure tt;
  get_tenant = λ _ _. pure red_tenant;
  update_tenant = λ _ _. pure tt;
  create_tenant = λ _ _. fail already_exists;
  build_config = λ _. fail not_found;
  in_cluster_config = pure tt;
  connect_tenants = λ _. pure tt;
  connect_extensions = λ _. pure tt;
  create_definition = λ _. fail already_exists;
  config_map = λ _ _. fail not_found;
}

abbrev pub controller : Client (Unit {0})
controller = record {
  kube = answering;
  enqueue = λ _. pure tt;
  dequeue = pure none;
  forget = λ _. pure tt;
  done = λ _. pure tt;
  record_event = λ _ _. pure tt;
  retry_on_conflict = λ m. m;
  key_of = λ t. t.object_name;
  split_key = λ key. ok (bytes "default", bytes "red");
  read_dir = λ _. ok (bytes "red.json" ∷ []);
  remove_all = λ _ _. none;
}

abbrev pub tables : Iptables (Unit {0})
tables = record {
  new_iptables = pure tt;
  append_unique = λ _. pure tt;
  insert_unique = λ _ _. pure tt;
}

pub once-OnlyRuns : OnlyRuns once
once-OnlyRuns f s = another_run s never

pub red-IsApart : IsApart (bytes "n1") (bytes "red")
red-IsApart = record {
  not_the_node = λ e. ground (arith, e);
  not_the_pods = λ e. ground (arith, e);
  not_empty = λ e. ground (arith, e);
  node_not_pods = λ e. ground (arith, e);
}

-- A node that has two subnets and no tenant.
abbrev pub new_node : Machine (Unit {0})
new_node = record {
  outside = tt;
  node_disks = λ _. good_disk (holds (json two_subnets));
  tenant_disks = λ _. good_disk absent;
  pod_disk = good_disk absent;
}

pub red_subnet : read_prefix no_ipv6_text (bytes "11.4.0.0/24") ≡ prefix (ipv4 184811520) 24
unfolding read_prefix parse_prefix parse_addr form_of parse_ipv4 octets read_digits
red_subnet = refl

red_text : prefix_text no_ipv6_text (prefix (ipv4 184811520) 24) ≡ bytes "11.4.0.0/24"
unfolding prefix_text addr_text dotted_text octets_of decimal
red_text = refl

pub red-IsPrepared : IsPrepared (good_disk absent)
red-IsPrepared = record { there = refl; lockable = refl; openable = refl; writable = refl }

abbrev pub add_red : Outcome (Result (Unit {0})) × Machine (Unit {0})
add_red =
    add_on_node controller netlink tables variables no_ipv6_text no_mac (bytes "default")
      (bytes "red") red_tenant random_bytes (bytes "n1") new_node

abbrev pub red_data : TenantData
red_data =
    first_data controller netlink tables variables no_ipv6_text no_mac red_tenant random_bytes
      184811520

abbrev pub delete_red : Outcome (Result (Unit {0})) × Machine (Unit {0})
delete_red =
    delete_on_node controller netlink variables no_ipv6_text no_mac (bytes "n1") (bytes "red")
      add_red.1

pub deletes_red : delete_red.0 ≡ returns (ok tt)
unfolding delete_on_node add_on_node open_pods new_pod_store new_store make_directory new_file_lock
    load_pod_data load_value write_file save_pods pods_of_tenant delete_listed delete_pods
    on_outside open_tenant new_tenant_store load_tenant_data new_tenant_ipam save_tenant put
    text_dec open_node new_node_store load_node_data new_node_ipam save_node allocate_on_node
    allocate_tenant take_subnet store_node_data store_value write_tenant store_tenant_data
    tenant_data_of bridge_name finish publish connect_nodes label_node separate delete_tenant_bridge
    delete_vxlan_device remove_store delete_tenant_store remove_entries release_subnet
    return_subnets
deletes_red = refl

delete_on_node-add_on_node_example :
    HoldsTenant (bytes "red") (add_red.1.tenant_disks (bytes "red")) red_data
    × Holds
        (bytes "n1")
        (delete_red.1.node_disks (bytes "n1"))
        (record two_subnets { available_list = bytes "11.4.1.0/24" ∷ bytes "11.4.0.0/24" ∷ [] })
    × ((delete_red.1.tenant_disks (bytes "red")).entry ≡ missing)
    × ((delete_red.1.tenant_disks (bytes "red")).file ≡ absent)
delete_on_node-add_on_node_example =
    delete_on_node-add_on_node controller netlink tables variables no_ipv6_text no_mac
      (bytes "default") (bytes "red") (bytes "n1") red_tenant random_bytes two_subnets new_node
      (bytes "11.4.0.0/24") (bytes "11.4.1.0/24" ∷ []) 184811520 (bytes "red.json" ∷ []) red-IsApart
      two-Holds tt refl refl red_subnet red_text red-IsPrepared refl (λ y. refl) deletes_red
