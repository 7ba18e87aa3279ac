-- ===== src/Tests/Controller.antt =====
-- The controller's queue, its view of this node, and the daemon's start.
use tenant_cni.Api.{Node, Tenant}
use tenant_cni.Base.{
  List, Result, Text, [], already_exists, arith, bad_key, bad_mac, bytes, conflict, err,
  link_not_found, none, not_found, ok, refl, returns, some, true, ℕ, ◌++◌, ◌∷◌, ◌≡◌,
}
use tenant_cni.Controller.Delete.{delete_tenant}
use tenant_cni.Controller.Events.{Client, EventObject, delete_event}
use tenant_cni.Controller.Membership.{get_current_node_name_variable}
use tenant_cni.Daemon.{init_node}
use tenant_cni.Daemon.Restart.{init_node_forgets}
use tenant_cni.Host.{Cmd, fail, pure}
use tenant_cni.Host.Netlink.{Netlink}
use tenant_cni.Ipam.Store.{absent, holds, json}
use tenant_cni.Ipam.Tenant.{list_subnets}
use tenant_cni.K8s.{Environment, Kube, get_current_node_name}
use tenant_cni.Machine.{Machine}
use tenant_cni.Net.Decimal.{pos}
use tenant_cni.Tests.{good_disk, no_ipv6_text}

abbrev pub server : {W : Type 0} → Kube W
server = record {
  connect = fail not_found;
  get_pod = λ _ _. fail not_found;
  list_pods = fail not_found;
  delete_pod = λ _ _. fail not_found;
  get_node = λ _. fail not_found;
  list_nodes = fail not_found;
  update_node = λ _. fail conflict;
  get_tenant = λ _ _. fail not_found;
  update_tenant = λ _ _. fail conflict;
  create_tenant = λ _ _. fail already_exists;
  build_config = λ _. fail not_found;
  in_cluster_config = pure tt;
  connect_tenants = λ _. pure tt;
  connect_extensions = λ _. pure tt;
  create_definition = λ _. fail already_exists;
  config_map = λ _ _. fail not_found;
}

-- The outside is the list of the keys that are queued; a key splits into itself.
abbrev pub client : Client (List Text)
client = record {
  kube = server;
  enqueue = λ e keys. (returns (ok tt), keys ++ (e.key ∷ []));
  dequeue = λ keys. (returns (ok none), keys);
  forget = λ e keys. (returns (ok tt), bytes "forgotten" ∷ keys);
  done = λ e. pure tt;
  record_event = λ _ _. pure tt;
  retry_on_conflict = λ m. m;
  key_of = λ t. t.object_name;
  split_key = λ key. err bad_key;
  read_dir = λ _. ok [];
  remove_all = λ _ _. none;
}

abbrev pub no_netlink : {W : Type 0} → Netlink W
no_netlink = record {
  link_by_name = λ _. fail link_not_found;
  link_add = λ _. pure tt;
  link_del = λ _. pure tt;
  link_set_up = λ _. pure tt;
  link_set_master = λ _ _. pure tt;
  addr_add = λ _ _. pure tt;
  addr_list = λ _. pure [];
  neigh_set = λ _. pure tt;
  neigh_del = λ _. pure tt;
  neigh_list = λ _. pure [];
  route_add = λ _. pure tt;
  route_del = λ _. pure tt;
  route_list = pure [];
  interface_by_index = λ _. fail not_found;
  get_ns = λ _. pure tt;
  enter_ns = λ _. pure tt;
  leave_ns = pure tt;
  setup_veth = λ _ _. fail not_found;
  add_default_route = λ _ _. pure tt;
}

abbrev pub variables : Environment
variables = record {
  my_node_name = bytes "n1";
  my_pod_name = [];
  my_pod_namespace = [];
  my_node_ip = [];
  home_dir = [];
}

abbrev pub no_mac : Text → Result (List ℕ)
no_mac _ = err bad_mac

abbrev pub node_n1 : Node
node_n1 = record { name = bytes "n1"; vtep_mac = []; vtep_ip = []; node_ip = [] }

abbrev pub tenant_on : List Node → Tenant
tenant_on nodes = record {
  object_name = bytes "red";
  spec = record { name = bytes "red"; vni = pos 7; subnet_prefix = pos 24; nodes = nodes };
}

abbrev pub machine : Machine (List Text)
machine = record {
  outside = [];
  node_disks = λ _. good_disk absent;
  tenant_disks = λ _. good_disk absent;
  pod_disk = good_disk absent;
}

abbrev deletion : EventObject
deletion = delete_event (bytes "default/red") (some (tenant_on []))

abbrev run : Cmd (Machine (List Text)) (Unit {0})
run = delete_tenant client no_netlink variables no_ipv6_text no_mac deletion

named :
    (get_current_node_name {W = List Text} server variables true []).0 ≡ returns (ok (bytes "n1"))
unfolding get_current_node_name
named = refl

get_current_node_name_variable_example : bytes "n1" ≡ variables.my_node_name
get_current_node_name_variable_example =
    get_current_node_name_variable server variables true [] (bytes "n1") named

init_node_forgets_example :
    ((init_node server variables
        (λ _ _. [])
        (bytes "n1")
        (bytes "192.168.0.2")
        (bytes "11.4.0.0/23")
        machine).1.node_disks
      (bytes "n1")).file
    ≡ holds (
        json (record {
          node_ip = bytes "192.168.0.2";
          node_cidr = bytes "11.4.0.0/23";
          available_list = list_subnets (λ _ _. []) (bytes "11.4.0.0/23") 24;
          tenant_list = [];
        }))
init_node_forgets_example =
    init_node_forgets (λ _ _. []) server variables (bytes "n1") (bytes "192.168.0.2")
      (bytes "11.4.0.0/23") machine (λ e. absurd (ground (arith, e))) refl refl
