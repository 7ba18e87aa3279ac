-- ===== src/Tests/Commands.antt =====
-- The plugin's commands on a node with one tenant and one pod.
use tenant_cni.Backend.Bridge.{create_tenant_bridge}
use tenant_cni.Backend.Veth.{setup_inside, setup_veth}
use tenant_cni.Base.{
  Outcome, Result, Text, [], arith, bytes, false, ok, refl, returns, some, text_dec, true, ◌∷◌, ◌≡◌,
}
use tenant_cni.Base.Dict.{erase, insert}
use tenant_cni.Cni.Add.{cmd_add_records}
use tenant_cni.Cni.Args.{get_regex}
use tenant_cni.Cni.Check.{check_interface, cmd_check-cmd_add}
use tenant_cni.Cni.Commands.{
  CmdArgs, CniResult, allocate_on_node, attach, cmd_add, cmd_check, cmd_del, find_tenant,
  get_tenant_pod, pod_name_of, tenant_of_pod,
}
use tenant_cni.Cni.Del.{cmd_del-cmd_add, cmd_del_frees}
use tenant_cni.Cni.Tenants.{HoldsTenant, IsFound}
use tenant_cni.Host.{Cmd, pure}
use tenant_cni.Host.Netlink.{Link, Netlink, bridge_link}
use tenant_cni.Ipam.Address.{
  allocate_ip, allocate_loaded, assign_ip, ip_net, new_tenant_ipam, search_ip, settle,
  tenant_next_ip,
}
use tenant_cni.Ipam.Address.Laws.{with_ip}
use tenant_cni.Ipam.Address.Search.{in_subnet}
use tenant_cni.Ipam.PodStore.{load_pod_data, new_pod_store}
use tenant_cni.Ipam.Store.{
  absent, holds, json, load_value, make_directory, new_file_lock, new_store, store_value,
  write_file,
}
use tenant_cni.Ipam.TenantStore.{
  add, contains_ip, get_ip_by_id, key_of_id, last_ip, load_tenant_data, new_tenant_store,
  store_tenant_data,
}
use tenant_cni.Ipam.Types.{TenantData}
use tenant_cni.Machine.{
  Machine, on_outside, on_tenant, open_pods, open_tenant, put, save_pods, save_tenant, write_pods,
}
use tenant_cni.Net.Addr.{addr_text, dotted_text, form_of, octets, octets_of, parse_addr, parse_ipv4}
use tenant_cni.Net.Decimal.{decimal, read_digits}
use tenant_cni.Net.Ip.{
  Ip, as16, cidr_mask, ip_equal, ip_mask, ip_text, net_contains, parse_cidr, parse_ip, to4,
}
use tenant_cni.Tests.{good_disk, next_address, next_address-IsBytes, no_ipv6_text, small_tenant}
use tenant_cni.Tests.Ipam.{container, gateway_ip, is_unknown, small_is_ipv4, the_next}

abbrev link : Link
link = record { name = bytes "br-red"; index = 3; kind = bridge_link }

-- Every call on the network succeeds.
abbrev pub netlink : Netlink (Unit {0})
netlink = record {
  link_by_name = λ _. pure link;
  link_add = λ _. pure tt;
  link_del = λ _. pure tt;
  link_set_up = λ _. pure tt;
  link_set_master = λ _ _. pure tt;
  addr_add = λ _ _. pure tt;
  addr_list = λ _. pure [];
  neigh_set = λ _. pure tt;
  neigh_del = λ _. pure tt;
  neigh_list = λ _. pure [];
  route_add = λ _. pure tt;
  route_del = λ _. pure tt;
  route_list = pure [];
  interface_by_index = λ _. pure (record { index = 1; mtu = 1500 });
  get_ns = λ _. pure tt;
  enter_ns = λ _. pure tt;
  leave_ns = pure tt;
  setup_veth = λ _ _. pure (bytes "veth1", bytes "eth0");
  add_default_route = λ _ _. pure tt;
}

abbrev pub node : Machine (Unit {0})
node = record {
  outside = tt;
  node_disks = λ _. good_disk absent;
  tenant_disks = λ _. good_disk (holds (json small_tenant));
  pod_disk = good_disk (holds (json (record { pods = (bytes "web", bytes "red") ∷ [] })));
}

abbrev pub call : CmdArgs
call = record {
  container_id = bytes "c1";
  netns = bytes "/var/run/netns/a";
  if_name = bytes "eth0";
  args = bytes "K8S_POD_NAME=web";
}

-- One attempt.
abbrev pub once : Cmd (Machine (Unit {0})) Text → Cmd (Machine (Unit {0})) Text
once f = f

pub red-HoldsTenant : HoldsTenant (bytes "red") (good_disk (holds (json small_tenant))) small_tenant
unfolding new_file_lock
red-HoldsTenant = record {
  there = λ e. absurd (ground (arith, e));
  lockable = refl;
  openable = refl;
  writable = refl;
  file = refl;
}

pub web-IsFound : IsFound once (bytes "K8S_POD_NAME=web") (bytes "web") (bytes "red") node
unfolding get_regex find_tenant get_tenant_pod open_pods new_pod_store new_store make_directory
    load_pod_data load_value save_pods tenant_of_pod text_dec
web-IsFound = record { retries_once = λ f s x e. refl; reads_name = refl; finds = refl }

abbrev added : Outcome (Result CniResult) × Machine (Unit {0})
added = cmd_add netlink no_ipv6_text next_address once 3 call node

abbrev answer : CniResult
answer = record {
  address = record { ip = the_next; mask = 255 ∷ 255 ∷ 255 ∷ 0 ∷ [] };
  gateway = gateway_ip;
}

succeeds : added.0 ≡ returns (ok answer)
unfolding cmd_add pod_name_of get_regex find_tenant get_tenant_pod open_pods new_pod_store new_store
    make_directory load_pod_data load_value save_pods tenant_of_pod text_dec open_tenant
    new_tenant_store load_tenant_data new_tenant_ipam new_file_lock save_tenant allocate_on_node
    on_tenant allocate_ip allocate_loaded settle assign_ip add store_tenant_data store_value
    write_file last_ip parse_ip parse_addr form_of parse_ipv4 octets as16 octets_of read_digits
    parse_cidr net_contains to4 ip_mask cidr_mask next_address contains_ip ip_text dotted_text
    decimal get_ip_by_id key_of_id search_ip tenant_next_ip attach on_outside create_tenant_bridge
    ip_net setup_veth setup_inside addr_text write_pods ip_equal insert put
succeeds = refl

web-IsFound_again : IsFound once (bytes "K8S_POD_NAME=web") (bytes "web") (bytes "red") added.1
unfolding cmd_add pod_name_of get_regex find_tenant get_tenant_pod open_pods new_pod_store new_store
    make_directory load_pod_data load_value save_pods tenant_of_pod text_dec open_tenant
    new_tenant_store load_tenant_data new_tenant_ipam new_file_lock save_tenant allocate_on_node
    on_tenant allocate_ip allocate_loaded settle assign_ip add store_tenant_data store_value
    write_file last_ip parse_ip parse_addr form_of parse_ipv4 octets as16 octets_of read_digits
    parse_cidr net_contains to4 ip_mask cidr_mask next_address contains_ip ip_text dotted_text
    decimal get_ip_by_id key_of_id search_ip tenant_next_ip attach on_outside create_tenant_bridge
    ip_net setup_veth setup_inside addr_text write_pods ip_equal insert put
web-IsFound_again = record { retries_once = λ f s x e. refl; reads_name = refl; finds = refl }

cmd_add_records_example :
    (in_subnet no_ipv6_text next_address small_tenant the_next ≡ true)
    × (contains_ip no_ipv6_text the_next small_tenant ≡ false)
    × HoldsTenant
        (bytes "red")
        (added.1.tenant_disks (bytes "red"))
        (with_ip no_ipv6_text the_next container small_tenant)
cmd_add_records_example =
    cmd_add_records netlink no_ipv6_text next_address once 3 next_address-IsBytes call (bytes "web")
      (bytes "red") small_tenant node answer web-IsFound red-HoldsTenant small_is_ipv4 is_unknown
      succeeds

cmd_del-cmd_add_example :
    HoldsTenant
      (bytes "red")
      ((cmd_del netlink no_ipv6_text next_address once 3 call added.1).1.tenant_disks (bytes "red"))
      (record small_tenant { last = ip_text no_ipv6_text the_next })
cmd_del-cmd_add_example =
    cmd_del-cmd_add netlink no_ipv6_text next_address once 3 next_address-IsBytes call (bytes "web")
      (bytes "red") small_tenant node answer web-IsFound red-HoldsTenant small_is_ipv4 is_unknown
      succeeds web-IsFound_again

-- A tenant whose first address is the container's.
abbrev pub taken_tenant : TenantData
taken_tenant = record small_tenant { ips = (bytes "11.4.1.2", container) ∷ [] }

abbrev pub taken_node : Machine (Unit {0})
taken_node = record node { tenant_disks = λ _. good_disk (holds (json taken_tenant)) }

pub taken-HoldsTenant :
    HoldsTenant (bytes "red") (good_disk (holds (json taken_tenant))) taken_tenant
unfolding new_file_lock
taken-HoldsTenant = record {
  there = λ e. absurd (ground (arith, e));
  lockable = refl;
  openable = refl;
  writable = refl;
  file = refl;
}

pub taken-IsFound : IsFound once (bytes "K8S_POD_NAME=web") (bytes "web") (bytes "red") taken_node
unfolding get_regex find_tenant get_tenant_pod open_pods new_pod_store new_store make_directory
    load_pod_data load_value save_pods tenant_of_pod text_dec
taken-IsFound = record { retries_once = λ f s x e. refl; reads_name = refl; finds = refl }

container_is_known : key_of_id (bytes "c1") taken_tenant.ips ≡ some (bytes "11.4.1.2")
unfolding key_of_id text_dec
container_is_known = refl

cmd_del_frees_example :
    HoldsTenant
      (bytes "red")
      ((cmd_del netlink no_ipv6_text next_address once 3 call taken_node).1.tenant_disks
        (bytes "red"))
      (record taken_tenant { ips = erase (bytes "11.4.1.2") taken_tenant.ips })
cmd_del_frees_example =
    cmd_del_frees netlink no_ipv6_text next_address once 3 call (bytes "web") (bytes "red")
      (bytes "11.4.1.2") taken_tenant taken_node taken-IsFound taken-HoldsTenant container_is_known

cmd_check-cmd_add_example :
    (read : Ip) × ((cmd_check netlink no_ipv6_text next_address once 3 call added.1).0
      ≡ (check_interface netlink no_ipv6_text next_address once 3 call read added.1.outside).0)
    × (ip_equal read the_next ≡ true)
cmd_check-cmd_add_example =
    cmd_check-cmd_add netlink no_ipv6_text next_address once 3 next_address-IsBytes call
      (bytes "web") (bytes "red") small_tenant node answer web-IsFound red-HoldsTenant small_is_ipv4
      is_unknown succeeds web-IsFound_again
