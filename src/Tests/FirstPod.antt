-- ===== src/Tests/FirstPod.antt =====
-- The first pod of a tenant that the node did not have.
use tenant_cni.Backend.Bridge.{create_tenant_bridge}
use tenant_cni.Backend.Veth.{setup_inside, setup_veth}
use tenant_cni.Base.{Outcome, Result, [], arith, bytes, ok, refl, returns, some, text_dec, ◌∷◌, ◌≡◌}
use tenant_cni.Base.Dict.{insert}
use tenant_cni.Cni.Add.{container_of}
use tenant_cni.Cni.Args.{get_regex}
use tenant_cni.Cni.Commands.{
  CmdArgs, CniResult, allocate_on_node, attach, cmd_add, cmd_del, find_tenant, get_tenant_pod,
  pod_name_of, tenant_of_pod,
}
use tenant_cni.Cni.Tenants.{HoldsTenant}
use tenant_cni.Controller.Add.{add_on_node}
use tenant_cni.Controller.Events.{handle_pod_add, register_pod, tenant_of_annotation}
use tenant_cni.Controller.Wiring.{dispatch, pod_added}
use tenant_cni.Ipam.Address.{
  allocate_ip, allocate_loaded, assign_ip, ip_net, new_tenant_ipam, search_ip, settle,
  tenant_next_ip,
}
use tenant_cni.Ipam.Address.Laws.{with_ip}
use tenant_cni.Ipam.Address.Refinement.{IsAddressOf}
use tenant_cni.Ipam.Address.View.{leases}
use tenant_cni.Ipam.Leases.{IsExclusive}
use tenant_cni.Ipam.NodeStore.{load_node_data, new_node_store, store_node_data}
use tenant_cni.Ipam.PodStore.{load_pod_data, new_pod_store, store_pod_data}
use tenant_cni.Ipam.Serving.{fresh-IsIpv4Subnet, fresh-ips}
use tenant_cni.Ipam.Store.{
  load_value, make_directory, new_file_lock, new_store, store_value, write_file,
}
use tenant_cni.Ipam.Tenant.{
  allocate_tenant, new_node_ipam, read_prefix, take_subnet, tenant_data_of, vtep_mac_text,
  write_tenant,
}
use tenant_cni.Ipam.TenantStore.{
  add, contains_ip, get_ip_by_id, key_of_id, last_ip, load_tenant_data, new_tenant_store,
  store_tenant_data,
}
use tenant_cni.Ipam.Types.{TenantData}
use tenant_cni.Machine.{
  Machine, on_outside, on_tenant, open_node, open_pods, open_tenant, put, save_node, save_pods,
  save_tenant, write_pods,
}
use tenant_cni.Net.Addr.{
  addr_next, addr_text, dotted_text, form_of, ipv4, octets, octets_of, parse_addr, parse_ipv4,
  parse_prefix, prefix, prefix_text,
}
use tenant_cni.Net.Decimal.{decimal, pos, read_digits}
use tenant_cni.Net.Ip.{
  as16, cidr_mask, ip_equal, ip_mask, ip_text, net_contains, parse_cidr, parse_ip, to4,
}
use tenant_cni.System.Added.{add_on_node_records}
use tenant_cni.System.Events.{
  AllSpare, Events, Spares, nothing_yet, noticed, plugin_adds, plugin_deletes, then_event,
}
use tenant_cni.System.Exclusive.{Events-IsExclusive}
use tenant_cni.System.FirstPod.{cmd_add-add_on_node}
use tenant_cni.System.Lifetime.{Events-add_on_node}
use tenant_cni.Tests.{no_ipv6_text}
use tenant_cni.Tests.Commands.{call, netlink, once}
use tenant_cni.Tests.Controller.{no_mac, variables}
use tenant_cni.Tests.Plugin.{web}
use tenant_cni.Tests.Pool.{bump, next_ipv4, next_ipv4-AddsOne, next_ipv4-IsBytes}
use tenant_cni.Tests.Release.{two-Holds}
use tenant_cni.Tests.System.{
  add_red, controller, new_node, once-OnlyRuns, red-IsApart, red-IsPrepared, red_data, red_subnet,
  red_tenant, tables,
}
use tenant_cni.Tests.Tenant.{random_bytes, two_subnets}

abbrev with_pod : Outcome (Result (Unit {0})) × Machine (Unit {0})
with_pod = handle_pod_add web add_red.1

handled : with_pod.0 ≡ returns (ok tt)
unfolding handle_pod_add register_pod open_pods new_pod_store new_store make_directory new_file_lock
    load_pod_data load_value write_file write_pods store_pod_data store_value save_pods add_on_node
    on_outside open_tenant new_tenant_store load_tenant_data new_tenant_ipam save_tenant put
    text_dec open_node new_node_store load_node_data new_node_ipam save_node
    tenant_cni.Controller.Add.allocate_on_node allocate_tenant take_subnet store_node_data
    write_tenant store_tenant_data
handled = refl

abbrev first_pod : Outcome (Result CniResult) × Machine (Unit {0})
first_pod = cmd_add netlink no_ipv6_text next_ipv4 once 1 call with_pod.1

abbrev answer : CniResult
answer = record {
  address = record { ip = 11 ∷ 4 ∷ 0 ∷ 2 ∷ []; mask = 255 ∷ 255 ∷ 255 ∷ 0 ∷ [] };
  gateway = as16 (ipv4 184811521);
}

succeeds : first_pod.0 ≡ returns (ok answer)
unfolding handle_pod_add register_pod open_pods new_pod_store new_store make_directory new_file_lock
    load_pod_data load_value write_file write_pods store_pod_data store_value save_pods add_on_node
    on_outside open_tenant new_tenant_store load_tenant_data new_tenant_ipam save_tenant put
    text_dec open_node new_node_store load_node_data new_node_ipam save_node
    tenant_cni.Controller.Add.allocate_on_node allocate_tenant take_subnet store_node_data
    write_tenant store_tenant_data cmd_add pod_name_of get_regex find_tenant get_tenant_pod
    tenant_of_pod allocate_on_node on_tenant allocate_ip allocate_loaded settle assign_ip add
    last_ip parse_ip parse_addr form_of parse_ipv4 octets as16 octets_of read_digits parse_cidr
    net_contains to4 ip_mask cidr_mask contains_ip ip_text dotted_text decimal get_ip_by_id
    key_of_id search_ip tenant_next_ip attach create_tenant_bridge ip_net setup_veth setup_inside
    addr_text ip_equal insert tenant_data_of bump tenant_of_annotation addr_next read_prefix
    parse_prefix prefix_text
succeeds = refl

named : get_regex (bytes "K8S_POD_NAME=web") ≡ some (bytes "web")
unfolding get_regex
named = refl

annotated : tenant_of_annotation web ≡ bytes "red"
unfolding tenant_of_annotation text_dec
annotated = refl

cmd_add-add_on_node_example :
    (to4 answer.address.ip ≡ 11 ∷ 4 ∷ 0 ∷ 2 ∷ [])
    × HoldsTenant (bytes "red") (first_pod.1.tenant_disks (bytes "red")) (
        with_ip no_ipv6_text answer.address.ip
          (container_of netlink no_ipv6_text next_ipv4 once 1 call (bytes "web"))
          red_data)
cmd_add-add_on_node_example =
    cmd_add-add_on_node controller netlink tables variables no_ipv6_text no_mac next_ipv4
      next_ipv4-IsBytes next_ipv4-AddsOne once (λ f s x e. refl) 1 (omega arith) (bytes "default")
      (bytes "red") (bytes "n1") red_tenant random_bytes two_subnets new_node (bytes "11.4.0.0/24")
      (bytes "11.4.1.0/24" ∷ []) 184811520 web call answer two-Holds refl red_subnet (omega arith)
      refl red-IsPrepared refl refl refl annotated named handled succeeds

lifetime :
    Events no_ipv6_text next_ipv4 controller netlink tables variables no_mac once 1
      (bytes "red")
      add_red.1
      first_pod.1
unfolding dispatch
lifetime =
    then_event with_pod.1 first_pod.1
      (then_event add_red.1 with_pod.1 nothing_yet (noticed (pod_added web))) (plugin_adds call)

-- The tenant's data with the first pod's address.
abbrev with_first : TenantData
with_first =
    with_ip no_ipv6_text answer.address.ip
      (container_of netlink no_ipv6_text next_ipv4 once 1 call (bytes "web")) red_data

first_pod_there : HoldsTenant (bytes "red") (first_pod.1.tenant_disks (bytes "red")) with_first
first_pod_there =
    (cmd_add-add_on_node controller netlink tables variables no_ipv6_text no_mac next_ipv4
      next_ipv4-IsBytes next_ipv4-AddsOne once (λ f s x e. refl) 1 (omega arith) (bytes "default")
      (bytes "red") (bytes "n1") red_tenant random_bytes two_subnets new_node (bytes "11.4.0.0/24")
      (bytes "11.4.1.0/24" ∷ []) 184811520 web call answer two-Holds refl red_subnet (omega arith)
      refl red-IsPrepared refl refl refl annotated named handled succeeds).1

has_lease : leases with_first (bytes "c1") ≡ some (bytes "11.4.0.2")
unfolding key_of_id insert tenant_data_of ip_text dotted_text decimal to4 as16 text_dec
has_lease = refl

-- Another container is deleted, whose ID is not known.
abbrev other_call : CmdArgs
other_call = record call { container_id = bytes "c2" }

abbrev other_gone : Machine (Unit {0})
other_gone = (cmd_del netlink no_ipv6_text next_ipv4 once 1 other_call first_pod.1).1

abbrev goes_on :
    Events no_ipv6_text next_ipv4 controller netlink tables variables no_mac once 1
      (bytes "red")
      first_pod.1
      other_gone
goes_on = then_event first_pod.1 other_gone nothing_yet (plugin_deletes other_call)

spares_first :
    AllSpare no_ipv6_text next_ipv4 controller netlink tables variables no_mac once 1
      (bytes "c1")
      goes_on
unfolding AllSpare Spares
spares_first = (tt, λ e. ground (arith, e))

Events-add_on_node_example :
    (z : TenantData) × HoldsTenant (bytes "red") (other_gone.tenant_disks (bytes "red")) z
    × (z.tenant_cidr ≡ prefix_text no_ipv6_text (prefix (ipv4 184811520) 24))
    × (leases z (bytes "c1") ≡ some (bytes "11.4.0.2"))
    × IsExclusive
        (IsAddressOf no_ipv6_text (prefix_text no_ipv6_text (prefix (ipv4 184811520) 24)))
        (leases z)
Events-add_on_node_example =
    Events-add_on_node controller netlink tables variables no_ipv6_text no_mac next_ipv4
      next_ipv4-IsBytes once once-OnlyRuns 1 (bytes "default") (bytes "red") (bytes "n1") red_tenant
      random_bytes two_subnets new_node first_pod.1 other_gone (bytes "11.4.0.0/24")
      (bytes "11.4.1.0/24" ∷ []) 184811520 with_first (bytes "c1") (bytes "11.4.0.2") red-IsApart
      red-IsApart two-Holds refl red_subnet (omega arith) red-IsPrepared lifetime first_pod_there
      has_lease goes_on spares_first

-- A tenant's file with no address given out, as it stands once the tenant was added.
red_there : HoldsTenant (bytes "red") (add_red.1.tenant_disks (bytes "red")) red_data
red_there =
    (add_on_node_records controller netlink tables variables no_ipv6_text no_mac (bytes "default")
      (bytes "red") (bytes "n1") red_tenant random_bytes two_subnets new_node (bytes "11.4.0.0/24")
      (bytes "11.4.1.0/24" ∷ []) 184811520 two-Holds refl red_subnet red-IsPrepared).1

Events-IsExclusive_example :
    (z : TenantData) × HoldsTenant (bytes "red") (other_gone.tenant_disks (bytes "red")) z
    × (z.tenant_cidr ≡ red_data.tenant_cidr)
    × (leases z (bytes "c1") ≡ some (bytes "11.4.0.2"))
    × IsExclusive (IsAddressOf no_ipv6_text red_data.tenant_cidr) (leases z)
Events-IsExclusive_example =
    Events-IsExclusive no_ipv6_text next_ipv4 next_ipv4-IsBytes controller netlink tables variables
      no_mac once once-OnlyRuns 1 (bytes "red") red_data add_red.1 first_pod.1 other_gone with_first
      (bytes "c1") (bytes "11.4.0.2") red-IsApart red_there
      (fresh-IsIpv4Subnet no_ipv6_text (bytes "red") (vtep_mac_text random_bytes) (pos 7) (pos 24)
        184811520 (omega arith))
      (fresh-ips no_ipv6_text (bytes "red") (vtep_mac_text random_bytes) (pos 7) (pos 24) 184811520)
      lifetime first_pod_there has_lease goes_on spares_first
