-- ===== src/Ipam/Tenant.antt =====
-- The NodeIPAM half of pkg/network/ipam/ipam.go: a node's subnets and their allocation to tenants.
pub mod Subnets
pub mod Records
pub mod OnDisk
use tenant_cni.Base.{
  Error, List, Option, Outcome, Result, Text, [], bytes, err, if◌then◌else◌, leb, length, none, ok,
  panics, returns, runs_on, some, ℕ, ◌++◌, ◌∷◌,
}
use tenant_cni.Base.Dict.{insert}
use tenant_cni.Ipam.Hardware.{mac_text, new_hardware_addr}
use tenant_cni.Ipam.NodeStore.{NodeStore, default_store_dir, load_node_data, store_node_data}
use tenant_cni.Ipam.Store.{Disk}
use tenant_cni.Ipam.TenantStore.{new_tenant_store, store_tenant_data}
use tenant_cni.Ipam.Types.{TenantData}
use tenant_cni.Net.Addr.{
  Ipv6Text, Prefix, addr_next, addr_text, no_prefix, parse_prefix, prefix_addr, prefix_text,
}
use tenant_cni.Net.Decimal.{decimal_int, ℤ}

pub record NodeIpam : Type 0 where
  pub node_name : Text
  pub node_store : NodeStore

-- `NewNodeIPAM`
unfoldable pub new_node_ipam : NodeStore → Text → Result NodeIpam
new_node_ipam store name = ok (record { node_name = name; node_store = store })

collect : List Text → List Text → List Text
collect [] out = out
collect (s ∷ rest) out = collect rest (out ++ (s ∷ []))

-- `ListSubnets`. The subnets come from the ipaddr package: `subnets` is what its iterator gives,
-- one after another.
unfoldable pub list_subnets : (Text → ℕ → List Text) → Text → ℕ → List Text
unfolding collect
list_subnets subnets original new_prefix = collect (subnets original new_prefix) []

-- The prefix that an available subnet is taken for: the zero Prefix where its text cannot be read.
unfoldable pub read_prefix : Ipv6Text → Text → Prefix
read_prefix v6 s = elim (parse_prefix v6 s) [ none ↦ no_prefix | some p ↦ p ]

-- `GetTenantIP`, which panics on an empty list
unfoldable pub get_tenant_ip : Ipv6Text → List Text → Outcome Prefix
unfolding read_prefix
get_tenant_ip v6 [] = panics
get_tenant_ip v6 (s ∷ _) = returns (read_prefix v6 s)

abbrev pub default_bridge : Text
default_bridge = bytes "br-default"

-- `br-` and the tenant's name, or the default name where that has 13 bytes or more
unfoldable pub bridge_name : Text → Text
bridge_name tenant_name =
    let name = bytes "br-" ++ tenant_name in if leb 13 (length name) then default_bridge else name

-- The text of the new hardware address; empty where none could be made.
unfoldable pub vtep_mac_text : Result (List ℕ) → Text
unfolding new_hardware_addr mac_text
vtep_mac_text rand = elim (new_hardware_addr rand) [ ok mac ↦ mac_text mac | err _ ↦ [] ]

-- What `AllocateTenant` writes into the tenant's data.
unfoldable pub tenant_data_of : Ipv6Text → Text → ℤ → ℤ → Prefix → Text → TenantData → TenantData
unfolding bridge_name
tenant_data_of v6 tenant_name vni tenant_prefix cidr mac old =
    let gateway = addr_next (prefix_addr cidr) in
    record old {
      tenant_name = tenant_name;
      tenant_prefix = tenant_prefix;
      tenant_cidr = prefix_text v6 cidr;
      bridge = some (record { name = bridge_name tenant_name; gateway = gateway });
      vxlan = some (record {
        vtep_name = tenant_name ++ (b'.' ∷ decimal_int vni);
        vtep_ip = addr_text v6 (prefix_addr cidr);
        vtep_mac = mac;
        vni = vni;
      });
      last = addr_text v6 gateway;
    }

-- The tenant's store is made, filled and written; a store that cannot be made is a nil
-- pointer, which panics once the node's data has been written.
unfoldable pub write_tenant :
    Ipv6Text
    → Text
    → ℤ
    → ℤ
    → Prefix
    → Result (List ℕ)
    → Disk TenantData
    → Outcome (Option Error) × Disk TenantData
write_tenant v6 tenant_name vni tenant_prefix cidr rand disk =
    let (made, made_disk) = new_tenant_store default_store_dir tenant_name disk in
    elim made [
      | err e ↦ (panics, made_disk)
      | ok store ↦
          let values =
            tenant_data_of v6 tenant_name vni tenant_prefix cidr (vtep_mac_text rand) store.value in
          let (failed, stored) = store_tenant_data (record store { value = values }) in
          (returns failed, stored.disk)
    ]

-- `AllocateTenant` under the node store's lock, after the data has been loaded.
unfoldable pub take_subnet :
    Ipv6Text
    → Text
    → ℤ
    → ℤ
    → Result (List ℕ)
    → NodeStore
    → Disk TenantData
    → Outcome (Option Error) × NodeStore × Disk TenantData
take_subnet v6 tenant_name vni tenant_prefix rand s disk =
    let v = s.value in
    elim v.available_list [
      | [] ↦ (returns none, s, disk)
      | c ∷ rest ↦
          let cidr = read_prefix v6 c in
          let taken = record s {
            value = record v {
              available_list = rest;
              tenant_list = insert tenant_name cidr v.tenant_list;
            };
          } in
          let (_, stored) = store_node_data taken in
          let (o, written) = write_tenant v6 tenant_name vni tenant_prefix cidr rand disk in
          (o, stored, written)
    ]

-- `AllocateTenant`. The lock of a store without a mutex is a nil pointer.
unfoldable pub allocate_tenant :
    Ipv6Text
    → Text
    → ℤ
    → ℤ
    → Result (List ℕ)
    → NodeIpam
    → Disk TenantData
    → Outcome (Option Error) × NodeStore × Disk TenantData
allocate_tenant v6 tenant_name vni tenant_prefix rand nim disk =
    let s = nim.node_store in
    let (failed, loaded) = load_node_data s in
    let run : Outcome (Option Error) × NodeStore × Disk TenantData = elim failed [
      | some e ↦ (returns (some e), loaded, disk)
      | none ↦ take_subnet v6 tenant_name vni tenant_prefix rand loaded disk
    ] in
    if s.mutex then run else (panics, s, disk)
