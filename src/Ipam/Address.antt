-- ===== src/Ipam/Address.antt =====
-- The TenantIPAM half of pkg/network/ipam/ipam.go: the addresses of a tenant's pods.
-- `next_ip` is `NextIP` of the containernetworking plugins, which adds one to an address.
pub mod Search
pub mod Laws
pub mod Uniqueness
pub mod Consistency
pub mod Exhausted
pub mod Session
pub mod View
pub mod Next
pub mod Unchanged
pub mod Refinement
pub mod Exclusive
pub mod Door
use tenant_cni.Base.{
  Bool, Error, Option, Outcome, Result, Text, bad_cidr, container_ip_not_found, err, false,
  if◌then◌else◌, ip_overflow, length, ltb, no_available_ips, none, not, ok, panics, returns,
  runs_on, some, suc, true, zero, ℕ, ◌&&◌, ◌==◌,
}
use tenant_cni.Ipam.TenantStore.{
  TenantStore, add, contains_ip, del, get_ip_by_id, last_ip, load_tenant_data, store_tenant_data,
}
use tenant_cni.Ipam.Types.{ContainerNetInfo, TenantData}
use tenant_cni.Net.Addr.{Ipv6Text, addr_text}
use tenant_cni.Net.Ip.{Ip, IpNet, ip_equal, ip_text, net_contains, parse_cidr}

pub record TenantIpam : Type 0 where
  pub tenant_name : Text
  pub tenant_store : TenantStore

-- `NewTenantIPAM`
unfoldable pub new_tenant_ipam : TenantStore → Text → Result TenantIpam
new_tenant_ipam store name = ok (record { tenant_name = name; tenant_store = store })

abbrev pub is_overflow : Error → Bool
is_overflow ip_overflow = true
is_overflow _ = false

-- What follows the loop's `NextIP` where the address is free: it is added, it becomes the last
-- one, and the data is stored once more.
unfoldable pub assign_ip :
    Ipv6Text → Ip → ContainerNetInfo → TenantStore → Option Error × TenantStore
assign_ip v6 next info s =
    let (failed, added) = add v6 next info s in
    let v = added.value in
    let (_, stored) =
      store_tenant_data (record added { value = record v { last = ip_text v6 next } }) in
    (failed, stored)

-- How the loop of `AllocateIP` returns: with an address that is assigned, or with an error.
unfoldable pub settle :
    Ipv6Text
    → ContainerNetInfo
    → TenantStore
    → Outcome (Result Ip)
    → Outcome (Result Ip × Option Error × TenantStore)
settle v6 info s (returns (ok next)) =
    let (failed, stored) = assign_ip v6 next info s in returns (ok next, failed, stored)
settle v6 info s (returns (err e)) = returns (err e, some e, s)
settle v6 info s panics = panics
settle v6 info s runs_on = runs_on

module _ (v6 : Ipv6Text) (next_ip : Ip → Ip) where
  -- `TenantIPAM.NextIP`
  unfoldable pub tenant_next_ip : TenantData → Ip → Result Ip
  tenant_next_ip t ip =
      let next = next_ip ip in
      elim (parse_cidr v6 t.tenant_cidr) [
        | none ↦ err bad_cidr
        | some (_, net) ↦ if net_contains net next then ok next else err ip_overflow
      ]

  -- The loop of `AllocateIP`, on `start`. It leaves nothing behind until an address is found.
  unfoldable pub search_ip : ℕ → TenantData → Ip → Ip → Ip → Outcome (Result Ip)
  search_ip zero t gtw last start = runs_on
  search_ip (suc rounds) t gtw last start = elim (tenant_next_ip t start) [
    | err e ↦
        let again = search_ip rounds t gtw last gtw in
        if is_overflow e && not (ip_equal last gtw) then again else returns (err e)
    | ok next ↦
        let further = search_ip rounds t gtw last next in
        if not (contains_ip v6 next t)
        then returns (ok next)
        else if ip_equal next last
        then returns (err no_available_ips)
        else further
  ]

  -- `AllocateIP` from the check of the ID on. `gtw` is the text of the gateway: the source converts
  -- it to a net.IP as it stands, so its bytes are its characters.
  unfoldable pub allocate_loaded :
      ℕ → Text → ContainerNetInfo → TenantStore → Outcome (Result Ip × Option Error × TenantStore)
  allocate_loaded rounds gtw info s =
      let (known, _) = get_ip_by_id v6 info.id s.value in
      let stored_last = last_ip v6 s.value in
      let last = if length stored_last == 0 then gtw else stored_last in
      let searched = settle v6 info s (search_ip rounds s.value gtw last last) in
      if ltb 0 (length known) then returns (ok known, none, s) else searched

  -- `AllocateIP`. A failed load is logged and the data in memory is used; a tenant that has no
  -- bridge is a nil pointer, and so is a store without a lock.
  unfoldable pub allocate_ip :
      ℕ → ContainerNetInfo → TenantIpam → Outcome (Result Ip × Option Error × TenantStore)
  allocate_ip rounds info tim =
      let s = tim.tenant_store in
      let (_, loaded) = load_tenant_data s in
      let run : Outcome (Result Ip × Option Error × TenantStore) = elim loaded.value.bridge [
        | none ↦ panics
        | some b ↦ allocate_loaded rounds (addr_text v6 b.gateway) info loaded
      ] in
      if s.mutex then run else panics

-- `ReleaseIP`
unfoldable pub release_ip : Text → TenantIpam → Outcome (Option Error × TenantStore)
release_ip id tim =
    let s = tim.tenant_store in
    let (failed, loaded) = load_tenant_data s in
    let run : Outcome (Option Error × TenantStore) = elim failed [
      | some e ↦ returns (some e, loaded)
      | none ↦ returns (del id loaded)
    ] in
    if s.mutex then run else panics

-- `CheckIP`
unfoldable pub check_ip : Ipv6Text → Text → TenantIpam → Outcome (Result Ip × TenantStore)
check_ip v6 id tim =
    let s = tim.tenant_store in
    let (failed, loaded) = load_tenant_data s in
    let (ip, found) = get_ip_by_id v6 id loaded.value in
    let run : Outcome (Result Ip × TenantStore) = elim failed [
      | some e ↦ returns (err e, loaded)
      | none ↦ returns (if found then ok ip else err container_ip_not_found, loaded)
    ] in
    if s.mutex then run else panics

-- `IPNet`, which reads the mask of the tenant's subnet; a subnet that cannot be read is a nil
-- pointer.
unfoldable pub ip_net : Ipv6Text → Ip → TenantData → Outcome IpNet
ip_net v6 ip t = elim (parse_cidr v6 t.tenant_cidr) [
  | none ↦ panics
  | some (_, net) ↦ returns (record { ip = ip; mask = net.mask })
]
