-- ===== src/Ipam/Address/Session.antt =====
-- `AllocateIP`, `CheckIP` and `ReleaseIP` one after another, on a store that can be read and written.
use tenant_cni.Base.{
  Error, Option, Option-cases, Outcome, Result, arith, err, false, if◌then◌else◌, inl, inr, length,
  none, ok, panics, refl, returns, runs_on, true, ℕ, ◌<◌, ◌==◌, ◌≡◌,
}
use tenant_cni.Base.Dict.{erase-insert_new, lookup}
use tenant_cni.Ipam.Address.{
  TenantIpam, allocate_ip, allocate_loaded, check_ip, release_ip, search_ip, settle,
}
use tenant_cni.Ipam.Address.Consistency.{IsIpv4Subnet, in_subnet_readable, search_ip-IsBytes}
use tenant_cni.Ipam.Address.Laws.{
  IsReady, IsUnknown, assign_ip_ready, load_tenant_data_ready, stored_with, with_ip,
}
use tenant_cni.Ipam.Address.Search.{in_subnet, search_ip_sound}
use tenant_cni.Ipam.Address.Uniqueness.{key_of_id-insert_self}
use tenant_cni.Ipam.TenantStore.{
  TenantStore, contains_ip, del, get_ip_by_id, last_ip, store_tenant_data,
}
use tenant_cni.Ipam.Types.{ContainerNetInfo, TenantData}
use tenant_cni.Net.Addr.{Ipv6Text, addr_text}
use tenant_cni.Net.Ip.{Ip, ip_equal, ip_text, parse_ip, to4}
use tenant_cni.Net.RoundTrip.{IsBytes, ip_equal-parse_ip, length-pos_of_to4}

check_ip_stored :
    (v6 : Ipv6Text) (ip : Ip) (info : ContainerNetInfo) (tim : TenantIpam) (t : TenantData)
    → IsReady t tim.tenant_store
    → IsUnknown info.id t
    → contains_ip v6 ip t ≡ false
    → length (to4 ip) ≡ 4
    → IsBytes ip
    → let s = stored_with v6 (with_ip v6 ip info t) tim.tenant_store in
      (read : Ip) × (check_ip v6 info.id (record tim { tenant_store = s }) ≡ returns (ok read, s))
      × (ip_equal read ip ≡ true)
unfolding check_ip contains_ip get_ip_by_id
check_ip_stored v6 ip info tim t r unknown free four bs =
    let s = stored_with v6 (with_ip v6 ip info t) tim.tenant_store in
    let found = key_of_id-insert_self (ip_text v6 ip) info t.ips (ground arith) unknown in
    let ready : IsReady (with_ip v6 ip info t) s = ground arith in
    (
      parse_ip v6 (ip_text v6 ip),
      ground (arith, load_tenant_data_ready (with_ip v6 ip info t) s ready),
      ip_equal-parse_ip v6 ip four bs,
    )

release_ip_stored :
    (v6 : Ipv6Text) (ip : Ip) (info : ContainerNetInfo) (tim : TenantIpam) (t : TenantData)
    → IsReady t tim.tenant_store
    → IsUnknown info.id t
    → contains_ip v6 ip t ≡ false
    → let s = stored_with v6 (with_ip v6 ip info t) tim.tenant_store in
      release_ip info.id (record tim { tenant_store = s })
      ≡ returns (none, stored_with v6 (record t { last = ip_text v6 ip }) tim.tenant_store)
unfolding release_ip contains_ip del store_tenant_data
release_ip_stored v6 ip info tim t r unknown free =
    let s = stored_with v6 (with_ip v6 ip info t) tim.tenant_store in
    let fresh : lookup (ip_text v6 ip) t.ips ≡ none = ground arith in
    let found = key_of_id-insert_self (ip_text v6 ip) info t.ips fresh unknown in
    let ready : IsReady (with_ip v6 ip info t) s = ground arith in
    ground (
      arith,
      load_tenant_data_ready (with_ip v6 ip info t) s ready,
      erase-insert_new (ip_text v6 ip) info t.ips fresh,
    )

module _ (v6 : Ipv6Text) (next_ip : Ip → Ip) (bytes_next : (ip : Ip) → IsBytes (next_ip ip)) where
  settle_found :
      (info : ContainerNetInfo) (t : TenantData) (s : TenantStore) (o : Outcome (Result Ip))
      (ip : Ip) (failed : Option Error) (s' : TenantStore)
      → IsReady t s
      → ((x : Ip) → o ≡ returns (ok x) → 0 < length x)
      → settle v6 info (record s { value = t }) o ≡ returns (ok ip, failed, s')
      → (o ≡ returns (ok ip)) × (failed ≡ none) × (s' ≡ stored_with v6 (with_ip v6 ip info t) s)
  unfolding settle
  settle_found info t s (returns (ok x)) ip failed s' r filled h =
      ground (arith, assign_ip_ready v6 x info t s (filled x refl) r)
  settle_found info t s (returns (err x)) ip failed s' r filled h = ground arith
  settle_found info t s panics ip failed s' r filled h = cc
  settle_found info t s runs_on ip failed s' r filled h = cc

  found_from :
      (rounds : ℕ) (info : ContainerNetInfo) (tim : TenantIpam) (t : TenantData) (gtw last ip : Ip)
      (failed : Option Error) (s : TenantStore)
      → IsReady t tim.tenant_store
      → IsIpv4Subnet v6 t
      → let start = tim.tenant_store in
        settle v6 info (record start { value = t }) (search_ip v6 next_ip rounds t gtw last last)
          ≡ returns (ok ip, failed, s)
        → (failed ≡ none)
          × (s ≡ stored_with v6 (with_ip v6 ip info t) tim.tenant_store)
          × (in_subnet v6 next_ip t ip ≡ true)
          × (contains_ip v6 ip t ≡ false)
          × (length (to4 ip) ≡ 4)
          × IsBytes ip
  found_from rounds info tim t gtw last ip failed s r sub h =
      let facts = λ (x : Ip) (e : search_ip v6 next_ip rounds t gtw last last ≡ returns (ok x)).
        in_subnet_readable v6 next_ip t x sub
          (search_ip-IsBytes v6 next_ip bytes_next rounds t gtw last last x e)
          (search_ip_sound v6 next_ip rounds t gtw last last x e).0 in
      let (e, clean, left) =
        settle_found info t tim.tenant_store _ ip failed s r
          (λ x e. length-pos_of_to4 x (facts x e).0) h in
      let (within, free) = search_ip_sound v6 next_ip rounds t gtw last last ip e in
      (
        clean,
        left,
        within,
        free,
        (facts ip e).0,
        search_ip-IsBytes v6 next_ip bytes_next rounds t gtw last last ip e,
      )

  -- `AllocateIP` returned an address for a new container of an IPv4 tenant, on a store that can be read
  -- and written and with a `NextIP` that gives bytes: there was no error, the
  -- address is an IPv4 address of the subnet that no container had, and the store that is left holds
  -- it, in memory and on disk, under the container's ID and as the last address.
  pub allocate_ip_found :
      (rounds : ℕ) (info : ContainerNetInfo) (tim : TenantIpam) (t : TenantData) (ip : Ip)
      (failed : Option Error) (s : TenantStore)
      → IsReady t tim.tenant_store
      → IsIpv4Subnet v6 t
      → IsUnknown info.id t
      → allocate_ip v6 next_ip rounds info tim ≡ returns (ok ip, failed, s)
      → (failed ≡ none)
        × (s ≡ stored_with v6 (with_ip v6 ip info t) tim.tenant_store)
        × (in_subnet v6 next_ip t ip ≡ true)
        × (contains_ip v6 ip t ≡ false)
        × (length (to4 ip) ≡ 4)
        × IsBytes ip
  unfolding allocate_ip allocate_loaded get_ip_by_id
  allocate_ip_found rounds info tim t ip failed s r sub unknown h =
      let loaded = load_tenant_data_ready t tim.tenant_store r in
      elim (Option-cases t.bridge) [
        | inl lost ↦ absurd (ground (arith, loaded))
        | inr (b, eb) ↦
            let gtw = addr_text v6 b.gateway in
            let last = if length (last_ip v6 t) == 0 then gtw else last_ip v6 t in
            found_from rounds info tim t gtw last ip failed s r sub (ground (arith, loaded))
      ]

  -- A new container of an IPv4 tenant that `AllocateIP` gave an address, on a store that can be read and
  -- written and with a `NextIP` that gives bytes, is found by `CheckIP` on the store that is left, with an
  -- equal address, and nothing changes by the check.
  pub check_ip-allocate_ip :
      (rounds : ℕ) (info : ContainerNetInfo) (tim : TenantIpam) (t : TenantData) (ip : Ip)
      (failed : Option Error) (s : TenantStore)
      → IsReady t tim.tenant_store
      → IsIpv4Subnet v6 t
      → IsUnknown info.id t
      → allocate_ip v6 next_ip rounds info tim ≡ returns (ok ip, failed, s)
      → (read : Ip) × (check_ip v6 info.id (record tim { tenant_store = s }) ≡ returns (ok read, s))
        × (ip_equal read ip ≡ true)
  check_ip-allocate_ip rounds info tim t ip failed s r sub unknown h =
      let (_, left, _, free, four, bs) =
        allocate_ip_found rounds info tim t ip failed s r sub unknown h in
      rw left (check_ip_stored v6 ip info tim t r unknown free four bs)

  -- On a store that can be read and written, with a `NextIP` that gives bytes, `AllocateIP` and then
  -- `ReleaseIP` for a new container of an IPv4 tenant: the address map is again what it was, and the
  -- released address stays the last one.
  pub release_ip-allocate_ip :
      (rounds : ℕ) (info : ContainerNetInfo) (tim : TenantIpam) (t : TenantData) (ip : Ip)
      (failed : Option Error) (s : TenantStore)
      → IsReady t tim.tenant_store
      → IsIpv4Subnet v6 t
      → IsUnknown info.id t
      → allocate_ip v6 next_ip rounds info tim ≡ returns (ok ip, failed, s)
      → release_ip info.id (record tim { tenant_store = s })
        ≡ returns (none, stored_with v6 (record t { last = ip_text v6 ip }) tim.tenant_store)
  release_ip-allocate_ip rounds info tim t ip failed s r sub unknown h =
      let (_, left, _, free, four, bs) =
        allocate_ip_found rounds info tim t ip failed s r sub unknown h in
      rw left (release_ip_stored v6 ip info tim t r unknown free)
