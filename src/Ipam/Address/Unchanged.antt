-- ===== src/Ipam/Address/Unchanged.antt =====
-- The calls of `AllocateIP` that leave the store as it was loaded.
use tenant_cni.Base.{
  Error, Option, Option-cases, Outcome, Result, Text, arith, err, if◌then◌else◌, inl, inr, length,
  ok, panics, returns, runs_on, some, ℕ, ◌<◌, ◌==◌, ◌≡◌,
}
use tenant_cni.Ipam.Address.{TenantIpam, allocate_ip, allocate_loaded, search_ip, settle}
use tenant_cni.Ipam.Address.Laws.{IsReady, IsUnknown, allocate_ip_known, load_tenant_data_ready}
use tenant_cni.Ipam.TenantStore.{TenantStore, get_ip_by_id, key_of_id, last_ip}
use tenant_cni.Ipam.Types.{ContainerNetInfo, TenantData}
use tenant_cni.Net.Addr.{Ipv6Text, addr_text}
use tenant_cni.Net.Ip.{Ip, parse_ip}

module _ (v6 : Ipv6Text) (next_ip : Ip → Ip) where
  settle_failed :
      (info : ContainerNetInfo) (s : TenantStore) (o : Outcome (Result Ip)) (e : Error)
      (failed : Option Error) (s' : TenantStore)
      → settle v6 info s o ≡ returns (err e, failed, s')
      → s' ≡ s
  unfolding settle
  settle_failed info s (returns (ok x)) e failed s' h = ground arith
  settle_failed info s (returns (err x)) e failed s' h = ground arith
  settle_failed info s panics e failed s' h = cc
  settle_failed info s runs_on e failed s' h = cc

  -- An error leaves the store as it was loaded.
  pub allocate_ip_failed :
      (rounds : ℕ) (info : ContainerNetInfo) (tim : TenantIpam) (t : TenantData) (e : Error)
      (failed : Option Error) (s' : TenantStore)
      → IsReady t tim.tenant_store
      → IsUnknown info.id t
      → allocate_ip v6 next_ip rounds info tim ≡ returns (err e, failed, s')
      → let s = tim.tenant_store in s' ≡ record s { value = t }
  unfolding allocate_ip allocate_loaded get_ip_by_id
  allocate_ip_failed rounds info tim t e failed s' r unknown h =
      let loaded = load_tenant_data_ready t tim.tenant_store r in
      let s = tim.tenant_store in
      elim (Option-cases t.bridge) [
        | inl lost ↦ absurd (ground (arith, loaded))
        | inr (b, eb) ↦
            let gtw = addr_text v6 b.gateway in
            let last = if length (last_ip v6 t) == 0 then gtw else last_ip v6 t in
            settle_failed info (record s { value = t })
              (search_ip v6 next_ip rounds t gtw last last) e failed s' (ground (arith, loaded))
      ]

  -- A container that has an address is given it, and the store is left as it was loaded.
  pub allocate_ip_again :
      (rounds : ℕ) (info : ContainerNetInfo) (tim : TenantIpam) (t : TenantData) (key : Text)
      (answer : Result Ip) (failed : Option Error) (s' : TenantStore)
      → IsReady t tim.tenant_store
      → key_of_id info.id t.ips ≡ some key
      → 0 < length (parse_ip v6 key)
      → allocate_ip v6 next_ip rounds info tim ≡ returns (answer, failed, s')
      → let s = tim.tenant_store in s' ≡ record s { value = t }
  unfolding allocate_ip
  allocate_ip_again rounds info tim t key answer failed s' r known readable h =
      let loaded = load_tenant_data_ready t tim.tenant_store r in
      elim (Option-cases t.bridge) [
        | inl lost ↦ absurd (ground (arith, loaded))
        | inr (b, eb) ↦
            let again = allocate_ip_known v6 next_ip rounds info tim t b key r eb known readable in
            ground (arith, again, h)
      ]
