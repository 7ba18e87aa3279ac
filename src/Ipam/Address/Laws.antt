-- ===== src/Ipam/Address/Laws.antt =====
-- `AllocateIP` as a whole, on a store whose file holds the tenant's data and can be written.
use tenant_cni.Base.{
  Error, Option, Option-cases, Text, [], arith, false, inl, inr, length, none, ok, returns, runs_on,
  some, true, ℕ, ◌<◌, ◌∷◌, ◌≡◌,
}
use tenant_cni.Base.Dict.{insert}
use tenant_cni.Ipam.Address.{TenantIpam, allocate_ip, allocate_loaded, assign_ip, search_ip, settle}
use tenant_cni.Ipam.Address.Search.{
  Busy, IsOverflow, after, in_subnet, search_ip_first, search_ip_runs_on, search_ip_sound,
}
use tenant_cni.Ipam.Store.{holds, json}
use tenant_cni.Ipam.TenantStore.{
  TenantStore, add, contains_ip, get_ip_by_id, key_of_id, last_ip, load_tenant_data,
  store_tenant_data,
}
use tenant_cni.Ipam.Types.{Bridge, ContainerNetInfo, TenantData}
use tenant_cni.Net.Addr.{Ipv6Text, addr_text}
use tenant_cni.Net.Ip.{Ip, ip_equal, ip_text, parse_ip}

-- The store's file holds the data, and the store can be locked and written.
pub record IsReady (t : TenantData) (s : TenantStore) : Type 0 where
  pub locked : s.mutex ≡ true
  pub filed : s.disk.file ≡ holds (json t)
  pub openable : s.disk.opens ≡ true
  pub writable : s.disk.writes ≡ true

pub load_tenant_data_ready :
    (t : TenantData) (s : TenantStore)
    → IsReady t s
    → load_tenant_data s ≡ (none, record s { value = t })
unfolding load_tenant_data
load_tenant_data_ready t s r = ground arith

module _ (v6 : Ipv6Text) where
  -- The tenant's data with one more address given out.
  abbrev pub with_ip : Ip → ContainerNetInfo → TenantData → TenantData
  with_ip ip info t = record t { ips = insert (ip_text v6 ip) info t.ips; last = ip_text v6 ip }

  -- The store after that, in memory and on disk.
  abbrev pub stored_with : TenantData → TenantStore → TenantStore
  stored_with t s =
      let d = s.disk in record s { value = t; disk = record d { file = holds (json t) } }

  pub assign_ip_ready :
      (ip : Ip) (info : ContainerNetInfo) (t : TenantData) (s : TenantStore)
      → 0 < length ip
      → IsReady t s
      → assign_ip v6 ip info (record s { value = t }) ≡ (none, stored_with (with_ip ip info t) s)
  unfolding assign_ip add store_tenant_data
  assign_ip_ready [] info t s h r = absurd (omega arith)
  assign_ip_ready (b ∷ bs) info t s h r = ground arith

-- The ID has no address yet.
abbrev pub IsUnknown : Text → TenantData → Type 0
IsUnknown id t = key_of_id id t.ips ≡ none

module _ (v6 : Ipv6Text) (next_ip : Ip → Ip) where
  allocate_loaded_found :
      (rounds : ℕ) (gtw last ip : Ip) (info : ContainerNetInfo) (t : TenantData) (s : TenantStore)
      → IsReady t s
      → IsUnknown info.id t
      → last_ip v6 t ≡ last
      → 0 < length last
      → 0 < length ip
      → search_ip v6 next_ip rounds t gtw last last ≡ returns (ok ip)
      → allocate_loaded v6 next_ip rounds gtw info (record s { value = t })
        ≡ returns (ok ip, none, stored_with v6 (with_ip v6 ip info t) s)
  unfolding allocate_loaded get_ip_by_id settle
  allocate_loaded_found rounds gtw last ip info t s r unknown el hl hi found =
      ground (arith, assign_ip_ready v6 ip info t s hi r)

  -- `AllocateIP` for a container that has no address, on a store that can be locked and written and
  -- whose file holds data with a bridge and with a last address that can be read: where the `k`
  -- addresses after that one are taken, each in the subnet and none of them that last one, where the
  -- next after those is in the subnet, is free and has at least one byte, and where more than `k`
  -- rounds are made, the container is given that next one, without an error. It is recorded under the
  -- container's ID and is the last address given out, in memory and on disk, and nothing else of the
  -- data changes.
  pub allocate_ip_first :
      (rounds k : ℕ) (info : ContainerNetInfo) (tim : TenantIpam) (t : TenantData) (b : Bridge)
      (last : Ip)
      → IsReady t tim.tenant_store
      → t.bridge ≡ some b
      → IsUnknown info.id t
      → last_ip v6 t ≡ last
      → 0 < length last
      → k < rounds
      → Busy v6 next_ip t last k last
      → in_subnet v6 next_ip t (next_ip (after v6 next_ip k last)) ≡ true
      → contains_ip v6 (next_ip (after v6 next_ip k last)) t ≡ false
      → 0 < length (next_ip (after v6 next_ip k last))
      → let ip = next_ip (after v6 next_ip k last) in
        allocate_ip v6 next_ip rounds info tim
        ≡ returns (ok ip, none, stored_with v6 (with_ip v6 ip info t) tim.tenant_store)
  unfolding allocate_ip
  allocate_ip_first rounds k info tim t b last r eb unknown el hl enough busy within free hi =
      let found =
        search_ip_first v6 next_ip rounds k t (addr_text v6 b.gateway) last last enough busy within
          free in
      let ip = next_ip (after v6 next_ip k last) in
      ground (
        arith,
        load_tenant_data_ready t tim.tenant_store r,
        allocate_loaded_found rounds (addr_text v6 b.gateway) last ip info t tim.tenant_store r
            unknown el hl hi found,
      )

  -- A container that has an address already is given that one, and nothing is written.
  pub allocate_ip_known :
      (rounds : ℕ) (info : ContainerNetInfo) (tim : TenantIpam) (t : TenantData) (b : Bridge)
      (key : Text)
      → IsReady t tim.tenant_store
      → t.bridge ≡ some b
      → key_of_id info.id t.ips ≡ some key
      → 0 < length (parse_ip v6 key)
      → let s = tim.tenant_store in
        allocate_ip v6 next_ip rounds info tim
        ≡ returns (ok (parse_ip v6 key), none, record s { value = t })
  unfolding allocate_ip get_ip_by_id allocate_loaded settle
  allocate_ip_known rounds info tim t b key r eb known readable =
      ground (arith, load_tenant_data_ready t tim.tenant_store r)

  -- An address that `AllocateIP` returns for a container without one lies in the tenant's subnet and
  -- belonged to no container, whether the data could be stored or not, after any number of rounds.
  pub allocate_ip_sound :
      (rounds : ℕ) (info : ContainerNetInfo) (tim : TenantIpam) (ip : Ip) (failed : Option Error)
      (s : TenantStore)
      → let t = (load_tenant_data tim.tenant_store).1.value in
        IsUnknown info.id t
        → allocate_ip v6 next_ip rounds info tim ≡ returns (ok ip, failed, s)
        → (in_subnet v6 next_ip t ip ≡ true) × (contains_ip v6 ip t ≡ false)
  unfolding allocate_ip get_ip_by_id allocate_loaded settle
  allocate_ip_sound rounds info tim ip failed s unknown h =
      let t = (load_tenant_data tim.tenant_store).1.value in
      elim (Option-cases t.bridge) [
        | inl lost ↦ ground arith
        | inr (b, eb) ↦
            let gtw = addr_text v6 b.gateway in
            let stored = last_ip v6 t in
            ground (
              arith,
              search_ip_sound v6 next_ip rounds t gtw gtw gtw ip,
              search_ip_sound v6 next_ip rounds t gtw stored stored ip,
            )
      ]

  -- Where every address behind the last one is taken up to the end of the subnet, the text of the
  -- gateway is not the last address and `NextIP` of its bytes is in no subnet, `AllocateIP` never
  -- returns, and holds the tenant's lock: no number of rounds is enough.
  pub allocate_ip_runs_on :
      (rounds k : ℕ) (info : ContainerNetInfo) (tim : TenantIpam) (t : TenantData) (b : Bridge)
      (last : Ip)
      → IsReady t tim.tenant_store
      → t.bridge ≡ some b
      → IsUnknown info.id t
      → last_ip v6 t ≡ last
      → 0 < length last
      → Busy v6 next_ip t last k last
      → IsOverflow v6 next_ip t (after v6 next_ip k last)
      → IsOverflow v6 next_ip t (addr_text v6 b.gateway)
      → ip_equal last (addr_text v6 b.gateway) ≡ false
      → allocate_ip v6 next_ip rounds info tim ≡ runs_on
  unfolding allocate_ip get_ip_by_id allocate_loaded settle
  allocate_ip_runs_on rounds k info tim t b last r eb unknown el hl busy over gone ne = ground (
    arith,
    load_tenant_data_ready t tim.tenant_store r,
    search_ip_runs_on v6 next_ip rounds k t (addr_text v6 b.gateway) last last busy over gone ne,
  )
