-- ===== src/Ipam/Address/Door.antt =====
-- The calls on the address allocator write the tenant's file and nothing else of its directory.
use tenant_cni.Base.{
  Bool-cases, Error, Option, Option-cases, Outcome, Result, Text, [], arith, err, if◌then◌else◌,
  inl, inr, length, ltb, ok, panics, refl, returns, runs_on, ℕ, ◌==◌, ◌∙◌, ◌∷◌, ◌≡◌,
}
use tenant_cni.Base.Dict.{erase, insert}
use tenant_cni.Ipam.Address.{
  TenantIpam, allocate_ip, allocate_loaded, assign_ip, check_ip, release_ip, search_ip, settle,
}
use tenant_cni.Ipam.Address.Refinement.{Call, allocated, checked, released}
use tenant_cni.Ipam.Store.{Disk, load_value, store_value, write_file}
use tenant_cni.Ipam.TenantStore.{
  TenantStore, add, del, get_ip_by_id, key_of_id, last_ip, load_tenant_data, store_tenant_data,
}
use tenant_cni.Ipam.Types.{ContainerNetInfo, TenantData}
use tenant_cni.Net.Addr.{Ipv6Text, addr_text}
use tenant_cni.Net.Ip.{Ip, ip_text}

-- The directory's entry and the answer to the lock are the same on both disks.
abbrev pub SameDoor : Disk TenantData → Disk TenantData → Type 0
SameDoor d d' = (d'.entry ≡ d.entry) × (d'.lock_error ≡ d.lock_error)

then_door : (a b c : Disk TenantData) → SameDoor a b → SameDoor b c → SameDoor a c
then_door a b c p q = (q.0 ∙ p.0, q.1 ∙ p.1)

store_door : (s : TenantStore) → SameDoor s.disk (store_tenant_data s).1.disk
unfolding store_tenant_data store_value write_file
store_door s = ground arith

load_door : (s : TenantStore) → SameDoor s.disk (load_tenant_data s).1.disk
unfolding load_tenant_data load_value write_file
load_door s = ground arith

del_door : (id : Text) (s : TenantStore) → SameDoor s.disk (del id s).1.disk
unfolding del
del_door id s = elim (Option-cases (key_of_id id s.value.ips)) [
  | inl unknown ↦ rw (unknown, del) (refl, refl)
  | inr (key, known) ↦
      rw (known, del)
        (store_door (record s { value = record (s.value) { ips = erase key s.value.ips } }))
]

module _ (v6 : Ipv6Text) (next_ip : Ip → Ip) where
  add_door :
      (ip : Ip) (info : ContainerNetInfo) (s : TenantStore)
      → SameDoor s.disk (add v6 ip info s).1.disk
  unfolding add
  add_door [] info s = (refl, refl)
  add_door (b ∷ bs) info s =
      let v = s.value in
      store_door (record s { value = record v { ips = insert (ip_text v6 (b ∷ bs)) info v.ips } })

  assign_door :
      (ip : Ip) (info : ContainerNetInfo) (s : TenantStore)
      → SameDoor s.disk (assign_ip v6 ip info s).1.disk
  unfolding assign_ip
  assign_door ip info s =
      let added = (add v6 ip info s).1 in
      let v = added.value in
      let given = record added { value = record v { last = ip_text v6 ip } } in
      then_door s.disk added.disk (store_tenant_data given).1.disk (add_door ip info s)
        (store_door given)

  settle_door :
      (info : ContainerNetInfo) (s : TenantStore) (o : Outcome (Result Ip)) (answer : Result Ip)
      (failed : Option Error) (s' : TenantStore)
      → settle v6 info s o ≡ returns (answer, failed, s')
      → SameDoor s.disk s'.disk
  unfolding settle
  settle_door info s (returns (ok next)) answer failed s' h =
      ground (arith, assign_door next info s)
  settle_door info s (returns (err e)) answer failed s' h = ground arith
  settle_door info s panics answer failed s' h = cc
  settle_door info s runs_on answer failed s' h = cc

  allocate_loaded_door :
      (rounds : ℕ) (gtw : Ip) (info : ContainerNetInfo) (s : TenantStore) (answer : Result Ip)
      (failed : Option Error) (s' : TenantStore)
      → allocate_loaded v6 next_ip rounds gtw info s ≡ returns (answer, failed, s')
      → SameDoor s.disk s'.disk
  unfolding allocate_loaded
  allocate_loaded_door rounds gtw info s answer failed s' h =
      let stored_last = last_ip v6 s.value in
      let last = if length stored_last == 0 then gtw else stored_last in
      let o = search_ip v6 next_ip rounds s.value gtw last last in
      elim (Bool-cases (ltb 0 (length (get_ip_by_id v6 info.id s.value).0))) [
        | inl known ↦ ground (arith, known)
        | inr unknown ↦ settle_door info s o answer failed s' (ground (arith, unknown))
      ]

  allocate_door :
      (rounds : ℕ) (info : ContainerNetInfo) (tim : TenantIpam) (answer : Result Ip)
      (failed : Option Error) (s' : TenantStore)
      → allocate_ip v6 next_ip rounds info tim ≡ returns (answer, failed, s')
      → SameDoor tim.tenant_store.disk s'.disk
  unfolding allocate_ip
  allocate_door rounds info tim answer failed s' h =
      let s = tim.tenant_store in
      let loaded = (load_tenant_data s).1 in
      elim (Option-cases loaded.value.bridge) [
        | inl lost ↦ absurd (ground arith)
        | inr (b, eb) ↦ then_door s.disk loaded.disk s'.disk (load_door s) (
            allocate_loaded_door rounds (addr_text v6 b.gateway) info loaded answer failed s'
              (ground arith))
      ]

  pub Call-SameDoor : (s s' : TenantStore) → Call v6 next_ip s s' → SameDoor s.disk s'.disk
  unfolding release_ip check_ip
  Call-SameDoor s s' (allocated rounds info name answer failed _ h) =
      allocate_door rounds info (record { tenant_name = name; tenant_store = s }) answer failed s' h
  Call-SameDoor s s' (released id name failed _ h) =
      let loaded = (load_tenant_data s).1 in ground (arith, load_door s, del_door id loaded, h)
  Call-SameDoor s s' (checked id name answer _ h) = ground (arith, load_door s, h)
