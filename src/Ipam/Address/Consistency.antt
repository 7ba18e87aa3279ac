-- ===== src/Ipam/Address/Consistency.antt =====
-- The invariant of a tenant's data under `AllocateIP` and `ReleaseIP`, and what `CheckIP` finds.
use mathlib.Core.Path.{subst}
use tenant_cni.Base.{
  Bool-cases, Error, Option, Option-cases, Outcome, Result, Result-cases, Text, [], arith, err,
  false, if◌then◌else◌, inl, inr, length, none, ok, panics, refl, returns, runs_on, some, suc, true,
  zero, ℕ, ◌<◌, ◌==◌, ◌∷◌, ◌≡◌,
}
use tenant_cni.Base.Dict.{Dict, NodupKeys, erase, erase-NodupKeys, insert, insert-NodupKeys, lookup}
use tenant_cni.Ipam.Address.{
  TenantIpam, allocate_ip, allocate_loaded, assign_ip, release_ip, search_ip, settle,
  tenant_next_ip,
}
use tenant_cni.Ipam.Address.Laws.{IsUnknown, with_ip}
use tenant_cni.Ipam.Address.Search.{in_subnet, search_ip_sound, tenant_next_ip-eq_ok}
use tenant_cni.Ipam.Address.Uniqueness.{
  UniqueIds, erase-UniqueIds, insert-UniqueIds, key_of_id-erase,
}
use tenant_cni.Ipam.Tenant.Subnets.{taken}
use tenant_cni.Ipam.TenantStore.{
  TenantStore, add, contains_ip, del, get_ip_by_id, key_of_id, last_ip, load_tenant_data,
  store_tenant_data,
}
use tenant_cni.Ipam.Types.{ContainerNetInfo, TenantData}
use tenant_cni.Net.Addr.{Ipv6Text, addr_text}
use tenant_cni.Net.Ip.{Ip, IpNet, ip_text, net_contains, parse_cidr, parse_ip, to4}
use tenant_cni.Net.RoundTrip.{
  IsBytes, IsIpv4-of_length, length-pos_of_to4, net_contains-length, parse_ip-ip_text-IsIpv4,
}

-- Every address in the map can be read.
abbrev pub AllReadable : Ipv6Text → Dict ContainerNetInfo → Type 0
AllReadable v6 [] = Unit
AllReadable v6 ((key, _) ∷ ips) = (0 < length (parse_ip v6 key)) × AllReadable v6 ips

pub record IsConsistent (v6 : Ipv6Text) (t : TenantData) : Type 0 where
  pub keys_once : NodupKeys t.ips
  pub ids_once : UniqueIds t.ips
  pub readable : AllReadable v6 t.ips

-- The tenant's subnet is one of IPv4 addresses.
pub record IsIpv4Subnet (v6 : Ipv6Text) (t : TenantData) : Type 0 where
  pub address : Ip
  pub net : IpNet
  pub reads : parse_cidr v6 t.tenant_cidr ≡ some (address, net)
  pub four : length net.ip ≡ 4

insert-AllReadable :
    (v6 : Ipv6Text) (key : Text) (info : ContainerNetInfo) (ips : Dict ContainerNetInfo)
    → 0 < length (parse_ip v6 key)
    → AllReadable v6 ips
    → AllReadable v6 (insert key info ips)
unfolding insert
insert-AllReadable v6 key info [] h r = (h, tt)
insert-AllReadable v6 key info ((j, _) ∷ ips) h r =
    ground (arith, insert-AllReadable v6 key info ips h)

erase-AllReadable :
    (v6 : Ipv6Text) (key : Text) (ips : Dict ContainerNetInfo)
    → AllReadable v6 ips
    → AllReadable v6 (erase key ips)
unfolding erase
erase-AllReadable v6 key [] r = tt
erase-AllReadable v6 key ((j, _) ∷ ips) r = ground (arith, erase-AllReadable v6 key ips)

pub key_readable :
    (v6 : Ipv6Text) (id key : Text) (ips : Dict ContainerNetInfo)
    → AllReadable v6 ips
    → key_of_id id ips ≡ some key
    → 0 < length (parse_ip v6 key)
unfolding key_of_id
key_readable v6 id key [] r h = cc
key_readable v6 id key ((j, _) ∷ ips) r h = ground (arith, key_readable v6 id key ips)

-- An IPv4 address that the subnet contains has a text that is read back.
pub in_subnet_readable :
    (v6 : Ipv6Text) (next_ip : Ip → Ip) (t : TenantData) (ip : Ip)
    → IsIpv4Subnet v6 t
    → IsBytes ip
    → in_subnet v6 next_ip t ip ≡ true
    → (length (to4 ip) ≡ 4) × (0 < length (parse_ip v6 (ip_text v6 ip)))
in_subnet_readable v6 next_ip t ip sub bs within =
    let inside : net_contains sub.net ip ≡ true = ground (arith, sub.reads) in
    let four = net_contains-length sub.net ip inside sub.four in
    (four, rw (parse_ip-ip_text-IsIpv4 v6 ip (IsIpv4-of_length ip four bs)) (omega arith))

pub with_ip-IsConsistent :
    (v6 : Ipv6Text) (ip : Ip) (info : ContainerNetInfo) (t : TenantData)
    → IsConsistent v6 t
    → IsUnknown info.id t
    → contains_ip v6 ip t ≡ false
    → 0 < length (parse_ip v6 (ip_text v6 ip))
    → IsConsistent v6 (with_ip v6 ip info t)
unfolding contains_ip
with_ip-IsConsistent v6 ip info t c unknown free readable =
    let fresh : lookup (ip_text v6 ip) t.ips ≡ none = ground arith in
    record {
      keys_once = insert-NodupKeys _ info t.ips c.keys_once;
      ids_once = insert-UniqueIds _ info t.ips fresh unknown c.ids_once;
      readable = insert-AllReadable v6 _ info t.ips readable c.readable;
    }

-- What `AllocateIP` leaves in memory where it finds an address, whether or not it can be stored.
assign_ip_value :
    (v6 : Ipv6Text) (ip : Ip) (info : ContainerNetInfo) (s : TenantStore)
    → 0 < length ip
    → (assign_ip v6 ip info s).1.value ≡ with_ip v6 ip info s.value
unfolding assign_ip add store_tenant_data
assign_ip_value v6 [] info s h = absurd (omega arith)
assign_ip_value v6 (b ∷ bs) info s h = ground arith

module _ (v6 : Ipv6Text) (next_ip : Ip → Ip) (bytes_next : (ip : Ip) → IsBytes (next_ip ip)) where
  pub search_ip-IsBytes :
      (rounds : ℕ) (t : TenantData) (gtw last start ip : Ip)
      → search_ip v6 next_ip rounds t gtw last start ≡ returns (ok ip)
      → IsBytes ip
  unfolding search_ip
  search_ip-IsBytes zero t gtw last start ip h = cc
  search_ip-IsBytes (suc rounds) t gtw last start ip h =
      elim (Result-cases (tenant_next_ip v6 next_ip t start)) [
        | inl (next, e) ↦
            let b : IsBytes next =
              rw ((tenant_next_ip-eq_ok v6 next_ip t start next e).0) (bytes_next start) in
            elim (Bool-cases (contains_ip v6 next t)) [
              | inl taken ↦ search_ip-IsBytes rounds t gtw last next ip (ground arith)
              | inr free ↦ let same : next ≡ ip = ground arith in rw same at b
            ]
        | inr (x, e) ↦ search_ip-IsBytes rounds t gtw last gtw ip (ground arith)
      ]

  found_IsConsistent :
      (info : ContainerNetInfo) (s : TenantStore) (ip : Ip)
      → IsConsistent v6 s.value
      → IsIpv4Subnet v6 s.value
      → IsUnknown info.id s.value
      → IsBytes ip
      → in_subnet v6 next_ip s.value ip ≡ true
      → contains_ip v6 ip s.value ≡ false
      → IsConsistent v6 (assign_ip v6 ip info s).1.value
  found_IsConsistent info s ip c sub unknown bs within free =
      let (four, readable) = in_subnet_readable v6 next_ip s.value ip sub bs within in
      rw (assign_ip_value v6 ip info s (length-pos_of_to4 ip four))
        (with_ip-IsConsistent v6 ip info s.value c unknown free readable)

  settle-IsConsistent :
      (rounds : ℕ) (gtw last : Ip) (info : ContainerNetInfo) (loaded : TenantStore)
      (answer : Result Ip) (failed : Option Error) (s : TenantStore) (o : Outcome (Result Ip))
      → IsConsistent v6 loaded.value
      → IsIpv4Subnet v6 loaded.value
      → IsUnknown info.id loaded.value
      → search_ip v6 next_ip rounds loaded.value gtw last last ≡ o
      → settle v6 info loaded o ≡ returns (answer, failed, s)
      → IsConsistent v6 s.value
  unfolding settle
  settle-IsConsistent rounds gtw last info loaded answer failed s (returns (ok ip)) c sub unknown e
        h =
      let (within, free) = search_ip_sound v6 next_ip rounds loaded.value gtw last last ip e in
      let bs = search_ip-IsBytes rounds loaded.value gtw last last ip e in
      let same : (assign_ip v6 ip info loaded).1 ≡ s = ground arith in
      subst (λ x. IsConsistent v6 x.value) same
        (found_IsConsistent info loaded ip c sub unknown bs within free)
  settle-IsConsistent rounds gtw last info loaded answer failed s (returns (err x)) c sub unknown e
        h =
      let same : loaded ≡ s = ground arith in subst (λ x. IsConsistent v6 x.value) same c
  settle-IsConsistent rounds gtw last info loaded answer failed s panics c sub unknown e h = cc
  settle-IsConsistent rounds gtw last info loaded answer failed s runs_on c sub unknown e h = cc

  allocate_loaded-IsConsistent :
      (rounds : ℕ) (gtw : Ip) (info : ContainerNetInfo) (loaded : TenantStore) (answer : Result Ip)
      (failed : Option Error) (s : TenantStore)
      → IsConsistent v6 loaded.value
      → IsIpv4Subnet v6 loaded.value
      → allocate_loaded v6 next_ip rounds gtw info loaded ≡ returns (answer, failed, s)
      → IsConsistent v6 s.value
  unfolding allocate_loaded get_ip_by_id
  allocate_loaded-IsConsistent rounds gtw info loaded answer failed s c sub h =
      let stored_last = last_ip v6 loaded.value in
      elim (Option-cases (key_of_id info.id loaded.value.ips)) [
        | inr (key, known) ↦
            let same : loaded ≡ s =
              ground (arith, key_readable v6 info.id key loaded.value.ips c.readable known) in
            subst (λ x. IsConsistent v6 x.value) same c
        | inl unknown ↦
            settle-IsConsistent rounds gtw (if length stored_last == 0 then gtw else stored_last)
              info loaded answer failed s _ c sub unknown refl (ground arith)
      ]

  -- On an IPv4 subnet, with a `NextIP` that gives bytes: whatever `AllocateIP` answers, after any
  -- number of rounds and whether or not the data could be read or stored, the data that it leaves in
  -- memory is consistent if the loaded data was.
  pub allocate_ip-IsConsistent :
      (rounds : ℕ) (info : ContainerNetInfo) (tim : TenantIpam) (answer : Result Ip)
      (failed : Option Error) (s : TenantStore)
      → let t = (load_tenant_data tim.tenant_store).1.value in
        IsConsistent v6 t
        → IsIpv4Subnet v6 t
        → allocate_ip v6 next_ip rounds info tim ≡ returns (answer, failed, s)
        → IsConsistent v6 s.value
  unfolding allocate_ip
  allocate_ip-IsConsistent rounds info tim answer failed s c sub h =
      let loaded = (load_tenant_data tim.tenant_store).1 in
      elim (Option-cases loaded.value.bridge) [
        | inl lost ↦ absurd (ground arith)
        | inr (b, eb) ↦
            allocate_loaded-IsConsistent rounds (addr_text v6 b.gateway) info loaded answer failed s
              c sub (ground arith)
      ]

-- The data without one of its entries.
pub erase-IsConsistent :
    (v6 : Ipv6Text) (key : Text) (t : TenantData)
    → IsConsistent v6 t
    → IsConsistent v6 (record t { ips = erase key t.ips })
erase-IsConsistent v6 key t c = record {
  keys_once = erase-NodupKeys key t.ips c.keys_once;
  ids_once = erase-UniqueIds key t.ips c.ids_once;
  readable = erase-AllReadable v6 key t.ips c.readable;
}

-- Where the data has been loaded and is consistent, the data that `ReleaseIP` leaves in memory is
-- consistent and the container is in it no more, whether or not the data could be stored.
pub release_ip-IsConsistent :
    (v6 : Ipv6Text) (id : Text) (tim : TenantIpam) (failed : Option Error) (loaded s : TenantStore)
    → load_tenant_data tim.tenant_store ≡ (none, loaded)
    → IsConsistent v6 loaded.value
    → release_ip id tim ≡ returns (failed, s)
    → IsConsistent v6 s.value × IsUnknown id s.value
unfolding release_ip del store_tenant_data
release_ip-IsConsistent v6 id tim failed loaded s e c h =
    elim (Option-cases (key_of_id id loaded.value.ips)) [
      | inl unknown ↦
          let same : loaded ≡ s = ground arith in
          subst (λ x. IsConsistent v6 x.value × IsUnknown id x.value) same (c, unknown)
      | inr (key, known) ↦
          let ips = loaded.value.ips in
          let less = erase-IsConsistent v6 key loaded.value c in
          let left : erase key ips ≡ s.value.ips = ground arith in
          (
            record {
              keys_once = rw (← left) (IsConsistent.keys_once less);
              ids_once = rw (← left) (IsConsistent.ids_once less);
              readable = rw (← left) (IsConsistent.readable less);
            },
            rw (← left) (key_of_id-erase id key ips c.ids_once c.keys_once known),
          )
    ]
