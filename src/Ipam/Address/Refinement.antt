-- ===== src/Ipam/Address/Refinement.antt =====
-- The address allocator implements a pool of leases: each call of `AllocateIP`, `ReleaseIP` and `CheckIP`
-- is one step of the pool.
use mathlib.Core.Path.{subst}
use tenant_cni.Base.{
  Error, Option, Option-cases, Result, Text, arith, err, false, inl, inr, none, ok, refl, returns,
  some, sym, true, ℕ, ◌≡◌, ◌≢◌,
}
use tenant_cni.Base.Dict.{erase, lookup}
use tenant_cni.Ipam.Address.{TenantIpam, allocate_ip, check_ip, release_ip}
use tenant_cni.Ipam.Address.Consistency.{
  IsConsistent, IsIpv4Subnet, erase-IsConsistent, in_subnet_readable, key_readable,
  with_ip-IsConsistent,
}
use tenant_cni.Ipam.Address.Laws.{IsReady, IsUnknown, load_tenant_data_ready, stored_with, with_ip}
use tenant_cni.Ipam.Address.Search.{in_subnet}
use tenant_cni.Ipam.Address.Session.{allocate_ip_found}
use tenant_cni.Ipam.Address.Unchanged.{allocate_ip_again, allocate_ip_failed}
use tenant_cni.Ipam.Address.View.{IsFree-leases, leases, leases-erase, leases-with_ip}
use tenant_cni.Ipam.Leases.{Leases, Step, grant_keeps, granted, kept, revoke_keeps, revoked}
use tenant_cni.Ipam.TenantStore.{
  TenantStore, contains_ip, del, get_ip_by_id, key_of_id, store_tenant_data,
}
use tenant_cni.Ipam.Types.{ContainerNetInfo, TenantData}
use tenant_cni.Net.Addr.{Ipv6Text}
use tenant_cni.Net.Ip.{Ip, IpNet, ip_text, net_contains, parse_cidr}
use tenant_cni.Net.RoundTrip.{IsBytes}

-- The store is on disk with the data, which is consistent and has an IPv4 subnet of the given text.
pub record IsServing (v6 : Ipv6Text) (cidr : Text) (t : TenantData) (s : TenantStore) : Type 0 where
  pub ready : IsReady t s
  pub consistent : IsConsistent v6 t
  pub subnet : IsIpv4Subnet v6 t
  pub same_cidr : t.tenant_cidr ≡ cidr

-- The text of an address of the subnet.
abbrev pub IsAddressOf : Ipv6Text → Text → Text → Type 0
IsAddressOf v6 cidr addr =
    (ip : Ip) × (address : Ip) × (net : IpNet) × (parse_cidr v6 cidr ≡ some (address, net))
    × (net_contains net ip ≡ true)
    × (ip_text v6 ip ≡ addr)

module _ (v6 : Ipv6Text) (next_ip : Ip → Ip) where
  -- One call on the store, and the store that it leaves. The calls end as they do: with an answer, or
  -- with an error.
  pub data Call (s : TenantStore) : TenantStore → Type 0 where
    allocated :
        (rounds : ℕ) (info : ContainerNetInfo) (name : Text) (answer : Result Ip)
        (failed : Option Error) (s' : TenantStore)
        → allocate_ip v6 next_ip rounds info (record { tenant_name = name; tenant_store = s })
          ≡ returns (answer, failed, s')
        → Call s s'
    released :
        (id name : Text) (failed : Option Error) (s' : TenantStore)
        → release_ip id (record { tenant_name = name; tenant_store = s }) ≡ returns (failed, s')
        → Call s s'
    checked :
        (id name : Text) (answer : Result Ip) (s' : TenantStore)
        → check_ip v6 id (record { tenant_name = name; tenant_store = s }) ≡ returns (answer, s')
        → Call s s'

  -- The call takes no address back from the container.
  unfoldable pub IsSparedBy : {s s' : TenantStore} → Text → Call s s' → Type 0
  IsSparedBy holder (allocated rounds info name answer failed s' h) = Unit {0}
  IsSparedBy holder (released id name failed s' h) = holder ≢ id
  IsSparedBy holder (checked id name answer s' h) = Unit {0}

  -- The containers that are spared keep their addresses.
  abbrev pub KeepsLeases : (Text → Type 0) → Leases → Leases → Type 0
  KeepsLeases Spared l l' =
      (holder addr : Text) → Spared holder → l holder ≡ some addr → l' holder ≡ some addr

  module _ (bytes_next : (ip : Ip) → IsBytes (next_ip ip)) where
    -- The store after a call, which serves, is one step of the pool away and keeps the others' leases.
    abbrev IsStepTo : (Text → Type 0) → Text → TenantData → TenantStore → Type 0
    IsStepTo Spared cidr t s' =
        (t' : TenantData) × IsServing v6 cidr t' s'
        × Step (IsAddressOf v6 cidr) (leases t) (leases t')
        × KeepsLeases Spared (leases t) (leases t')

    -- The store as it was loaded takes no step.
    kept_store :
        (Spared : Text → Type 0) (cidr : Text) (t : TenantData) (s s' : TenantStore)
        → IsServing v6 cidr t s
        → s' ≡ record s { value = t }
        → IsStepTo Spared cidr t s'
    kept_store Spared cidr t s s' g same = (
      t,
      record {
        ready = let r = g.ready in ground (arith, same);
        consistent = g.consistent;
        subnet = g.subnet;
        same_cidr = g.same_cidr;
      },
      kept (leases t) refl,
      λ holder addr _ h. h,
    )

    -- One step of the pool for a call that gives out an address.
    granted_store :
        (cidr : Text) (info : ContainerNetInfo) (tim : TenantIpam) (t : TenantData) (ip : Ip)
        → IsServing v6 cidr t tim.tenant_store
        → IsUnknown info.id t
        → in_subnet v6 next_ip t ip ≡ true
        → contains_ip v6 ip t ≡ false
        → IsConsistent v6 (with_ip v6 ip info t)
        → IsServing v6 cidr
            (with_ip v6 ip info t)
            (stored_with v6 (with_ip v6 ip info t) tim.tenant_store)
          × Step (IsAddressOf v6 cidr) (leases t) (leases (with_ip v6 ip info t))
          × KeepsLeases (λ _. Unit {0}) (leases t) (leases (with_ip v6 ip info t))
    unfolding contains_ip
    granted_store cidr info tim t ip g unknown within free c =
        let fresh : lookup (ip_text v6 ip) t.ips ≡ none = ground (arith, free) in
        let sub = g.subnet in
        let inside : net_contains sub.net ip ≡ true = ground (arith, sub.reads, within) in
        (
          record {
            ready =
                let r = g.ready in
                record {
                  locked = r.locked;
                  filed = refl;
                  openable = r.openable;
                  writable = r.writable;
                };
            consistent = c;
            subnet = record {
              address = sub.address;
              net = sub.net;
              reads = sub.reads;
              four = sub.four;
            };
            same_cidr = g.same_cidr;
          },
          granted info.id (ip_text v6 ip) (leases (with_ip v6 ip info t)) unknown
              (IsFree-leases (ip_text v6 ip) t fresh)
              (ip, sub.address, sub.net, rw (← g.same_cidr) sub.reads, inside, refl)
              (leases-with_ip v6 ip info t fresh unknown),
          λ holder addr _ h.
              subst (λ f. f holder ≡ some addr) (sym (leases-with_ip v6 ip info t fresh unknown))
                (grant_keeps info.id (ip_text v6 ip) (leases t) holder addr unknown h),
        )

    allocated_Step :
        (cidr : Text) (rounds : ℕ) (info : ContainerNetInfo) (tim : TenantIpam) (t : TenantData)
        (answer : Result Ip) (failed : Option Error) (s' : TenantStore)
        → IsServing v6 cidr t tim.tenant_store
        → allocate_ip v6 next_ip rounds info tim ≡ returns (answer, failed, s')
        → IsStepTo (λ _. Unit {0}) cidr t s'
    allocated_Step cidr rounds info tim t answer failed s' g h =
        elim (Option-cases (key_of_id info.id t.ips)) [
          | inr (key, known) ↦
              kept_store (λ _. Unit {0}) cidr t tim.tenant_store s' g
                (allocate_ip_again v6 next_ip rounds info tim t key answer failed s' g.ready known
                  (key_readable v6 info.id key t.ips (IsConsistent.readable g.consistent) known) h)
          | inl unknown ↦ new_container answer unknown h
        ]
      where
        new_container :
            (answer : Result Ip)
            → IsUnknown info.id t
            → allocate_ip v6 next_ip rounds info tim ≡ returns (answer, failed, s')
            → IsStepTo (λ _. Unit {0}) cidr t s'
        new_container (err e) unknown h =
            kept_store (λ _. Unit {0}) cidr t tim.tenant_store s' g
              (allocate_ip_failed v6 next_ip rounds info tim t e failed s' g.ready unknown h)
        new_container (ok ip) unknown h =
            let (_, left, within, free, _, bs) =
              allocate_ip_found v6 next_ip bytes_next rounds info tim t ip failed s' g.ready
                g.subnet unknown h in
            let c =
              with_ip-IsConsistent v6 ip info t g.consistent unknown free
                (in_subnet_readable v6 next_ip t ip g.subnet bs within).1 in
            let (serving, step, keeps) = granted_store cidr info tim t ip g unknown within free c in
            rw left (with_ip v6 ip info t, serving, step, keeps)

    released_Step :
        (cidr : Text) (id : Text) (tim : TenantIpam) (t : TenantData) (failed : Option Error)
        (s' : TenantStore)
        → IsServing v6 cidr t tim.tenant_store
        → release_ip id tim ≡ returns (failed, s')
        → IsStepTo (λ holder. holder ≢ id) cidr t s'
    unfolding release_ip del store_tenant_data
    released_Step cidr id tim t failed s' g h =
        let loaded = load_tenant_data_ready t tim.tenant_store g.ready in
        let start = tim.tenant_store in
        let r = g.ready in
        elim (Option-cases (key_of_id id t.ips)) [
          | inl unknown ↦
              kept_store (λ holder. holder ≢ id) cidr t start s' g
                (ground (arith, loaded, unknown, h))
          | inr (key, known) ↦
              let t' = record t { ips = erase key t.ips } in
              let left : s' ≡ stored_with v6 t' start = ground (arith, loaded, known, h) in
              (
                t',
                record {
                  ready = ground (arith, left);
                  consistent = erase-IsConsistent v6 key t g.consistent;
                  subnet =
                      let sub = g.subnet in
                      record {
                        address = sub.address;
                        net = sub.net;
                        reads = sub.reads;
                        four = sub.four;
                      };
                  same_cidr = g.same_cidr;
                },
                revoked id (leases t') (
                    leases-erase id key t (IsConsistent.keys_once g.consistent)
                      (IsConsistent.ids_once g.consistent) known),
                λ holder addr apart h2.
                    subst (λ f. f holder ≡ some addr)
                      (sym (
                        leases-erase id key t (IsConsistent.keys_once g.consistent)
                          (IsConsistent.ids_once g.consistent) known))
                      (revoke_keeps id (leases t) holder addr apart h2),
              )
        ]

    -- The step of a call, and the leases that it keeps.
    pub Call-StepTo :
        (cidr : Text) (t : TenantData) (s s' : TenantStore)
        → IsServing v6 cidr t s
        → (call : Call s s')
        → (t' : TenantData) × IsServing v6 cidr t' s'
          × Step (IsAddressOf v6 cidr) (leases t) (leases t')
          × KeepsLeases (λ holder. IsSparedBy holder call) (leases t) (leases t')
    unfolding check_ip get_ip_by_id IsSparedBy
    Call-StepTo cidr t s s' g (allocated rounds info name answer failed _ h) =
        allocated_Step cidr rounds info (record { tenant_name = name; tenant_store = s }) t answer
          failed s' g h
    Call-StepTo cidr t s s' g (released id name failed _ h) =
        released_Step cidr id (record { tenant_name = name; tenant_store = s }) t failed s' g h
    Call-StepTo cidr t s s' g (checked id name answer _ h) =
        let loaded = load_tenant_data_ready t s g.ready in
        let r = g.ready in kept_store (λ _. Unit {0}) cidr t s s' g (ground (arith, loaded, h))

    -- Each call of `AllocateIP`, `ReleaseIP` or `CheckIP` that returns, with an answer or with an error,
    -- on a tenant's store that is on disk, can be written, is consistent and has an IPv4 subnet, with a
    -- `NextIP` that gives bytes, is one step of a pool of leases, and leaves such a store with the same
    -- subnet: a free address of the subnet is granted to a container that had none, a container's address
    -- is taken back, or the leases stay as they are.
    pub Call-Step :
        (cidr : Text) (t : TenantData) (s s' : TenantStore)
        → IsServing v6 cidr t s
        → Call s s'
        → (t' : TenantData) × IsServing v6 cidr t' s'
          × Step (IsAddressOf v6 cidr) (leases t) (leases t')
    Call-Step cidr t s s' g call =
        let (t', serving, step, _) = Call-StepTo cidr t s s' g call in (t', serving, step)
