-- ===== src/Ipam/Address/Exclusive.antt =====
-- Any sequence of calls on the address allocator.
use tenant_cni.Base.{Text, [], arith, refl, ◌≡◌}
use tenant_cni.Ipam.Address.Laws.{IsReady}
use tenant_cni.Ipam.Address.Refinement.{Call, Call-Step, IsAddressOf, IsServing}
use tenant_cni.Ipam.Address.View.{leases}
use tenant_cni.Ipam.Leases.{IsExclusive, Steps, Steps-IsExclusive, none_yet, then_step}
use tenant_cni.Ipam.TenantStore.{TenantStore, key_of_id}
use tenant_cni.Ipam.Types.{TenantData}
use tenant_cni.Net.Addr.{Ipv6Text}
use tenant_cni.Net.Ip.{Ip}
use tenant_cni.Net.RoundTrip.{IsBytes}

module _ (v6 : Ipv6Text) (next_ip : Ip → Ip) where
  pub data Calls (s : TenantStore) : TenantStore → Type 0 where
    no_call : Calls s s
    then_call : (m s' : TenantStore) → Calls s m → Call v6 next_ip m s' → Calls s s'

  module _ (bytes_next : (ip : Ip) → IsBytes (next_ip ip)) where
    Calls-Steps :
        (cidr : Text) (t : TenantData) (s s' : TenantStore)
        → IsServing v6 cidr t s
        → Calls s s'
        → (t' : TenantData) × IsServing v6 cidr t' s'
          × Steps (IsAddressOf v6 cidr) (leases t) (leases t')
    Calls-Steps cidr t s _ g no_call = (t, g, none_yet (leases t) refl)
    Calls-Steps cidr t s s' g (then_call m _ before call) =
        let (u, serving, steps) = Calls-Steps cidr t s m g before in
        let (t', serving', step) = Call-Step v6 next_ip bytes_next cidr u m s' serving call in
        (t', serving', then_step (leases u) (leases t') steps step)

    -- After any sequence of calls of `AllocateIP`, `ReleaseIP` and `CheckIP` that return, on a tenant's
    -- store that is on disk, can be written, is consistent, has an IPv4 subnet and has given out no address,
    -- with a `NextIP` that gives bytes: the store is on disk and can be written, no two containers have one
    -- address, and every address that a container has is one of the tenant's subnet.
    pub Calls-IsExclusive :
        (cidr : Text) (t : TenantData) (s s' : TenantStore)
        → IsServing v6 cidr t s
        → t.ips ≡ []
        → Calls s s'
        → (t' : TenantData) × IsReady t' s' × IsExclusive (IsAddressOf v6 cidr) (leases t')
    unfolding key_of_id
    Calls-IsExclusive cidr t s s' g none_given calls =
        let (t', serving, steps) = Calls-Steps cidr t s s' g calls in
        (
          t',
          serving.ready,
          Steps-IsExclusive steps (record {
            one_holder = λ a b addr p q. absurd (ground (arith, p, none_given));
            allowed = λ a addr p. absurd (ground (arith, p, none_given));
          }),
        )
