-- ===== src/Controller/Subnets.antt =====
-- The node's subnets when a tenant is deleted.
use mathlib.Core.Path.{subst₂}
use tenant_cni.Base.{Text, [], arith, none, refl, some, text_dec, ◌++◌, ◌∷◌, ◌≡◌}
use tenant_cni.Base.Dict.{Dict, NodupKeys, erase, lookup}
use tenant_cni.Controller.Delete.{return_subnets}
use tenant_cni.Ipam.Types.{NodeData}
use tenant_cni.Net.Addr.{Ipv6Text, Prefix, prefix_text}

pub return_subnets_absent :
    (v6 : Ipv6Text) (tenant_name : Text) (tenants : Dict Prefix) (v : NodeData)
    → lookup tenant_name tenants ≡ none
    → return_subnets v6 tenant_name tenants v ≡ v
unfolding return_subnets
return_subnets_absent v6 tenant_name [] v h = refl
return_subnets_absent v6 tenant_name ((other, net) ∷ tenants) v h =
    ground (arith, return_subnets_absent v6 tenant_name tenants v, h)

abbrev pub with_returned : Ipv6Text → Text → Prefix → NodeData → NodeData
with_returned v6 tenant_name network v = record v {
  available_list = v.available_list ++ (prefix_text v6 network ∷ []);
  tenant_list = erase tenant_name v.tenant_list;
}

return_subnets_front :
    (v6 : Ipv6Text) (tenant_name : Text) (tenants : Dict Prefix) (network : Prefix) (v : NodeData)
    → lookup tenant_name tenants ≡ none
    → return_subnets v6 tenant_name ((tenant_name, network) ∷ tenants) v
      ≡ with_returned v6 tenant_name network v
unfolding return_subnets
return_subnets_front v6 tenant_name tenants network v h =
    ground (
      arith,
      return_subnets_absent v6 tenant_name tenants (with_returned v6 tenant_name network v) h,
    )

-- The tenant's entry is found: its subnet goes behind the available ones, and the entry is gone.
pub return_subnets_lem :
    (v6 : Ipv6Text) (tenant_name : Text) (tenants : Dict Prefix) (network : Prefix) (v : NodeData)
    → NodupKeys tenants
    → lookup tenant_name tenants ≡ some network
    → return_subnets v6 tenant_name tenants v ≡ with_returned v6 tenant_name network v
unfolding return_subnets
return_subnets_lem v6 tenant_name [] network v d h = absurd (ground (arith, h))
return_subnets_lem v6 tenant_name ((other, net) ∷ tenants) network v d h =
    elim (text_dec tenant_name other) [
      | yes same ↦
          let e : net ≡ network = ground (arith, h, same) in
          subst₂
            (λ o z.
              return_subnets v6 tenant_name ((o, net) ∷ tenants) v
              ≡ with_returned v6 tenant_name z v)
            same e (return_subnets_front v6 tenant_name tenants net v (rw (same) d.0))
      | no differ ↦
          ground (arith, return_subnets_lem v6 tenant_name tenants network v d.1, h, differ)
    ]
