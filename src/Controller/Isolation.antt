-- ===== src/Controller/Isolation.antt =====
-- The firewall's part of `addTenant`: the new tenant against each other tenant of the node.
use mathlib.Core.Path.{subst}
use tenant_cni.Base.{
  Bool, Bool-cases, List, Result, Text, [], arith, inl, inr, not, ok, refl, returns, some, text_dec,
  text_eq, true, ℕ, ◌&&◌, ◌∷◌, ◌≡◌, ◌≢◌,
}
use tenant_cni.Base.Dict.{Dict, lookup}
use tenant_cni.Controller.Add.{block_others, separate}
use tenant_cni.Controller.Events.{Client, default_tenant}
use tenant_cni.Host.{Cmd, ignore, ◌>>◌}
use tenant_cni.Host.Iptables.{Iptables, Rule, drop_packet}
use tenant_cni.Host.Laws.{bind_ok, ignore_bind, ignore_state}
use tenant_cni.Host.Netlink.{Netlink}
use tenant_cni.K8s.{Environment}
use tenant_cni.Net.Addr.{Addr, Ipv6Text, Prefix, prefix_text}
use tenant_cni.Routing.Rules.{
  allow_forwarding_tenant, block_rule, block_tenant_to_tenant_traffic, forward_from, forward_to,
}
use tenant_cni.Routing.Rules.Isolation.{DropsFirst, Has, IsFirewall, verdict, verdict-drop}
use tenant_cni.Routing.Rules.Tenants.{
  Has-block_tenant_to_tenant_traffic, Keeps, Keeps-refl, KeepsChain,
  KeepsChain-allow_forwarding_tenant, KeepsChain-block_tenant_to_tenant_traffic, KeepsChain-then,
}

-- Every call of the package succeeds.
pub record Succeeds {W : Type 0} (t : Iptables W) : Type 0 where
  pub opens : (w : W) → (t.new_iptables w).0 ≡ returns (ok tt)
  pub appends : (r : Rule) (w : W) → (t.append_unique r w).0 ≡ returns (ok tt)
  pub inserts : (r : Rule) (w : W) → (t.insert_unique 1 r w).0 ≡ returns (ok tt)

module _ {W : Type 0} (t : Iptables W) (good : Succeeds t) where
  block_succeeds :
      (one other : Text) (w : W)
      → (block_tenant_to_tenant_traffic t one other w).0 ≡ returns (ok tt)
  unfolding block_tenant_to_tenant_traffic
  block_succeeds one other w =
      let first = t.insert_unique 1 (block_rule one other) in
      let second = t.insert_unique 1 (block_rule other one) in
      let w1 = (t.new_iptables w).1 in
      rw
        (
          bind_ok t.new_iptables (λ _. first >> second) w tt (good.opens w),
          bind_ok first (λ _. second) w1 tt (good.inserts (block_rule one other) w1),
        )
        (good.inserts (block_rule other one) (first w1).1)

  allow_succeeds : (cidr : Text) (w : W) → (allow_forwarding_tenant t cidr w).0 ≡ returns (ok tt)
  unfolding allow_forwarding_tenant
  allow_succeeds cidr w =
      let first = t.append_unique (forward_from cidr) in
      let second = t.append_unique (forward_to cidr) in
      let w1 = (t.new_iptables w).1 in
      rw
        (
          bind_ok t.new_iptables (λ _. first >> second) w tt (good.opens w),
          bind_ok first (λ _. second) w1 tt (good.appends (forward_from cidr) w1),
        )
        (good.appends (forward_to cidr) (first w1).1)

module _ {W : Type 0} (c : Client W) (n : Netlink W) (t : Iptables W) (env : Environment)
    (v6 : Ipv6Text) (parse_mac : Text → Result (List ℕ)) (rules : W → List Rule)
    (law : IsFirewall t rules) where
  KeepsChain-ignore :
      (m : Cmd W (Unit {0})) → KeepsChain t rules law m → KeepsChain t rules law (ignore m)
  KeepsChain-ignore m h w = rw (ignore_state m w) (h w)

  abbrev blocks : Text → Prefix → Cmd W (Unit {0})
  blocks cidr network = ignore (block_tenant_to_tenant_traffic t cidr (prefix_text v6 network))

  KeepsChain-blocks :
      (cidr : Text) (network : Prefix) → KeepsChain t rules law (blocks cidr network)
  KeepsChain-blocks cidr network =
      KeepsChain-ignore (block_tenant_to_tenant_traffic t cidr (prefix_text v6 network))
        (KeepsChain-block_tenant_to_tenant_traffic t rules law cidr (prefix_text v6 network))

  abbrev is_separate : Text → Text → Bool
  is_separate tenant_name other =
      not (text_eq other tenant_name) && not (text_eq other default_tenant)

  KeepsChain-block_others :
      (tenant_name cidr : Text) (tenants : Dict Prefix)
      → KeepsChain t rules law (block_others c n t env v6 parse_mac tenant_name cidr tenants)
  unfolding block_others
  KeepsChain-block_others tenant_name cidr [] w = Keeps-refl refl
  KeepsChain-block_others tenant_name cidr ((other, network) ∷ rest) w =
      let later = block_others c n t env v6 parse_mac tenant_name cidr rest in
      let h = KeepsChain-block_others tenant_name cidr rest in
      elim (Bool-cases (is_separate tenant_name other)) [
        | inl tested ↦ rw (tested) (
            KeepsChain-then t rules law (blocks cidr network) later (KeepsChain-blocks cidr network)
              h w)
        | inr untested ↦ rw (untested) (h w)
      ]

  -- Both rules of a block.
  abbrev IsBlocked : Text → Text → W → Type 0
  IsBlocked one other w =
      Has (block_rule one other) (rules w) × Has (block_rule other one) (rules w)

  module _ (good : Succeeds t) where
    blocks_then :
        (cidr : Text) (network : Prefix) (k : Cmd W (Unit {0})) (w : W)
        → (blocks cidr network >> k) w
          ≡ k (block_tenant_to_tenant_traffic t cidr (prefix_text v6 network) w).1
    blocks_then cidr network k w =
        ignore_bind (block_tenant_to_tenant_traffic t cidr (prefix_text v6 network)) k w (ok tt)
          (block_succeeds t good cidr (prefix_text v6 network) w)

    block_others-IsBlocked :
        (tenant_name cidr other : Text) (network : Prefix) (tenants : Dict Prefix) (w : W)
        → lookup other tenants ≡ some network
        → is_separate tenant_name other ≡ true
        → IsBlocked cidr
            (prefix_text v6 network)
            (block_others c n t env v6 parse_mac tenant_name cidr tenants w).1
    unfolding block_others
    block_others-IsBlocked tenant_name cidr other network [] w found apart = absurd (ground arith)
    block_others-IsBlocked tenant_name cidr other network ((key, entry) ∷ rest) w found apart =
        let later = block_others c n t env v6 parse_mac tenant_name cidr rest in
        elim (text_dec other key) [
          | yes same ↦
              let tested : is_separate tenant_name key ≡ true =
                subst (λ x. is_separate tenant_name x ≡ true) same apart in
              let entered : entry ≡ network = ground (arith, same, found) in
              let blocked : W =
                (block_tenant_to_tenant_traffic t cidr (prefix_text v6 entry) w).1 in
              let (there, back) =
                Has-block_tenant_to_tenant_traffic t rules law cidr (prefix_text v6 entry) w
                  (block_succeeds t good cidr (prefix_text v6 entry) w) in
              let kept = KeepsChain-block_others tenant_name cidr rest blocked in
              subst
                (λ x.
                  IsBlocked cidr (prefix_text v6 x)
                    (block_others c n t env v6 parse_mac tenant_name cidr ((key, entry) ∷ rest)
                      w).1)
                entered
                (rw (tested, blocks_then cidr entry later w)
                  (
                    kept.still (block_rule cidr (prefix_text v6 entry)) there,
                    kept.still (block_rule (prefix_text v6 entry) cidr) back,
                  ))
          | no different ↦
              let found_later : lookup other rest ≡ some network =
                ground (arith, different, found) in
              elim (Bool-cases (is_separate tenant_name key)) [
                | inl tested ↦
                    rw (tested, blocks_then cidr entry later w)
                      (block_others-IsBlocked tenant_name cidr other network rest
                        (block_tenant_to_tenant_traffic t cidr (prefix_text v6 entry) w).1
                        found_later apart)
                | inr untested ↦
                    rw (untested) (
                      block_others-IsBlocked tenant_name cidr other network rest w found_later
                        apart)
              ]
        ]

    -- On a chain in which no rule that accepts stands in front of one that drops, with a package that
    -- changes the chain as documented and whose calls succeed: once the firewall's part of `addTenant` has
    -- run for a new tenant, every packet between its subnet and that of any other tenant of the node but the
    -- default one is dropped, in both directions and on every interface.
    pub separate_isolates :
        (within : Text → Addr → Bool) (tenant_name cidr other : Text) (network : Prefix)
        (tenants : Dict Prefix) (w : W)
        → DropsFirst (rules w)
        → lookup other tenants ≡ some network
        → other ≢ tenant_name
        → other ≢ default_tenant
        → (interface : Text) (a b : Addr) → within cidr a ≡ true
        → within (prefix_text v6 network) b ≡ true
        → (verdict within
              (rules (separate c n t env v6 parse_mac tenant_name cidr tenants w).1)
              (record { interface = interface; from = a; to = b })
            ≡ some drop_packet)
          × (verdict within
                (rules (separate c n t env v6 parse_mac tenant_name cidr tenants w).1)
                (record { interface = interface; from = b; to = a })
              ≡ some drop_packet)
    unfolding separate
    separate_isolates within tenant_name cidr other network tenants w d found new plain interface a
          b a_in b_in =
        let forward = allow_forwarding_tenant t cidr in
        let w1 : W = (forward w).1 in
        let loop = block_others c n t env v6 parse_mac tenant_name cidr tenants in
        let apart : is_separate tenant_name other ≡ true = ground (arith, new, plain) in
        let (there, back) =
          block_others-IsBlocked tenant_name cidr other network tenants w1 found apart in
        let shape1 : DropsFirst (rules w1) =
          Keeps.in_front (KeepsChain-allow_forwarding_tenant t rules law cidr w) d in
        let shape : DropsFirst (rules (loop w1).1) =
          Keeps.in_front (KeepsChain-block_others tenant_name cidr tenants w1) shape1 in
        rw (ignore_bind forward loop w (ok tt) (allow_succeeds t good cidr w)) (
          verdict-drop within (rules (loop w1).1) (block_rule cidr (prefix_text v6 network))
              (record { interface = interface; from = a; to = b }) shape there refl
              (ground (arith, a_in, b_in)),
          verdict-drop within (rules (loop w1).1) (block_rule (prefix_text v6 network) cidr)
              (record { interface = interface; from = b; to = a }) shape back refl
              (ground (arith, a_in, b_in)),
        )
