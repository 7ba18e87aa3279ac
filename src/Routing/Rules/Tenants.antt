-- ===== src/Routing/Rules/Tenants.antt =====
-- The calls of pkg/network/routing/iptables.go on a chain, and what stays blocked after them.
use mathlib.Core.Path.{subst}
use tenant_cni.Base.{
  Bool, Bool-cases, List, Text, [], arith, inl, inr, ok, refl, returns, some, sym, true, ◌++◌, ◌∷◌,
  ◌≡◌,
}
use tenant_cni.Host.{Cmd, ◌>>◌}
use tenant_cni.Host.Iptables.{Iptables, Rule, accept, drop_packet}
use tenant_cni.Host.Laws.{bind_cases, bind_ok, done_or_not, ok_of_bind}
use tenant_cni.Net.Addr.{Addr}
use tenant_cni.Routing.Rules.{
  allow_bridge_forward, allow_forwarding_tenant, block_rule, block_tenant_to_tenant_traffic,
  forward_bridge, forward_from, forward_to,
}
use tenant_cni.Routing.Rules.Isolation.{
  DropsFirst, DropsFirst-append, Has, IsFirewall, append_new, has, insert_new, rule_dec, verdict,
  verdict-drop,
}

Has-append_left : (r x : Rule) (rules : List Rule) → Has r rules → Has r (rules ++ (x ∷ []))
Has-append_left r x [] h = elim h [ ]
Has-append_left r x (y ∷ rules) (inl e) = inl e
Has-append_left r x (y ∷ rules) (inr h) = inr (Has-append_left r x rules h)

Has-of_has : (r : Rule) (rules : List Rule) → has r rules ≡ true → Has r rules
Has-of_has r [] h = absurd (ground arith)
Has-of_has r (x ∷ rules) h = elim (rule_dec r x) [
  | yes same ↦ inl same
  | no other ↦ inr (Has-of_has r rules (ground (arith, other, h)))
]

Has-insert_new_self : (r : Rule) (rules : List Rule) → Has r (insert_new r rules)
Has-insert_new_self r rules = elim (Bool-cases (has r rules)) [
  | inl there ↦ rw (there) (Has-of_has r rules there)
  | inr new ↦ rw (new) (inl refl)
]

Has-insert_new : (r x : Rule) (rules : List Rule) → Has r rules → Has r (insert_new x rules)
Has-insert_new r x rules h = elim (Bool-cases (has x rules)) [
  | inl there ↦ rw (there) h
  | inr new ↦ rw (new) (inr h)
]

Has-append_new : (r x : Rule) (rules : List Rule) → Has r rules → Has r (append_new x rules)
Has-append_new r x rules h = elim (Bool-cases (has x rules)) [
  | inl there ↦ rw (there) h
  | inr new ↦ rw (new) (Has-append_left r x rules h)
]

DropsFirst-insert_new :
    (r : Rule) (rules : List Rule)
    → r.target ≡ drop_packet
    → DropsFirst rules
    → DropsFirst (insert_new r rules)
DropsFirst-insert_new r rules e d = elim (Bool-cases (has r rules)) [
  | inl there ↦ rw (there) d
  | inr new ↦ rw (new) (inr (e, d))
]

DropsFirst-append_new :
    (r : Rule) (rules : List Rule)
    → r.target ≡ accept
    → DropsFirst rules
    → DropsFirst (append_new r rules)
DropsFirst-append_new r rules e d = elim (Bool-cases (has r rules)) [
  | inl there ↦ rw (there) d
  | inr new ↦ rw (new) (DropsFirst-append rules r d e)
]

-- What a call leaves of a chain: the rules that drop are in front, and no rule is gone.
pub record Keeps (before after : List Rule) : Type 0 where
  pub in_front : DropsFirst before → DropsFirst after
  pub still : (r : Rule) → Has r before → Has r after

pub Keeps-refl : {a b : List Rule} → b ≡ a → Keeps a b
Keeps-refl e = record {
  in_front = λ d. subst DropsFirst (sym e) d;
  still = λ r h. subst (Has r) (sym e) h;
}

Keeps-trans : {x y z : List Rule} → Keeps x y → Keeps y z → Keeps x z
Keeps-trans a b = record {
  in_front = λ d. b.in_front (a.in_front d);
  still = λ r h. b.still r (a.still r h);
}

module _ {W : Type 0} (t : Iptables W) (rules : W → List Rule) (law : IsFirewall t rules) where
  -- A command that keeps the chain, however it ends.
  abbrev pub KeepsChain : Cmd W (Unit {0}) → Type 0
  KeepsChain m = (w : W) → Keeps (rules w) (rules (m w).1)

  KeepsChain-new : KeepsChain t.new_iptables
  KeepsChain-new w = Keeps-refl (law.new_keeps w)

  KeepsChain-insert : (r : Rule) → r.target ≡ drop_packet → KeepsChain (t.insert_unique 1 r)
  KeepsChain-insert r e w = elim (done_or_not (t.insert_unique 1 r w).0) [
    | inl done ↦ rw (law.inserts r w done) (record {
      in_front = DropsFirst-insert_new r (rules w) e;
      still = λ q. Has-insert_new q r (rules w);
    })
    | inr bad ↦ Keeps-refl (law.insert_fails r w bad)
  ]

  KeepsChain-append : (r : Rule) → r.target ≡ accept → KeepsChain (t.append_unique r)
  KeepsChain-append r e w = elim (done_or_not (t.append_unique r w).0) [
    | inl done ↦ rw (law.appends r w done) (record {
      in_front = DropsFirst-append_new r (rules w) e;
      still = λ q. Has-append_new q r (rules w);
    })
    | inr bad ↦ Keeps-refl (law.append_fails r w bad)
  ]

  pub KeepsChain-then : (m k : Cmd W (Unit {0})) → KeepsChain m → KeepsChain k → KeepsChain (m >> k)
  KeepsChain-then m k hm hk w = elim (bind_cases m (λ _. k) w) [
    | inl (tt, same) ↦ rw (same) (Keeps-trans (hm w) (hk (m w).1))
    | inr same ↦ rw (same) (hm w)
  ]

  KeepsChain-allow_bridge_forward : (bridge : Text) → KeepsChain (allow_bridge_forward t bridge)
  unfolding allow_bridge_forward
  KeepsChain-allow_bridge_forward bridge =
      KeepsChain-then t.new_iptables (t.append_unique (forward_bridge bridge)) KeepsChain-new
        (KeepsChain-append (forward_bridge bridge) refl)

  pub KeepsChain-allow_forwarding_tenant :
      (cidr : Text) → KeepsChain (allow_forwarding_tenant t cidr)
  unfolding allow_forwarding_tenant
  KeepsChain-allow_forwarding_tenant cidr =
      KeepsChain-then t.new_iptables
        (t.append_unique (forward_from cidr) >> t.append_unique (forward_to cidr)) KeepsChain-new
        (KeepsChain-then (t.append_unique (forward_from cidr)) (t.append_unique (forward_to cidr))
          (KeepsChain-append (forward_from cidr) refl) (KeepsChain-append (forward_to cidr) refl))

  pub KeepsChain-block_tenant_to_tenant_traffic :
      (one other : Text) → KeepsChain (block_tenant_to_tenant_traffic t one other)
  unfolding block_tenant_to_tenant_traffic
  KeepsChain-block_tenant_to_tenant_traffic one other =
      KeepsChain-then t.new_iptables
        (t.insert_unique 1 (block_rule one other) >> t.insert_unique 1 (block_rule other one))
        KeepsChain-new
        (KeepsChain-then (t.insert_unique 1 (block_rule one other))
          (t.insert_unique 1 (block_rule other one)) (KeepsChain-insert (block_rule one other) refl)
          (KeepsChain-insert (block_rule other one) refl))

  -- A call that succeeds has put both rules into the chain.
  pub Has-block_tenant_to_tenant_traffic :
      (one other : Text) (w : W)
      → (block_tenant_to_tenant_traffic t one other w).0 ≡ returns (ok tt)
      → Has (block_rule one other) (rules (block_tenant_to_tenant_traffic t one other w).1)
        × Has (block_rule other one) (rules (block_tenant_to_tenant_traffic t one other w).1)
  unfolding block_tenant_to_tenant_traffic
  Has-block_tenant_to_tenant_traffic one other w h =
      let first = t.insert_unique 1 (block_rule one other) in
      let second = t.insert_unique 1 (block_rule other one) in
      let (_, made, rest) = ok_of_bind t.new_iptables (λ _. first >> second) w tt h in
      let w1 = (t.new_iptables w).1 in
      let (_, one_in, other_in) = ok_of_bind first (λ _. second) w1 tt rest in
      let w2 = (first w1).1 in
      rw
        (
          bind_ok t.new_iptables (λ _. first >> second) w tt made,
          bind_ok first (λ _. second) w1 tt one_in,
          law.inserts (block_rule other one) w2 other_in,
        )
        (
          Has-insert_new (block_rule one other) (block_rule other one) (rules w2) (
              rw (law.inserts (block_rule one other) w1 one_in)
                (Has-insert_new_self (block_rule one other) (rules w1))),
          Has-insert_new_self (block_rule other one) (rules w2),
        )

  -- What the daemon does to the chain after a block: any of its three calls, any number of times,
  -- whether they succeed or fail.
  pub data Later (w : W) : W → Type 0 where
    at_once : Later w w
    forwarded_bridge :
        (v : W) (bridge : Text) → Later w v → Later w (allow_bridge_forward t bridge v).1
    forwarded_tenant :
        (v : W) (cidr : Text) → Later w v → Later w (allow_forwarding_tenant t cidr v).1
    blocked :
        (v : W) (one other : Text)
        → Later w v
        → Later w (block_tenant_to_tenant_traffic t one other v).1

  Keeps-Later : {w v : W} → Later w v → Keeps (rules w) (rules v)
  Keeps-Later at_once = Keeps-refl refl
  Keeps-Later (forwarded_bridge v bridge l) =
      Keeps-trans (Keeps-Later l) (KeepsChain-allow_bridge_forward bridge v)
  Keeps-Later (forwarded_tenant v cidr l) =
      Keeps-trans (Keeps-Later l) (KeepsChain-allow_forwarding_tenant cidr v)
  Keeps-Later (blocked v one other l) =
      Keeps-trans (Keeps-Later l) (KeepsChain-block_tenant_to_tenant_traffic one other v)

  -- On a chain in which no rule that accepts stands in front of one that drops, and with a package that
  -- changes the chain as documented, once the traffic between two subnets has been blocked with success,
  -- every packet from an address of the one to an address of the other is dropped, in both directions
  -- and on every interface, after any further calls.
  pub block_tenant_to_tenant_traffic_isolates :
      (within : Text → Addr → Bool) (one other : Text) (w v : W)
      → DropsFirst (rules w)
      → (block_tenant_to_tenant_traffic t one other w).0 ≡ returns (ok tt)
      → Later (block_tenant_to_tenant_traffic t one other w).1 v
      → (interface : Text) (a b : Addr) → within one a ≡ true
      → within other b ≡ true
      → (verdict within (rules v) (record { interface = interface; from = a; to = b })
          ≡ some drop_packet)
        × (verdict within (rules v) (record { interface = interface; from = b; to = a })
            ≡ some drop_packet)
  block_tenant_to_tenant_traffic_isolates within one other w v d h l interface a b a_in b_in =
      let both = Has-block_tenant_to_tenant_traffic one other w h in
      let kept = Keeps-Later l in
      let shape =
        kept.in_front (Keeps.in_front (KeepsChain-block_tenant_to_tenant_traffic one other w) d) in
      (
        verdict-drop within (rules v) (block_rule one other)
            (record { interface = interface; from = a; to = b }) shape
            (kept.still (block_rule one other) both.0) refl (ground (arith, a_in, b_in)),
        verdict-drop within (rules v) (block_rule other one)
            (record { interface = interface; from = b; to = a }) shape
            (kept.still (block_rule other one) both.1) refl (ground (arith, a_in, b_in)),
      )
