-- ===== src/Routing/Rules/Isolation.antt =====
-- Which packets between two tenants the chain lets through, after the calls of `addTenant`.
use mathlib.Core.Logic.{ite}
use mathlib.Core.Path.{subst}
use native.Mathlib.Decide.{ℕ_discrete}
use tenant_cni.Base.{
  Bool, Bool-cases, List, Option, Text, [], ap, false, if◌then◌else◌, inl, inr, none, ok, returns,
  some, text_eq, true, ◌&&◌, ◌++◌, ◌∙◌, ◌∷◌, ◌≡◌, ◌≢◌, ◌⊎◌,
}
use tenant_cni.Host.Iptables.{Iptables, Rule, Target, accept, drop_packet}
use tenant_cni.Net.Addr.{Addr}

-- Equal rules, as the iptables package compares them.
pub rule_dec : Discrete Rule
rule_dec = hlevel ℕ_discrete

abbrev pub Has : Rule → List Rule → Type 0
Has r [] = ⊥
Has r (x ∷ xs) = (r ≡ x) ⊎ Has r xs

abbrev pub has : Rule → List Rule → Bool
has r [] = false
has r (x ∷ xs) = ite (rule_dec r x) true (has r xs)

abbrev pub append_new : Rule → List Rule → List Rule
append_new r rules = if has r rules then rules else rules ++ (r ∷ [])

abbrev pub insert_new : Rule → List Rule → List Rule
insert_new r rules = if has r rules then rules else r ∷ rules

-- What the iptables package documents, on a view of the chain: the calls that succeed add a rule that
-- is not there, behind all others or in front of them; the calls that fail change no rule.
pub record IsFirewall {W : Type 0} (t : Iptables W) (rules : W → List Rule) : Type 0 where
  pub new_keeps : (w : W) → rules (t.new_iptables w).1 ≡ rules w
  pub appends :
      (r : Rule) (w : W)
      → (t.append_unique r w).0 ≡ returns (ok tt)
      → rules (t.append_unique r w).1 ≡ append_new r (rules w)
  pub append_fails :
      (r : Rule) (w : W)
      → (t.append_unique r w).0 ≢ returns (ok tt)
      → rules (t.append_unique r w).1 ≡ rules w
  pub inserts :
      (r : Rule) (w : W)
      → (t.insert_unique 1 r w).0 ≡ returns (ok tt)
      → rules (t.insert_unique 1 r w).1 ≡ insert_new r (rules w)
  pub insert_fails :
      (r : Rule) (w : W)
      → (t.insert_unique 1 r w).0 ≢ returns (ok tt)
      → rules (t.insert_unique 1 r w).1 ≡ rules w

pub record Packet : Type 0 where
  pub interface : Text
  pub from : Addr
  pub to : Addr

-- Whether a rule is for a packet. `within` says which addresses the text of a subnet stands for.
abbrev pub fits : (Text → Addr → Bool) → Rule → Packet → Bool
fits within r p =
    let in_ok : Bool = elim r.in_interface [ none ↦ true | some i ↦ text_eq i p.interface ] in
    let from_ok : Bool = elim r.source [ none ↦ true | some s ↦ within s p.from ] in
    let to_ok : Bool = elim r.destination [ none ↦ true | some d ↦ within d p.to ] in
    in_ok && from_ok && to_ok

-- The target of the first rule that is for the packet.
abbrev pub verdict : (Text → Addr → Bool) → List Rule → Packet → Option Target
verdict within [] p = none
verdict within (r ∷ rules) p = if fits within r p then some r.target else verdict within rules p

abbrev pub AllAccept : List Rule → Type 0
AllAccept [] = Unit
AllAccept (r ∷ rules) = (r.target ≡ accept) × AllAccept rules

-- No rule that accepts stands in front of one that drops.
abbrev pub DropsFirst : List Rule → Type 0
DropsFirst [] = Unit
DropsFirst (r ∷ rules) =
    ((r.target ≡ accept) × AllAccept rules) ⊎ ((r.target ≡ drop_packet) × DropsFirst rules)

AllAccept-append :
    (rules : List Rule) (r : Rule)
    → AllAccept rules
    → r.target ≡ accept
    → AllAccept (rules ++ (r ∷ []))
AllAccept-append [] r a h = (h, tt)
AllAccept-append (x ∷ rules) r a h = (a.0, AllAccept-append rules r a.1 h)

pub DropsFirst-append :
    (rules : List Rule) (r : Rule)
    → DropsFirst rules
    → r.target ≡ accept
    → DropsFirst (rules ++ (r ∷ []))
DropsFirst-append [] r d h = inl (h, tt)
DropsFirst-append (x ∷ rules) r (inl (a, rest)) h = inl (a, AllAccept-append rules r rest h)
DropsFirst-append (x ∷ rules) r (inr (a, rest)) h = inr (a, DropsFirst-append rules r rest h)

Has-of_AllAccept :
    (r : Rule) (rules : List Rule) → AllAccept rules → Has r rules → r.target ≡ accept
Has-of_AllAccept r [] a h = elim h [ ]
Has-of_AllAccept r (x ∷ rules) a (inl e) = ap (λ (z : Rule). z.target) e ∙ a.0
Has-of_AllAccept r (x ∷ rules) a (inr h) = Has-of_AllAccept r rules a.1 h

-- A chain that drops first, and has a rule that drops a packet, drops it.
pub verdict-drop :
    (within : Text → Addr → Bool) (rules : List Rule) (r : Rule) (p : Packet)
    → DropsFirst rules
    → Has r rules
    → r.target ≡ drop_packet
    → fits within r p ≡ true
    → verdict within rules p ≡ some drop_packet
verdict-drop within [] r p d h e f = elim h [ ]
verdict-drop within (x ∷ rules) r p (inl (a, rest)) h e f =
    let accepts : r.target ≡ accept = Has-of_AllAccept r (x ∷ rules) (a, rest) h in cc
verdict-drop within (x ∷ rules) r p (inr (a, rest)) (inl same) e f =
    rw (subst (λ z. fits within z p ≡ true) same f) (ap some a)
verdict-drop within (x ∷ rules) r p (inr (a, rest)) (inr h) e f =
    elim (Bool-cases (fits within x p)) [
      | inl yes_fits ↦ rw yes_fits (ap some a)
      | inr no_fit ↦ rw no_fit (verdict-drop within rules r p rest h e f)
    ]
