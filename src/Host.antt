-- ===== src/Host.antt =====
-- Calls that leave the program: the operations of the netlink, iptables and plugin packages, each a
-- command on a state of the outside that is not known further. The records of this module's children are
-- the packages' interfaces; a theorem names the documented behaviour that it needs.
pub mod Netlink
pub mod Iptables
pub mod Laws
use tenant_cni.Base.{Error, Option, none, some, Outcome, Result, err, ok, panics, returns, runs_on}

-- A command on a state `S`. It returns a value, returns an error or panics, and leaves a state.
abbrev pub Cmd : Type 0 → Type 0 → Type 0
Cmd S A = S → Outcome (Result A) × S

module _ {S : Type 0} where
  abbrev pub pure : {A : Type 0} → A → Cmd S A
  pure a s = (returns (ok a), s)

  abbrev pub fail : {A : Type 0} → Error → Cmd S A
  fail e s = (returns (err e), s)

  -- A nil pointer is read.
  abbrev pub crash : {A : Type 0} → Cmd S A
  crash s = (panics, s)

  -- A pointer is read.
  abbrev pub deref : {A : Type 0} → Option A → Cmd S A
  deref none = crash
  deref (some a) = pure a

  -- `if err != nil { return err }` after each command
  infixl 5 ◌>>=◌ ◌>>◌
  abbrev pub ◌>>=◌ : {A B : Type 0} → Cmd S A → (A → Cmd S B) → Cmd S B
  ◌>>=◌ m f s =
      let (o, s') = m s in
      elim o [
        | returns r ↦ elim r [ ok a ↦ f a s' | err e ↦ (returns (err e), s') ]
        | panics ↦ (panics, s')
        | runs_on ↦ (runs_on, s')
      ]

  abbrev pub ◌>>◌ : {B : Type 0} → Cmd S (Unit {0}) → Cmd S B → Cmd S B
  m >> k = m >>= λ _. k

  -- The error as a value: what the code does where it looks at `err` and goes on.
  abbrev pub attempt : {A : Type 0} → Cmd S A → Cmd S (Result A)
  attempt m s =
      let (o, s') = m s in
      elim o [ returns r ↦ (returns (ok r), s') | panics ↦ (panics, s') | runs_on ↦ (runs_on, s') ]

  -- The error is logged or dropped.
  abbrev pub ignore : {A : Type 0} → Cmd S A → Cmd S (Unit {0})
  ignore m = attempt m >>= λ _. pure tt

  abbrev pub from_result : {A : Type 0} → Result A → Cmd S A
  from_result (ok a) = pure a
  from_result (err e) = fail e

  abbrev pub reads : {A : Type 0} → (S → A) → Cmd S A
  reads f s = (returns (ok (f s)), s)

  abbrev pub modifies : (S → S) → Cmd S (Unit {0})
  modifies f s = (returns (ok tt), f s)
