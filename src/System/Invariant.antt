-- ===== src/System/Invariant.antt =====
-- Commands that preserve a property of the machine, however they end.
use mathlib.Core.Path.{subst}
use tenant_cni.Base.{
  Bool, Option, Result, ap, false, if◌then◌else◌, inl, inr, none, some, sym, true,
}
use tenant_cni.Host.{Cmd, attempt, deref, ◌>>=◌}
use tenant_cni.Host.Laws.{attempt_state, bind_cases}
use tenant_cni.Machine.{Machine, on_outside}

module _ {W : Type 0} (P : Machine W → Type 0) where
  abbrev pub Preserves : {A : Type 0} → Cmd (Machine W) A → Type 0
  Preserves c = (m : Machine W) → P m → P (c m).1

  pub Preserves-bind :
      {A B : Type 0} (c : Cmd (Machine W) A) (f : A → Cmd (Machine W) B)
      → Preserves c
      → ((a : A) → Preserves (f a))
      → Preserves (c >>= f)
  Preserves-bind c f pc pf m p = elim (bind_cases c f m) [
    | inl (a, same) ↦ subst P (sym (ap (λ z. z.1) same)) (pf a (c m).1 (pc m p))
    | inr same ↦ subst P (sym same) (pc m p)
  ]

  pub deref-Preserves :
      {A B : Type 0} (o : Option A) (f : A → Cmd (Machine W) B)
      → ((a : A) → Preserves (f a))
      → Preserves (deref o >>= f)
  deref-Preserves none f pf = λ m p. p
  deref-Preserves (some a) f pf = pf a

  pub if_Preserves :
      {A : Type 0} (b : Bool) (x y : Cmd (Machine W) A)
      → Preserves x
      → Preserves y
      → Preserves (if b then x else y)
  if_Preserves true x y px py = px
  if_Preserves false x y px py = py

  module _ (outside : (A : Type 0) (c : Cmd W A) → Preserves (on_outside c)) where
    -- A call on the outside, and what follows where it succeeds.
    pub told_Preserves :
        {A B : Type 0} (x : Cmd W A) (f : A → Cmd (Machine W) B)
        → ((a : A) → Preserves (f a))
        → Preserves (on_outside x >>= f)
    told_Preserves x f = Preserves-bind (on_outside x) f (outside _ x)

    -- A call on the outside, and what follows with its error as a value.
    pub asked_Preserves :
        {A B : Type 0} (x : Cmd W A) (f : Result A → Cmd (Machine W) B)
        → ((r : Result A) → Preserves (f r))
        → Preserves (attempt (on_outside x) >>= f)
    asked_Preserves x f =
        Preserves-bind (attempt (on_outside x)) f
          (λ m p. subst P (sym (attempt_state (on_outside x) m)) (outside _ x m p))
