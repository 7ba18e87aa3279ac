-- ===== src/System/Serves.antt =====
-- Commands on a node, and a tenant's file that serves its pods before and after them.
-- Another tenant's store is written.
use mathlib.Core.Path.{subst}
use tenant_cni.Base.{
  Bool, Option, Result, Text, ap, arith, err, false, if◌then◌else◌, inl, inr, none, ok, refl,
  returns, some, sym, true, ◌∙◌, ◌≡◌, ◌≢◌,
}
use tenant_cni.Cni.Tenants.{KeepsTenants, on_outside-KeepsTenants}
use tenant_cni.Host.{Cmd, attempt, deref, from_result, ignore, ◌>>=◌}
use tenant_cni.Host.Laws.{attempt_state, bind_split, ignore_state}
use tenant_cni.Ipam.Store.{Disk}
use tenant_cni.Ipam.Types.{TenantData}
use tenant_cni.Machine.{Machine, on_outside, put}
use tenant_cni.Net.Addr.{Ipv6Text}
use tenant_cni.System.Served.{IsServed, OnlyRuns, Runs-invariant, Watch}

pub put_other :
    (name other : Text) (d : Disk TenantData) (disks : Text → Disk TenantData)
    → name ≢ other
    → put other d disks name ≡ disks name
unfolding put
put_other name other d disks apart = ground (arith, apart)

-- The outside's answer that is taken as a value.
answer_ok :
    {W A : Type 0} (x : Cmd W A) (m : Machine W) (a : A)
    → (attempt (on_outside x) m).0 ≡ returns (ok (ok a))
    → (x m.outside).0 ≡ returns (ok a)
unfolding on_outside
answer_ok x m a h = ground (arith, h)

module _ {W : Type 0} (v6 : Ipv6Text) (watch : Watch) (name : Text) where
  abbrev pub IsServedOn : Machine W → Type 0
  IsServedOn m = IsServed v6 watch name (m.tenant_disks name)

  -- A command after which the tenant's file serves if it did before.
  abbrev pub Serves : {A : Type 0} → Cmd (Machine W) A → Type 0
  Serves c = (m : Machine W) → IsServedOn m → IsServedOn (c m).1

  pub KeepsTenants-Serves : {A : Type 0} (c : Cmd (Machine W) A) → KeepsTenants c → Serves c
  KeepsTenants-Serves c k m = subst (λ f. IsServed v6 watch name (f name)) (sym (k m))

  pub on_outside-Serves : {A : Type 0} (c : Cmd W A) → Serves (on_outside c)
  on_outside-Serves c = KeepsTenants-Serves (on_outside c) (on_outside-KeepsTenants c)

  -- Two commands on one machine.
  pub bind_with :
      {A B : Type 0} (c : Cmd (Machine W) A) (f : A → Cmd (Machine W) B) (m : Machine W)
      → IsServedOn (c m).1
      → ((a : A) → (c m).0 ≡ returns (ok a) → IsServedOn (f a (c m).1).1)
      → IsServedOn ((c >>= f) m).1
  bind_with c f m g go = elim (bind_split c f m) [
    | inl (a, gives, same) ↦ subst IsServedOn (sym (ap (λ z. z.1) same)) (go a gives)
    | inr same ↦ subst IsServedOn (sym same) g
  ]

  pub bind_at :
      {A B : Type 0} (c : Cmd (Machine W) A) (f : A → Cmd (Machine W) B) (m : Machine W)
      → IsServedOn (c m).1
      → ((a : A) → Serves (f a))
      → IsServedOn ((c >>= f) m).1
  bind_at c f m g sf = bind_with c f m g (λ a _. sf a (c m).1 g)

  pub deref_at :
      {A B : Type 0} (o : Option A) (f : A → Cmd (Machine W) B) (m : Machine W)
      → IsServedOn m
      → ((a : A) → IsServedOn (f a m).1)
      → IsServedOn ((deref o >>= f) m).1
  deref_at none f m g go = g
  deref_at (some a) f m g go = go a

  pub Serves-bind :
      {A B : Type 0} (c : Cmd (Machine W) A) (f : A → Cmd (Machine W) B)
      → Serves c
      → ((a : A) → Serves (f a))
      → Serves (c >>= f)
  Serves-bind c f sc sf m g = bind_at c f m (sc m g) sf

  pub from_result-Serves :
      {A B : Type 0} (r : Result A) (f : A → Cmd (Machine W) B)
      → ((a : A) → r ≡ ok a → Serves (f a))
      → Serves (from_result r >>= f)
  from_result-Serves (err e) f sf = λ m g. g
  from_result-Serves (ok a) f sf = sf a refl

  pub retry-Serves :
      {A : Type 0} (retry : Cmd (Machine W) A → Cmd (Machine W) A) (f : Cmd (Machine W) A)
      → OnlyRuns retry
      → Serves f
      → Serves (retry f)
  retry-Serves retry f only sf m g = Runs-invariant IsServedOn f m (retry f m).1 sf g (only f m)

  pub if_Serves :
      {A : Type 0} (b : Bool) (x y : Cmd (Machine W) A)
      → Serves x
      → Serves y
      → Serves (if b then x else y)
  if_Serves true x y sx sy = sx
  if_Serves false x y sx sy = sy

  pub attempt-Serves : {A : Type 0} (x : Cmd (Machine W) A) → Serves x → Serves (attempt x)
  attempt-Serves x sx m g = subst (IsServedOn) (sym (attempt_state x m)) (sx m g)

  pub ignore-Serves : {A : Type 0} (x : Cmd (Machine W) A) → Serves x → Serves (ignore x)
  ignore-Serves x sx m g = subst (IsServedOn) (sym (ignore_state x m)) (sx m g)

  -- The start of a command that asks the outside and takes its error as a value.
  pub answered-Serves :
      {A B : Type 0} (x : Cmd W A) (f : Result A → Cmd (Machine W) B)
      → ((r : Result A)
          → ((a : A) → r ≡ ok a → (w : W) × ((x w).0 ≡ returns (ok a)))
          → Serves (f r))
      → Serves (attempt (on_outside x) >>= f)
  answered-Serves x f sf m g =
      let c = attempt (on_outside x) in
      let g1 : IsServedOn (c m).1 = attempt-Serves (on_outside x) (on_outside-Serves x) m g in
      bind_with c f m g1 (λ r gives.
        sf r (λ a e. (m.outside, answer_ok x m a (gives ∙ ap (λ z. returns (ok z)) e))) (c m).1 g1)

  pub asked-Serves :
      {A B : Type 0} (x : Cmd W A) (f : Result A → Cmd (Machine W) B)
      → ((r : Result A) → Serves (f r))
      → Serves (attempt (on_outside x) >>= f)
  asked-Serves x f sf = answered-Serves x f (λ r _. sf r)

  pub told-Serves :
      {A B : Type 0} (x : Cmd W A) (f : A → Cmd (Machine W) B)
      → ((a : A) → Serves (f a))
      → Serves (on_outside x >>= f)
  told-Serves x f = Serves-bind (on_outside x) f (on_outside-Serves x)
