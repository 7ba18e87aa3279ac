-- ===== src/Host/Laws.antt =====
-- Commands that run one after another.
use tenant_cni.Base.{
  Error, Option, Outcome, Result, ap, arith, err, inl, inr, none, ok, panics, refl, returns,
  runs_on, some, sym, ◌∙◌, ◌≡◌, ◌≢◌, ◌⊎◌,
}
use tenant_cni.Host.{Cmd, attempt, deref, ignore, pure, ◌>>=◌, ◌>>◌}

-- To split on the value of a command and keep the equation.
Outcome-cases {ℓ} :
    {A : Type ℓ} (o : Outcome (Result A))
    → ((a : A) × (o ≡ returns (ok a)))
      ⊎ (((e : Error) × (o ≡ returns (err e))) ⊎ ((o ≡ panics) ⊎ (o ≡ runs_on)))
Outcome-cases (returns (ok a)) = inl (a, refl)
Outcome-cases (returns (err e)) = inr (inl (e, refl))
Outcome-cases panics = inr (inr (inl refl))
Outcome-cases runs_on = inr (inr (inr refl))

module _ {S A : Type 0} where
  -- A command that succeeds is followed by the next one.
  pub bind_ok :
      {B : Type 0} (m : Cmd S A) (f : A → Cmd S B) (s : S) (a : A)
      → (m s).0 ≡ returns (ok a)
      → (m >>= f) s ≡ f a (m s).1
  bind_ok m f s a h = rw (h, ◌>>=◌) refl

  -- Where a command and its successor succeed together, the first one succeeds.
  pub ok_of_bind :
      {B : Type 0} (m : Cmd S A) (f : A → Cmd S B) (s : S) (b : B)
      → ((m >>= f) s).0 ≡ returns (ok b)
      → (a : A) × ((m s).0 ≡ returns (ok a)) × ((f a (m s).1).0 ≡ returns (ok b))
  ok_of_bind m f s b h = elim (Outcome-cases (m s).0) [
    | inl (a, e) ↦ (a, e, sym (ap (λ z. z.0) (bind_ok m f s a e)) ∙ h)
    | inr (inl (x, e)) ↦ absurd (ground (arith, e, h))
    | inr (inr (inl e)) ↦ absurd (ground (arith, e, h))
    | inr (inr (inr e)) ↦ absurd (ground (arith, e, h))
  ]

  -- The first command succeeds and the next one runs, or the state is the first one's.
  pub bind_split :
      {B : Type 0} (m : Cmd S A) (f : A → Cmd S B) (s : S)
      → ((a : A) × ((m s).0 ≡ returns (ok a)) × ((m >>= f) s ≡ f a (m s).1))
        ⊎ (((m >>= f) s).1 ≡ (m s).1)
  bind_split m f s = elim (Outcome-cases (m s).0) [
    | inl (a, e) ↦ inl (a, e, bind_ok m f s a e)
    | inr (inl (x, e)) ↦ inr (rw (e, ◌>>=◌) refl)
    | inr (inr (inl e)) ↦ inr (rw (e, ◌>>=◌) refl)
    | inr (inr (inr e)) ↦ inr (rw (e, ◌>>=◌) refl)
  ]

  pub bind_cases :
      {B : Type 0} (m : Cmd S A) (f : A → Cmd S B) (s : S)
      → ((a : A) × ((m >>= f) s ≡ f a (m s).1)) ⊎ (((m >>= f) s).1 ≡ (m s).1)
  bind_cases m f s = elim (bind_split m f s) [
    | inl (a, _, same) ↦ inl (a, same)
    | inr same ↦ inr same
  ]

-- A command that returns, whose outcome is then taken as a value.
pub attempt_bind :
    {S A B : Type 0} (m : Cmd S A) (f : Result A → Cmd S B) (s : S) (r : Result A)
    → (m s).0 ≡ returns r
    → (attempt m >>= f) s ≡ f r (m s).1
attempt_bind m f s r h =
    let same : attempt m s ≡ (returns (ok r), (m s).1) = rw (h, attempt) refl in
    bind_ok (attempt m) f s r (ap (λ z. z.0) same) ∙ ap (λ z. f r z.1) same

-- A command that has nothing to return ends well or not.
pub done_or_not : (o : Outcome (Result (Unit {0}))) → (o ≡ returns (ok tt)) ⊎ (o ≢ returns (ok tt))
done_or_not (returns (ok tt)) = inl refl
done_or_not (returns (err e)) = inr (λ z. ground (arith, z))
done_or_not panics = inr (λ z. ground (arith, z))
done_or_not runs_on = inr (λ z. ground (arith, z))

pub attempt_state : {S A : Type 0} (m : Cmd S A) (s : S) → (attempt m s).1 ≡ (m s).1
attempt_state m s = elim (Outcome-cases (m s).0) [
  | inl (a, e) ↦ rw (e, attempt) refl
  | inr (inl (x, e)) ↦ rw (e, attempt) refl
  | inr (inr (inl e)) ↦ rw (e, attempt) refl
  | inr (inr (inr e)) ↦ rw (e, attempt) refl
]

-- A command whose outcome is dropped leaves the state that it leaves.
pub ignore_state : {S A : Type 0} (m : Cmd S A) (s : S) → (ignore m s).1 ≡ (m s).1
ignore_state m s = elim (bind_cases (attempt m) (λ _. pure tt) s) [
  | inl (r, e) ↦ ap (λ z. z.1) e ∙ attempt_state m s
  | inr e ↦ e ∙ attempt_state m s
]

-- Where the command returns, the next one runs on that state.
pub ignore_bind :
    {S A B : Type 0} (m : Cmd S A) (k : Cmd S B) (s : S) (r : Result A)
    → (m s).0 ≡ returns r
    → (ignore m >> k) s ≡ k (m s).1
ignore_bind m k s r h =
    let same : ignore m s ≡ (returns (ok tt), (m s).1) = attempt_bind m (λ _. pure tt) s r h in
    bind_ok (ignore m) (λ _. k) s tt (ap (λ z. z.0) same) ∙ ap (λ z. k z.1) same

-- A pointer that is read by a command that succeeds is not nil.
pub deref_ok :
    {S A B : Type 0} (o : Option A) (f : A → Cmd S B) (s : S) (b : B)
    → ((deref o >>= f) s).0 ≡ returns (ok b)
    → (a : A) × (o ≡ some a) × ((deref o >>= f) s ≡ f a s)
deref_ok none f s b h = absurd (ground arith)
deref_ok (some a) f s b h = (a, refl, refl)
