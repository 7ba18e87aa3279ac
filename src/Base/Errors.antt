-- ===== src/Base/Errors.antt =====
-- Errors as values. A Go function that returns `error` returns `Option Error` here, `none` for nil;
-- one that returns `(T, error)` and gives no `T` with an error returns `Result T`.
use Prim.Native.Nat.{ℕ}
use mathlib.Core.Path.{◌≡◌, refl}
use mathlib.Core.Logic.{◌⊎◌, inl, inr}

pub data Error : Type 0 where
  ip_overflow no_available_ips container_ip_not_found bad_cidr bad_mac : Error
  stat_failed mkdir_failed lock_failed read_failed create_failed write_failed bad_json : Error
  tenant_name_not_found address_missing not_vxlan no_default_route no_local_address : Error
  environment_not_set node_name_not_set pod_unavailable bad_key : Error
  not_found already_exists conflict link_not_found : Error
  external : ℕ → Error

pub data Result {ℓ} (A : Type ℓ) : Type ℓ where
  ok : A → Result A
  err : Error → Result A

-- How a call ends: it returns, it panics (a nil pointer is read), or it has not returned within the
-- rounds that it was given.
pub data Outcome {ℓ} (A : Type ℓ) : Type ℓ where
  returns : A → Outcome A
  panics : Outcome A
  runs_on : Outcome A

-- To split on a computed result and keep the equation.
pub Result-cases {ℓ} :
    {A : Type ℓ} (r : Result A) → ((a : A) × (r ≡ ok a)) ⊎ ((e : Error) × (r ≡ err e))
Result-cases (ok a) = inl (a, refl)
Result-cases (err e) = inr (e, refl)
