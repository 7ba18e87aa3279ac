-- ===== src/Base/Bytes.antt =====
-- A Go string is a sequence of bytes. Equality of two strings is the comparison `text_eq`, whose
-- decision stays shut in proofs: a split on it yields the equation or its negation.
use Prim.Native.Nat.{ℕ}
use Prim.Native.Char.{code}
use Prim.Native.String.{String}
use mathlib.Core.Path.{◌≡◌}
use mathlib.Core.Logic.{◌↔◌, ite, dite}
use mathlib.Core.Bool.{Bool, true, false, ◌&&◌, Bool-discrete}
use mathlib.Core.List.{List, [], ◌∷◌}
use native.Mathlib.Omega.{arith}
use tenant_cni.Base.Tests.{◌==◌}

abbrev pub Text : Type 0
Text = List ℕ

-- The bytes of a literal, which is ASCII.
abbrev pub bytes : String → Text
bytes String.[] = []
bytes (String.◌∷◌ c s) = code c ∷ bytes s

pub same_bytes : Text → Text → Bool
same_bytes [] [] = true
same_bytes (x ∷ xs) (y ∷ ys) = (x == y) && same_bytes xs ys
same_bytes _ _ = false

pub same_bytes_iff : (s t : Text) → (same_bytes s t ≡ true) ↔ (s ≡ t)
unfolding same_bytes
same_bytes_iff [] [] = ground arith
same_bytes_iff [] (y ∷ ys) = ground arith
same_bytes_iff (x ∷ xs) [] = ground arith
same_bytes_iff (x ∷ xs) (y ∷ ys) = ground (arith, same_bytes_iff xs ys)

unfoldable pub text_dec : Discrete Text
unfolding same_bytes
text_dec s t =
    dite (Bool-discrete (same_bytes s t) true) (λ same. yes ((same_bytes_iff s t).0 same))
      (λ differ. no (λ p. differ ((same_bytes_iff s t).1 p)))

abbrev pub text_eq : Text → Text → Bool
text_eq s t = ite (text_dec s t) true false

-- `s == ""`
abbrev pub is_empty : Text → Bool
is_empty [] = true
is_empty (_ ∷ _) = false
