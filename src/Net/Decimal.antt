-- ===== src/Net/Decimal.antt =====
-- Numbers as text: `strconv.Itoa` and `%v` of an int, and the digits that a parser reads.
use tenant_cni.Base.{
  ℕ, zero, suc, ◌+◌, ◌*◌, ◌-◌, ◌/◌, ◌%◌, ◌≤◌, ◌<◌, ◌≡◌, refl, Bool, true, false, ◌&&◌, [], ◌∷◌,
  Option, none, some, arith, ltb, leb, if◌then◌else◌, Text, bytes,
}

-- A Go int. `negsuc n` is -(n + 1).
pub data ℤ : Type 0 where
  pos : ℕ → ℤ
  negsuc : ℕ → ℤ

decimal_onto : ℕ → ℕ → Text → Text
decimal_onto zero n acc = acc
decimal_onto (suc f) n acc = elim (ltb n 10) [
  | true ↦ (48 + n) ∷ acc
  | false ↦ decimal_onto f (n / 10) ((48 + n % 10) ∷ acc)
]

unfoldable pub decimal : ℕ → Text
unfolding decimal_onto
decimal n = decimal_onto (suc n) n []

unfoldable pub decimal_int : ℤ → Text
unfolding decimal
decimal_int (pos n) = decimal n
decimal_int (negsuc n) = b'-' ∷ decimal (suc n)

abbrev pub is_digit : ℕ → Bool
is_digit c = leb b'0' c && leb c b'9'

-- The value of a text of digits alone, below the bound; `none` for any other text.
digits_from : ℕ → ℕ → Text → Option ℕ
digits_from bound n [] = some n
digits_from bound n (c ∷ cs) =
    let rest = digits_from bound (n * 10 + (c - 48)) cs in
    if is_digit c && ltb (n * 10 + (c - 48)) bound then rest else none

unfoldable pub read_digits : ℕ → Text → Option ℕ
unfolding digits_from
read_digits bound [] = none
read_digits bound (c ∷ cs) = digits_from bound 0 (c ∷ cs)

pub decimal_one : (n : ℕ) → n < 10 → decimal n ≡ (48 + n) ∷ []
unfolding decimal
decimal_one n h = ground arith

pub decimal_two : (n : ℕ) → 10 ≤ n → n < 100 → decimal n ≡ (48 + n / 10) ∷ (48 + n % 10) ∷ []
unfolding decimal
decimal_two zero h k = absurd (omega arith)
decimal_two (suc zero) h k = absurd (omega arith)
decimal_two (suc (suc n)) h k = ground arith

pub decimal_three :
    (n : ℕ)
    → 100 ≤ n
    → n < 1000
    → decimal n ≡ (48 + n / 10 / 10) ∷ (48 + n / 10 % 10) ∷ (48 + n % 10) ∷ []
unfolding decimal
decimal_three zero h k = absurd (omega arith)
decimal_three (suc zero) h k = absurd (omega arith)
decimal_three (suc (suc zero)) h k = absurd (omega arith)
decimal_three (suc (suc (suc n))) h k = ground arith

samples :
    (decimal 0 ≡ bytes "0") × (decimal 255 ≡ bytes "255") × (decimal_int (negsuc 9) ≡ bytes "-10")
unfolding decimal_int
samples = (refl, refl, refl)
