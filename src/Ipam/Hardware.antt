-- ===== src/Ipam/Hardware.antt =====
-- `NewHardwareAddr` (pkg/network/backend/vxlan.go) and the text of a net.HardwareAddr.
use Prim.Native.Nat.{bit_and, bit_or}
use tenant_cni.Base.{
  Bool, List, Result, Text, [], arith, bytes, err, false, if◌then◌else◌, ltb, ok, refl, suc, true,
  zero, ℕ, ◌%◌, ◌+◌, ◌/◌, ◌<◌, ◌==◌, ◌∷◌, ◌≡◌,
}

-- `rand` is what `rand.Read` puts into the six bytes, or its error.
unfoldable pub new_hardware_addr : Result (List ℕ) → Result (List ℕ)
new_hardware_addr (err e) = err e
new_hardware_addr (ok []) = ok []
new_hardware_addr (ok (b ∷ bs)) = ok (bit_or (bit_and b 0xfe) 0x02 ∷ bs)

hex_digit : ℕ → ℕ
hex_digit n = if ltb n 10 then 48 + n else 87 + n

-- `HardwareAddr.String`; the nil address is the empty text.
unfoldable pub mac_text : List ℕ → Text
unfolding hex_digit
mac_text [] = []
mac_text (x ∷ []) = hex_digit (x / 16) ∷ hex_digit (x % 16) ∷ []
mac_text (x ∷ y ∷ ys) = hex_digit (x / 16) ∷ hex_digit (x % 16) ∷ b':' ∷ mac_text (y ∷ ys)

abbrev first_byte : ℕ → ℕ
first_byte b = bit_or (bit_and b 0xfe) 0x02

-- Whether every byte up to a bound becomes a first byte of the right kind.
are_local : ℕ → Bool
are_local zero = true
are_local (suc b) = let fewer = are_local b in if first_byte b % 4 == 2 then fewer else false

first_byte_of_table : (bound b : ℕ) → are_local bound ≡ true → b < bound → first_byte b % 4 ≡ 2
unfolding are_local
first_byte_of_table zero b table small = absurd (omega arith)
first_byte_of_table (suc bound) b table small = ground (arith, first_byte_of_table bound b)

bytes_are_local : are_local 256 ≡ true
unfolding are_local
bytes_are_local = refl

-- Whatever the random bytes, the address that is made is locally administered and unicast: the two
-- low bits of its first byte are 1 and 0. Its other bytes are the random ones.
pub new_hardware_addr_local :
    (b : ℕ) (bs : List ℕ)
    → b < 256
    → (first : ℕ) × (new_hardware_addr (ok (b ∷ bs)) ≡ ok (first ∷ bs)) × (first % 4 ≡ 2)
unfolding new_hardware_addr
new_hardware_addr_local b bs h = (first_byte b, refl, first_byte_of_table 256 b bytes_are_local h)

mac_sample : mac_text (2 ∷ 255 ∷ 16 ∷ []) ≡ bytes "02:ff:10"
unfolding mac_text
mac_sample = refl
