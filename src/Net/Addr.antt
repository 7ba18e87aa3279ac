-- ===== src/Net/Addr.antt =====
-- netip.Addr and netip.Prefix: values, their texts, `Next`.
use tenant_cni.Base.{
  List, Option, Text, [], bytes, false, if◌then◌else◌, is_empty, length, ltb, none, refl, some, ℕ,
  ◌%◌, ◌&&◌, ◌*◌, ◌++◌, ◌+◌, ◌-◌, ◌/◌, ◌==◌, ◌^◌, ◌||◌, ◌∷◌, ◌≡◌,
}
use tenant_cni.Net.Decimal.{decimal, is_digit, read_digits}

-- The zero `netip.Addr`, an IPv4 address as its 32 bits, an IPv6 address as its 128 bits and zone.
pub data Addr : Type 0 where
  no_address : Addr
  ipv4 : ℕ → Addr
  ipv6 : ℕ → Text → Addr

-- The text form of IPv6 addresses: 128 bits and a zone.
pub record Ipv6Text : Type 0 where
  pub parse : Text → Option (ℕ × Text)
  pub format : ℕ → Text → Text

-- The loop of netip's `parseIPv4`: the value and the number of digits of the octet that is read,
-- and the octets before it.
unfoldable pub octets : Text → ℕ → ℕ → List ℕ → Option (List ℕ)
octets [] val digits fields = if length fields == 3 then some (fields ++ (val ∷ [])) else none
octets (c ∷ cs) val digits fields =
    let more = octets cs (val * 10 + (c - 48)) (digits + 1) fields in
    let next = octets cs 0 0 (fields ++ (val ∷ [])) in
    if is_digit c
    then if (digits == 1 && val == 0) || ltb 255 (val * 10 + (c - 48)) then none else more
    else if c == b'.' && ltb 0 digits && ltb 0 (length cs) && ltb (length fields) 3
    then next
    else none

abbrev value_of : List ℕ → ℕ → ℕ
value_of [] n = n
value_of (x ∷ xs) n = value_of xs (n * 256 + x)

unfoldable pub parse_ipv4 : Text → Option Addr
parse_ipv4 s = elim (octets s 0 0 []) [
  | none ↦ none
  | some fields ↦ some (ipv4 (value_of fields 0))
]

-- The first of `.`, `:` and `%` decides which form is read.
pub data Form : Type 0 where
  dotted colons neither : Form

unfoldable pub form_of : Text → Form
form_of [] = neither
form_of (c ∷ cs) =
    let rest = form_of cs in
    if c == b'.' then dotted else if c == b':' then colons else if c == b'%' then neither else rest

unfoldable pub parse_addr : Ipv6Text → Text → Option Addr
parse_addr v6 s = elim (form_of s) [
  | dotted ↦ parse_ipv4 s
  | colons ↦ elim (v6.parse s) [ none ↦ none | some (value, zone) ↦ some (ipv6 value zone) ]
  | neither ↦ none
]

unfoldable pub octets_of : ℕ → List ℕ
octets_of v = (v / 16777216 % 256) ∷ (v / 65536 % 256) ∷ (v / 256 % 256) ∷ (v % 256) ∷ []

unfoldable pub dotted_text : List ℕ → Text
dotted_text [] = []
dotted_text (x ∷ []) = decimal x
dotted_text (x ∷ y ∷ ys) = decimal x ++ (b'.' ∷ dotted_text (y ∷ ys))

-- `Addr.String`
unfoldable pub addr_text : Ipv6Text → Addr → Text
addr_text v6 no_address = bytes "invalid IP"
addr_text v6 (ipv4 v) = dotted_text (octets_of v)
addr_text v6 (ipv6 v zone) = v6.format v zone

-- `Addr.Next`: the zero Addr after the last address.
unfoldable pub addr_next : Addr → Addr
addr_next no_address = no_address
addr_next (ipv4 v) = if ltb (v + 1) 4294967296 then ipv4 (v + 1) else no_address
addr_next (ipv6 v zone) = if ltb (v + 1) (2 ^ 128) then ipv6 (v + 1) zone else no_address

abbrev pub bit_len : Addr → ℕ
bit_len no_address = 0
bit_len (ipv4 _) = 32
bit_len (ipv6 _ _) = 128

abbrev pub zone_of : Addr → Text
zone_of (ipv6 _ zone) = zone
zone_of _ = []

-- `netip.Prefix`; the zero Prefix is not valid.
pub data Prefix : Type 0 where
  no_prefix : Prefix
  prefix : Addr → ℕ → Prefix

-- What stands before and after the last slash.
unfoldable pub last_slash : Text → Option (Text × Text)
last_slash [] = none
last_slash (c ∷ cs) = elim (last_slash cs) [
  | none ↦ if c == b'/' then some ([], cs) else none
  | some (before, after) ↦ some (c ∷ before, after)
]

-- The bits of a prefix have no sign and no leading zero.
unfoldable pub prefix_bits : Text → ℕ → Option ℕ
prefix_bits s limit =
    if ltb 1 (length s) && elim s [ [] ↦ false | c ∷ _ ↦ c == b'0' ]
    then none
    else read_digits (limit + 1) s

-- `netip.ParsePrefix`
unfoldable pub parse_prefix : Ipv6Text → Text → Option Prefix
unfolding last_slash prefix_bits
parse_prefix v6 s = elim (last_slash s) [
  | none ↦ none
  | some (before, after) ↦ elim (parse_addr v6 before) [
    | none ↦ none
    | some a ↦
        if is_empty (zone_of a)
        then elim (prefix_bits after (bit_len a)) [ none ↦ none | some n ↦ some (prefix a n) ]
        else none
  ]
]

-- `Prefix.String`
unfoldable pub prefix_text : Ipv6Text → Prefix → Text
prefix_text v6 no_prefix = bytes "invalid Prefix"
prefix_text v6 (prefix a n) = addr_text v6 a ++ (b'/' ∷ decimal n)

-- `Prefix.Addr`
abbrev pub prefix_addr : Prefix → Addr
prefix_addr no_prefix = no_address
prefix_addr (prefix a n) = a

abbrev no_ipv6 : Ipv6Text
no_ipv6 = record { parse = λ _. none; format = λ _ _. [] }

reads_prefix : parse_prefix no_ipv6 (bytes "10.244.1.0/24") ≡ some (prefix (ipv4 183763200) 24)
unfolding parse_prefix parse_addr form_of parse_ipv4 octets read_digits
reads_prefix = refl

refuses :
    (parse_prefix no_ipv6 (bytes "10.244.1.0/33") ≡ none)
    × (parse_prefix no_ipv6 (bytes "10.244.01.0/24") ≡ none)
    × (parse_prefix no_ipv6 (bytes "10.244.1./24") ≡ none)
unfolding parse_prefix parse_addr form_of parse_ipv4 octets read_digits
refuses = (refl, refl, refl)

prints_next : addr_text no_ipv6 (addr_next (ipv4 183763455)) ≡ bytes "10.244.2.0"
unfolding addr_text addr_next octets_of dotted_text decimal
prints_next = refl
