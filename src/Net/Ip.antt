-- ===== src/Net/Ip.antt =====
-- net.IP, net.IPMask and net.IPNet: addresses as byte slices, of four bytes or of sixteen.
use Prim.Native.Nat.{bit_and}
use tenant_cni.Base.{
  Bool, List, Option, Text, [], bytes, drop, false, if◌then◌else◌, is_empty, leb, length, ltb, none,
  refl, some, suc, take, text_dec, text_eq, true, zero, ℕ, ◌%◌, ◌&&◌, ◌*◌, ◌++◌, ◌+◌, ◌-◌, ◌/◌,
  ◌==◌, ◌^◌, ◌||◌, ◌∷◌, ◌≡◌,
}
use tenant_cni.Net.Addr.{
  Addr, Ipv6Text, bit_len, dotted_text, form_of, ipv4, ipv6, no_address, octets, octets_of,
  parse_addr, parse_ipv4, zone_of,
}
use tenant_cni.Net.Decimal.{negsuc, pos, read_digits, ℤ}

-- `net.IP`. The nil slice is `[]`; a conversion `net.IP(s)` of a string is its bytes.
abbrev pub Ip : Type 0
Ip = List ℕ

abbrev pub Mask : Type 0
Mask = List ℕ

pub record IpNet : Type 0 where
  pub ip : Ip
  pub mask : Mask

abbrev pub v4_in_v6_prefix : Ip
v4_in_v6_prefix = 0 ∷ 0 ∷ 0 ∷ 0 ∷ 0 ∷ 0 ∷ 0 ∷ 0 ∷ 0 ∷ 0 ∷ 255 ∷ 255 ∷ []

-- `IP.To4`, with `[]` for nil
unfoldable pub to4 : Ip → Ip
to4 ip =
    if length ip == 4
    then ip
    else if length ip == 16 && text_eq (take 12 ip) v4_in_v6_prefix
    then drop 12 ip
    else []

-- `IP.Equal`: an IPv4 address and the same address in IPv6 form are equal.
unfoldable pub ip_equal : Ip → Ip → Bool
ip_equal a b =
    if length a == length b
    then text_eq a b
    else if length a == 4 && length b == 16
    then text_eq (take 12 b) v4_in_v6_prefix && text_eq a (drop 12 b)
    else if length a == 16 && length b == 4
    then text_eq (take 12 a) v4_in_v6_prefix && text_eq (drop 12 a) b
    else false

bytes_be : ℕ → ℕ → List ℕ → List ℕ
bytes_be zero v acc = acc
bytes_be (suc k) v acc = bytes_be k (v / 256) ((v % 256) ∷ acc)

abbrev value_be : List ℕ → ℕ → ℕ
value_be [] n = n
value_be (x ∷ xs) n = value_be xs (n * 256 + x)

-- `Addr.As16`
unfoldable pub as16 : Addr → Ip
unfolding bytes_be
as16 no_address = bytes_be 16 0 []
as16 (ipv4 v) = v4_in_v6_prefix ++ octets_of v
as16 (ipv6 v zone) = bytes_be 16 v []

-- `net.ParseIP`
unfoldable pub parse_ip : Ipv6Text → Text → Ip
parse_ip v6 s = elim (parse_addr v6 s) [
  | none ↦ []
  | some a ↦ if is_empty (zone_of a) then as16 a else []
]

hex_digit : ℕ → ℕ
hex_digit n = if ltb n 10 then 48 + n else 87 + n

hex_text : List ℕ → Text
unfolding hex_digit
hex_text [] = []
hex_text (x ∷ xs) = hex_digit (x / 16) ∷ hex_digit (x % 16) ∷ hex_text xs

-- `IP.String`
unfoldable pub ip_text : Ipv6Text → Ip → Text
unfolding hex_text
ip_text v6 ip =
    if length ip == 0
    then bytes "<nil>"
    else if length ip == 4 || length ip == 16
    then if length (to4 ip) == 4 then dotted_text (to4 ip) else v6.format (value_be ip 0) []
    else b'?' ∷ hex_text ip

-- `net.CIDRMask(ones, bits)`; nil where `ones` is out of range.
mask_bytes : ℕ → ℕ → Mask
mask_bytes zero n = []
mask_bytes (suc k) n = (if leb 8 n then 255 else 255 - 255 / 2 ^ n) ∷ mask_bytes k (n - 8)

unfoldable pub cidr_mask : ℤ → ℕ → Mask
unfolding mask_bytes
cidr_mask (pos ones) bits = if leb ones bits then mask_bytes (bits / 8) ones else []
cidr_mask (negsuc _) bits = []

and_bytes : List ℕ → List ℕ → List ℕ
and_bytes (x ∷ xs) (m ∷ ms) = bit_and x m ∷ and_bytes xs ms
and_bytes _ _ = []

-- `IP.Mask`, on the sixteen bytes and the mask that `ParseCIDR` hands over
unfoldable pub ip_mask : Ip → Mask → Ip
unfolding and_bytes
ip_mask ip mask =
    let short =
      if length mask == 4 && length ip == 16 && text_eq (take 12 ip) v4_in_v6_prefix
      then drop 12 ip
      else ip in
    if length short == length mask then and_bytes short mask else []

unfoldable pub longer : ℕ → Option (Text × Text) → Option (Text × Text)
longer c none = none
longer c (some (before, after)) = some (c ∷ before, after)

-- What stands before and after the first slash.
unfoldable pub first_slash : Text → Option (Text × Text)
first_slash [] = none
first_slash (c ∷ cs) = if c == b'/' then some ([], cs) else longer c (first_slash cs)

-- `net.ParseCIDR`
unfoldable pub parse_cidr : Ipv6Text → Text → Option (Ip × IpNet)
unfolding first_slash longer
parse_cidr v6 s = elim (first_slash s) [
  | none ↦ none
  | some (before, after) ↦ elim (parse_addr v6 before) [
    | none ↦ none
    | some a ↦ elim (read_digits 16777215 after) [
      | none ↦ none
      | some n ↦
          if is_empty (zone_of a) && leb n (bit_len a)
          then some (
            as16 a,
            record {
              ip = ip_mask (as16 a) (cidr_mask (pos n) (bit_len a));
              mask = cidr_mask (pos n) (bit_len a);
            },
          )
          else none
    ]
  ]
]

unfoldable pub same_network : List ℕ → List ℕ → List ℕ → Bool
same_network (n ∷ ns) (m ∷ ms) (x ∷ xs) = bit_and n m == bit_and x m && same_network ns ms xs
same_network [] [] [] = true
same_network _ _ _ = false

-- `networkNumberAndMask`: a network that is written as an IPv4-mapped one is taken as the IPv4 network.
unfoldable pub number_and_mask : IpNet → List ℕ × List ℕ
number_and_mask net =
    let short = to4 net.ip in
    let number = if length short == 4 then short else net.ip in
    (number, if length number == 4 && length net.mask == 16 then drop 12 net.mask else net.mask)

-- `IPNet.Contains`, for a network whose address and mask have one length, as `ParseCIDR` makes them
unfoldable pub net_contains : IpNet → Ip → Bool
unfolding same_network number_and_mask
net_contains net ip =
    let x = if length (to4 ip) == 4 then to4 ip else ip in
    let (number, mask) = number_and_mask net in same_network number mask x

abbrev no_ipv6 : Ipv6Text
no_ipv6 = record { parse = λ _. none; format = λ _ _. [] }

reads_ip : to4 (parse_ip no_ipv6 (bytes "10.244.1.17")) ≡ 10 ∷ 244 ∷ 1 ∷ 17 ∷ []
unfolding to4 parse_ip text_dec parse_addr form_of parse_ipv4 octets as16 octets_of
reads_ip = refl

membership : (s : Text) (ip : Ip) → Bool
unfolding parse_cidr net_contains to4 parse_addr form_of parse_ipv4 octets as16 octets_of
    read_digits ip_mask cidr_mask
membership s ip = elim (parse_cidr no_ipv6 s) [ none ↦ false | some (_, net) ↦ net_contains net ip ]

in_network :
    (membership (bytes "10.244.1.0/24") (10 ∷ 244 ∷ 1 ∷ 255 ∷ []) ≡ true)
    × (membership (bytes "10.244.1.0/24") (10 ∷ 244 ∷ 2 ∷ 0 ∷ []) ≡ false)
    × (membership (bytes "10.244.1.0/24") [] ≡ false)
unfolding membership text_dec
in_network = (refl, refl, refl)
