-- ===== src/Net/RoundTrip.antt =====
-- Printing and parsing of any net.IP that stands for an IPv4 address, in four bytes or in sixteen.
use mathlib.Core.Path.{subst₂}
use tenant_cni.Base.{
  List, [], ap, arith, drop, if◌then◌else◌, inl, inr, length, refl, suc, sym, take-append-drop,
  true, zero, ℕ, ◌++◌, ◌<◌, ◌==◌, ◌∙◌, ◌∷◌, ◌≡◌, ◌⊎◌,
}
use tenant_cni.Net.Addr.{Ipv6Text, dotted_text}
use tenant_cni.Net.Ip.{
  Ip, IpNet, ip_equal, ip_text, net_contains, number_and_mask, parse_ip, same_network, to4,
  v4_in_v6_prefix,
}
use tenant_cni.Net.Laws.{parse_ip-ip_text}

abbrev pub IsBytes : List ℕ → Type 0
IsBytes [] = Unit
IsBytes (x ∷ xs) = (x < 256) × IsBytes xs

drop-IsBytes : (n : ℕ) (xs : List ℕ) → IsBytes xs → IsBytes (drop n xs)
drop-IsBytes zero xs h = h
drop-IsBytes (suc n) [] h = h
drop-IsBytes (suc n) (x ∷ xs) h = drop-IsBytes n xs h.1

to4-IsBytes : (ip : Ip) → IsBytes ip → IsBytes (to4 ip)
unfolding to4
to4-IsBytes ip h = ground (arith, drop-IsBytes 12 ip h)

-- An address that stands for an IPv4 address, with the octets of that.
pub record IsIpv4 (ip : Ip) : Type 0 where
  pub a : ℕ
  pub b : ℕ
  pub c : ℕ
  pub d : ℕ
  pub four : to4 ip ≡ a ∷ b ∷ c ∷ d ∷ []
  pub octets_fit : IsBytes (a ∷ b ∷ c ∷ d ∷ [])

four_octets :
    (xs : List ℕ)
    → length xs ≡ 4
    → (a : ℕ) × (b : ℕ) × (c : ℕ) × (d : ℕ) × (xs ≡ a ∷ b ∷ c ∷ d ∷ [])
four_octets (a ∷ b ∷ c ∷ d ∷ []) h = (a, b, c, d, refl)
four_octets [] h = absurd (omega arith)
four_octets (a ∷ []) h = absurd (omega arith)
four_octets (a ∷ b ∷ []) h = absurd (omega arith)
four_octets (a ∷ b ∷ c ∷ []) h = absurd (omega arith)
four_octets (a ∷ b ∷ c ∷ d ∷ e ∷ xs) h = absurd (omega arith)

pub IsIpv4-of_length : (ip : Ip) → length (to4 ip) ≡ 4 → IsBytes ip → IsIpv4 ip
IsIpv4-of_length ip h bs =
    let (a, b, c, d, e) = four_octets (to4 ip) h in
    record { a = a; b = b; c = c; d = d; four = e; octets_fit = rw e at (to4-IsBytes ip bs) }

to4-length : (ip : Ip) → length (to4 ip) ≡ 4 → (length ip ≡ 4) ⊎ (length ip ≡ 16)
unfolding to4
to4-length ip h = ground arith

pub length-pos_of_to4 : (ip : Ip) → length (to4 ip) ≡ 4 → 0 < length ip
length-pos_of_to4 ip h = omega (arith, to4-length ip h)

-- An address in sixteen bytes that stands for an IPv4 address begins with the twelve bytes that say so.
to4_sixteen : (ip : Ip) → length (to4 ip) ≡ 4 → length ip ≡ 16 → ip ≡ v4_in_v6_prefix ++ to4 ip
unfolding to4
to4_sixteen ip h l = ground (arith, take-append-drop 12 ip)

to4_short : (ip : Ip) → length ip ≡ 4 → to4 ip ≡ ip
unfolding to4
to4_short ip l = ground arith

ip_text_of_four :
    (v6 : Ipv6Text) (ip : Ip) (a b c d : ℕ)
    → to4 ip ≡ a ∷ b ∷ c ∷ d ∷ []
    → ip_text v6 ip ≡ dotted_text (a ∷ b ∷ c ∷ d ∷ [])
unfolding ip_text
ip_text_of_four v6 ip a b c d e = ground (arith, to4-length ip (rw e))

-- The text of such an address is read as the address in sixteen bytes.
pub parse_ip-ip_text-IsIpv4 :
    (v6 : Ipv6Text) (ip : Ip) (v : IsIpv4 ip)
    → parse_ip v6 (ip_text v6 ip) ≡ v4_in_v6_prefix ++ (v.a ∷ v.b ∷ v.c ∷ v.d ∷ [])
parse_ip-ip_text-IsIpv4 v6 ip v = rw (ip_text_of_four v6 ip v.a v.b v.c v.d v.four) (
    rw (← ip_text_of_four v6 (v.a ∷ v.b ∷ v.c ∷ v.d ∷ []) v.a v.b v.c v.d (to4_short _ refl)) (
      parse_ip-ip_text v.a v.b v.c v.d v.octets_fit.0 v.octets_fit.1.0 v.octets_fit.1.1.0
        v.octets_fit.1.1.1.0 v6))

ip_equal_refl : (ip : Ip) → ip_equal ip ip ≡ true
unfolding ip_equal
ip_equal_refl ip = ground arith

ip_equal_short :
    (a b c d : ℕ) → ip_equal (v4_in_v6_prefix ++ (a ∷ b ∷ c ∷ d ∷ [])) (a ∷ b ∷ c ∷ d ∷ []) ≡ true
unfolding ip_equal
ip_equal_short a b c d = ground arith

ip_equal_of_octets :
    (read ip : Ip) (a b c d : ℕ)
    → to4 ip ≡ a ∷ b ∷ c ∷ d ∷ []
    → read ≡ v4_in_v6_prefix ++ (a ∷ b ∷ c ∷ d ∷ [])
    → ip_equal read ip ≡ true
ip_equal_of_octets read ip a b c d four e = elim (to4-length ip (ap length four)) [
  | inl l ↦
      subst₂ (λ x y. ip_equal x y ≡ true) (sym e) (sym four ∙ to4_short ip l)
        (ip_equal_short a b c d)
  | inr l ↦
      subst₂ (λ x y. ip_equal x y ≡ true) (sym e)
        (sym (to4_sixteen ip (ap length four) l ∙ ap (λ z. v4_in_v6_prefix ++ z) four))
        (ip_equal_refl _)
]

-- An IPv4 address, in four bytes or in sixteen, is equal to what `net.ParseIP` reads from the text
-- that `IP.String` prints of it.
pub ip_equal-parse_ip :
    (v6 : Ipv6Text) (ip : Ip)
    → length (to4 ip) ≡ 4
    → IsBytes ip
    → ip_equal (parse_ip v6 (ip_text v6 ip)) ip ≡ true
ip_equal-parse_ip v6 ip h bs =
    let v = IsIpv4-of_length ip h bs in
    ip_equal_of_octets _ ip v.a v.b v.c v.d v.four (parse_ip-ip_text-IsIpv4 v6 ip v)

pub same_network-length : (ns ms xs : List ℕ) → same_network ns ms xs ≡ true → length ns ≡ length xs
unfolding same_network
same_network-length [] [] [] h = refl
same_network-length (n ∷ ns) (m ∷ ms) (x ∷ xs) h =
    omega (arith, same_network-length ns ms xs (ground arith))
same_network-length [] [] (x ∷ xs) h = cc
same_network-length [] (m ∷ ms) xs h = cc
same_network-length (n ∷ ns) [] xs h = cc
same_network-length (n ∷ ns) (m ∷ ms) [] h = cc

-- A network of four bytes is its own number, and a mask of four bytes its own.
number_and_mask-number : (net : IpNet) → length net.ip ≡ 4 → (number_and_mask net).0 ≡ net.ip
unfolding number_and_mask to4
number_and_mask-number net e = ground (arith, e)

number_and_mask_four :
    (net : IpNet)
    → length net.ip ≡ 4
    → length net.mask ≡ 4
    → number_and_mask net ≡ (net.ip, net.mask)
unfolding number_and_mask to4
number_and_mask_four net e f = ground (arith, e, f)

pub net_contains_four :
    (net : IpNet) (ip : Ip)
    → length net.ip ≡ 4
    → length net.mask ≡ 4
    → length (to4 ip) ≡ 4
    → net_contains net ip ≡ same_network net.ip net.mask (to4 ip)
unfolding net_contains
net_contains_four net ip e f h =
    ap (λ z. same_network z.0 z.1 (if length (to4 ip) == 4 then to4 ip else ip))
      (number_and_mask_four net e f)
    ∙ ground (arith, h)

-- What an IPv4 network contains is an IPv4 address.
pub net_contains-length :
    (net : IpNet) (ip : Ip) → net_contains net ip ≡ true → length net.ip ≡ 4 → length (to4 ip) ≡ 4
unfolding net_contains
net_contains-length net ip h e = ground (
  arith,
  number_and_mask-number net e,
  same_network-length (number_and_mask net).0 (number_and_mask net).1 (to4 ip),
  same_network-length (number_and_mask net).0 (number_and_mask net).1 ip,
  to4_short ip,
)
