-- ===== src/Net/PrefixText.antt =====
-- Reading back the text of an IPv4 prefix, as `netip.ParsePrefix` and `net.ParseCIDR` read it.
use native.Mathlib.Decide.{dec_lt}
use tenant_cni.Base.{
  Bool, Text, [], ap, arith, none, not, refl, some, true, ℕ, ◌%◌, ◌&&◌, ◌++◌, ◌+◌, ◌/◌, ◌<◌, ◌==◌,
  ◌∙◌, ◌∷◌, ◌≡◌, ◌≤◌,
}
use tenant_cni.Net.Addr.{
  Ipv6Text, addr_text, dotted_text, ipv4, last_slash, octets_of, parse_addr, parse_prefix, prefix,
  prefix_bits, prefix_text,
}
use tenant_cni.Net.Decimal.{decimal, decimal_one, decimal_three, decimal_two, pos, read_digits}
use tenant_cni.Net.Ip.{as16, cidr_mask, first_slash, ip_mask, longer, parse_cidr}
use tenant_cni.Net.Laws.{parse_addr-dotted_text}

-- No byte of a text is a slash.
abbrev no_slash : Text → Bool
no_slash [] = true
no_slash (c ∷ cs) = not (c == b'/') && no_slash cs

no_slash-append : (s t : Text) → no_slash s ≡ true → no_slash t ≡ true → no_slash (s ++ t) ≡ true
no_slash-append [] t h k = k
no_slash-append (c ∷ s) t h k = ground (arith, no_slash-append s t, h, k)

no_slash-decimal : (n : ℕ) → n < 256 → no_slash (decimal n) ≡ true
no_slash-decimal n h = elim (dec_lt n 10) [
  | yes p ↦ rw (decimal_one n p) (ground arith)
  | no p ↦ elim (dec_lt n 100) [
    | yes q ↦ rw (decimal_two n (omega arith) q) (ground arith)
    | no q ↦ rw (decimal_three n (omega arith) (omega arith)) (ground arith)
  ]
]

no_slash-dot :
    (n : ℕ) (t : Text) → n < 256 → no_slash t ≡ true → no_slash (decimal n ++ (b'.' ∷ t)) ≡ true
no_slash-dot n t h k =
    no_slash-append (decimal n) (b'.' ∷ t) (no_slash-decimal n h) (ground (arith, k))

no_slash-addr_text : (v6 : Ipv6Text) (v : ℕ) → no_slash (addr_text v6 (ipv4 v)) ≡ true
unfolding addr_text dotted_text octets_of
no_slash-addr_text v6 v = no_slash-dot _ _ (omega arith) (
    no_slash-dot _ _ (omega arith)
      (no_slash-dot _ _ (omega arith) (no_slash-decimal _ (omega arith))))

first_slash-append : (s t : Text) → no_slash s ≡ true → first_slash (s ++ (b'/' ∷ t)) ≡ some (s, t)
unfolding first_slash longer
first_slash-append [] t h = refl
first_slash-append (c ∷ s) t h = ground (arith, first_slash-append s t, h)

last_slash-none : (t : Text) → no_slash t ≡ true → last_slash t ≡ none
unfolding last_slash
last_slash-none [] h = refl
last_slash-none (c ∷ t) h = ground (arith, last_slash-none t, h)

last_slash-append : (s t : Text) → no_slash t ≡ true → last_slash (s ++ (b'/' ∷ t)) ≡ some (s, t)
unfolding last_slash
last_slash-append [] t h = ground (arith, last_slash-none t h)
last_slash-append (c ∷ s) t h = ground (arith, last_slash-append s t h)

read_digits-decimal : (bound n : ℕ) → n < 100 → n < bound → read_digits bound (decimal n) ≡ some n
unfolding read_digits
read_digits-decimal bound n h k = elim (dec_lt n 10) [
  | yes p ↦ rw (decimal_one n p) (ground arith)
  | no p ↦ rw (decimal_two n (omega arith) h) (ground arith)
]

prefix_bits-decimal : (limit n : ℕ) → n < 100 → n ≤ limit → prefix_bits (decimal n) limit ≡ some n
unfolding prefix_bits
prefix_bits-decimal limit n h k =
    let e = read_digits-decimal (limit + 1) n h (omega arith) in
    elim (dec_lt n 10) [
      | yes p ↦ ground (arith, e, decimal_one n p)
      | no p ↦ ground (arith, e, decimal_two n (omega arith) h)
    ]

pub parse_addr-addr_text :
    (v6 : Ipv6Text) (v : ℕ) → v < 4294967296 → parse_addr v6 (addr_text v6 (ipv4 v)) ≡ some (ipv4 v)
unfolding addr_text octets_of
parse_addr-addr_text v6 v h =
    parse_addr-dotted_text (v / 16777216 % 256) (v / 65536 % 256) (v / 256 % 256) (v % 256)
      (omega arith) (omega arith) (omega arith) (omega arith) v6
    ∙ ap (λ x. some (ipv4 x)) (omega arith)

module _ (v6 : Ipv6Text) (v n : ℕ) (fits : v < 4294967296) (short : n ≤ 32) where
  -- `netip.ParsePrefix` reads back what `Prefix.String` prints of an address of 32 bits and a length of
  -- at most 32.
  pub parse_prefix-prefix_text :
      parse_prefix v6 (prefix_text v6 (prefix (ipv4 v) n)) ≡ some (prefix (ipv4 v) n)
  unfolding prefix_text parse_prefix
  parse_prefix-prefix_text =
      rw
        (
          last_slash-append (addr_text v6 (ipv4 v)) (decimal n) (no_slash-decimal n (omega arith)),
          parse_prefix,
        )
        (rw (parse_addr-addr_text v6 v fits, prefix_bits-decimal 32 n (omega arith) short) refl)

  -- `net.ParseCIDR` reads what `Prefix.String` prints of an address of 32 bits and a length of at most
  -- 32 as the address, in sixteen bytes, and the network that the mask of that length leaves of it.
  pub parse_cidr-prefix_text :
      parse_cidr v6 (prefix_text v6 (prefix (ipv4 v) n))
      ≡ some (
        as16 (ipv4 v),
        record { ip = ip_mask (as16 (ipv4 v)) (cidr_mask (pos n) 32); mask = cidr_mask (pos n) 32 },
      )
  unfolding prefix_text parse_cidr
  parse_cidr-prefix_text =
      rw
        (
          first_slash-append (addr_text v6 (ipv4 v)) (decimal n) (no_slash-addr_text v6 v),
          parse_cidr,
        )
        (rw
          (
            parse_addr-addr_text v6 v fits,
            read_digits-decimal 16777215 n (omega arith) (omega arith),
          )
          (ground (arith, short)))
