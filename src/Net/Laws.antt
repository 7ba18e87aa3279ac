-- ===== src/Net/Laws.antt =====
-- Reading back the text of an IPv4 address.
use mathlib.Core.List.{append-nil}
use native.Mathlib.Decide.{dec_lt}
use tenant_cni.Base.{
  List, Text, [], arith, length, length-append, refl, some, suc, ℕ, ◌%◌, ◌*◌, ◌++◌, ◌+◌, ◌/◌, ◌<◌,
  ◌∙◌, ◌∷◌, ◌≡◌, ◌≤◌,
}
use tenant_cni.Net.Addr.{
  Ipv6Text, dotted, dotted_text, form_of, ipv4, octets, octets_of, parse_addr, parse_ipv4,
}
use tenant_cni.Net.Decimal.{decimal, decimal_one, decimal_three, decimal_two}
use tenant_cni.Net.Ip.{as16, ip_text, parse_ip, to4, v4_in_v6_prefix}

octets_one :
    (n : ℕ) (cs : Text) (fields : List ℕ)
    → n < 10
    → octets ((48 + n) ∷ cs) 0 0 fields ≡ octets cs n 1 fields
unfolding octets
octets_one n cs fields h = ground arith

octets_two :
    (n : ℕ) (cs : Text) (fields : List ℕ)
    → 10 ≤ n
    → n < 100
    → octets ((48 + n / 10) ∷ (48 + n % 10) ∷ cs) 0 0 fields ≡ octets cs n 2 fields
unfolding octets
octets_two n cs fields h k = ground arith

octets_three :
    (n : ℕ) (cs : Text) (fields : List ℕ)
    → 100 ≤ n
    → n < 256
    → octets ((48 + n / 10 / 10) ∷ (48 + n / 10 % 10) ∷ (48 + n % 10) ∷ cs) 0 0 fields
      ≡ octets cs n 3 fields
unfolding octets
octets_three n cs fields h k = ground arith

-- Reading the digits of an octet leaves its value, with one to three digits seen.
octets-decimal :
    (n : ℕ) (cs : Text) (fields : List ℕ)
    → n < 256
    → (w : ℕ) × (octets (decimal n ++ cs) 0 0 fields ≡ octets cs n (suc w) fields) × (w < 3)
octets-decimal n cs fields h = elim (dec_lt n 10) [
  | yes p ↦ (0, rw (decimal_one n p) (octets_one n cs fields p), omega arith)
  | no p ↦ elim (dec_lt n 100) [
    | yes q ↦ (
      1,
      rw (decimal_two n (omega arith) q) (octets_two n cs fields (omega arith) q),
      omega arith,
    )
    | no q ↦ (
      2,
      rw (decimal_three n (omega arith) (omega arith)) (octets_three n cs fields (omega arith) h),
      omega arith,
    )
  ]
]

-- An octet's text has one to three bytes.
pub decimal_width : (n : ℕ) → n < 256 → (0 < length (decimal n)) × (length (decimal n) ≤ 3)
decimal_width n h = elim (dec_lt n 10) [
  | yes p ↦ rw (decimal_one n p) (omega arith)
  | no p ↦ elim (dec_lt n 100) [
    | yes q ↦ rw (decimal_two n (omega arith) q) (omega arith)
    | no q ↦ rw (decimal_three n (omega arith) (omega arith)) (omega arith)
  ]
]

octets_dot :
    (cs : Text) (val w : ℕ) (fields : List ℕ)
    → 0 < length cs
    → length fields < 3
    → octets (b'.' ∷ cs) val (suc w) fields ≡ octets cs 0 0 (fields ++ (val ∷ []))
unfolding octets
octets_dot cs val w fields h k = ground arith

octets-decimal_dot :
    (n : ℕ) (cs : Text) (fields : List ℕ)
    → n < 256
    → 0 < length cs
    → length fields < 3
    → octets (decimal n ++ (b'.' ∷ cs)) 0 0 fields ≡ octets cs 0 0 (fields ++ (n ∷ []))
octets-decimal_dot n cs fields h k l =
    let (w, e, _) = octets-decimal n (b'.' ∷ cs) fields h in e ∙ octets_dot cs n w fields k l

octets-decimal_end :
    (n : ℕ) (fields : List ℕ)
    → n < 256
    → length fields ≡ 3
    → octets (decimal n) 0 0 fields ≡ some (fields ++ (n ∷ []))
unfolding octets
octets-decimal_end n fields h l =
    let (w, e, _) = octets-decimal n [] fields h in rw append-nil at e ∙ ground arith

more_text : (n : ℕ) (cs : Text) → n < 256 → 0 < length (decimal n ++ cs)
more_text n cs h = omega (arith, length-append (decimal n) cs, decimal_width n h)

form_dotted : (n : ℕ) (cs : Text) → n < 256 → form_of (decimal n ++ (b'.' ∷ cs)) ≡ dotted
unfolding form_of
form_dotted n cs h = elim (dec_lt n 10) [
  | yes p ↦ rw (decimal_one n p) (ground arith)
  | no p ↦ elim (dec_lt n 100) [
    | yes q ↦ rw (decimal_two n (omega arith) q) (ground arith)
    | no q ↦ rw (decimal_three n (omega arith) (omega arith)) (ground arith)
  ]
]

module _ (a b c d : ℕ) (ha : a < 256) (hb : b < 256) (hc : c < 256) (hd : d < 256) where
  octets-dotted_text : octets (dotted_text (a ∷ b ∷ c ∷ d ∷ [])) 0 0 [] ≡ some (a ∷ b ∷ c ∷ d ∷ [])
  unfolding dotted_text
  octets-dotted_text =
      octets-decimal_dot a _ [] ha (more_text b _ hb) (omega arith)
      ∙ octets-decimal_dot b _ (a ∷ []) hb (more_text c _ hc) (omega arith)
      ∙ octets-decimal_dot c _ (a ∷ b ∷ []) hc (decimal_width d hd).0 (omega arith)
      ∙ octets-decimal_end d (a ∷ b ∷ c ∷ []) hd refl

  form_of-dotted_text : form_of (dotted_text (a ∷ b ∷ c ∷ d ∷ [])) ≡ dotted
  unfolding dotted_text
  form_of-dotted_text = form_dotted a _ ha

  -- The dotted text of four octets is read as their value.
  pub parse_addr-dotted_text :
      (v6 : Ipv6Text)
      → parse_addr v6 (dotted_text (a ∷ b ∷ c ∷ d ∷ []))
        ≡ some (ipv4 (((a * 256 + b) * 256 + c) * 256 + d))
  unfolding parse_addr parse_ipv4
  parse_addr-dotted_text v6 =
      rw (form_of-dotted_text, parse_addr) (rw (octets-dotted_text, parse_ipv4) (ground arith))

  octets_of-value : octets_of (((a * 256 + b) * 256 + c) * 256 + d) ≡ a ∷ b ∷ c ∷ d ∷ []
  unfolding octets_of
  octets_of-value = ground arith

  -- `net.ParseIP` reads back what `IP.String` prints of a four-byte address, in sixteen bytes.
  pub parse_ip-ip_text :
      (v6 : Ipv6Text)
      → parse_ip v6 (ip_text v6 (a ∷ b ∷ c ∷ d ∷ [])) ≡ v4_in_v6_prefix ++ (a ∷ b ∷ c ∷ d ∷ [])
  unfolding parse_ip ip_text parse_addr form_of to4
  parse_ip-ip_text v6 =
      rw (parse_addr-dotted_text v6, parse_ip, ip_text) (unfold as16 in rw octets_of-value refl)
