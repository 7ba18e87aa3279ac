-- ===== src/Net/ByteNetwork.antt =====
-- Networks of prefix length 24: an address belongs to one exactly if its first three bytes are the
-- network's.
use Prim.Native.Nat.{bit_and}
use tenant_cni.Base.{
  Bool, [], arith, false, if◌then◌else◌, refl, suc, true, zero, ℕ, ◌%◌, ◌&&◌, ◌/◌, ◌<◌, ◌==◌, ◌∙◌,
  ◌∷◌, ◌≡◌,
}
use tenant_cni.Net.Addr.{ipv4, octets_of}
use tenant_cni.Net.Decimal.{pos}
use tenant_cni.Net.Ip.{Ip, IpNet, as16, cidr_mask, ip_mask, net_contains, same_network, to4}
use tenant_cni.Net.RoundTrip.{net_contains_four}

-- What `and` does to a byte.
are_masked : ℕ → Bool
are_masked zero = true
are_masked (suc b) =
    let fewer = are_masked b in if bit_and b 255 == b && bit_and b 0 == 0 then fewer else false

masked_of_table :
    (bound b : ℕ) → are_masked bound ≡ true → b < bound → (bit_and b 255 ≡ b) × (bit_and b 0 ≡ 0)
unfolding are_masked
masked_of_table zero b table small = absurd (omega arith)
masked_of_table (suc bound) b table small = ground (arith, masked_of_table bound b)

bytes_are_masked : are_masked 256 ≡ true
unfolding are_masked
bytes_are_masked = refl

masked : (b : ℕ) → b < 256 → (bit_and b 255 ≡ b) × (bit_and b 0 ≡ 0)
masked b h = masked_of_table 256 b bytes_are_masked h

-- The network of an address, with the mask of 24 bits.
abbrev pub network24 : ℕ → IpNet
network24 v = record {
  ip = ip_mask (as16 (ipv4 v)) (cidr_mask (pos 24) 32);
  mask = cidr_mask (pos 24) 32;
}

pub network24_bytes :
    (v : ℕ) → (network24 v).ip ≡ (v / 16777216 % 256) ∷ (v / 65536 % 256) ∷ (v / 256 % 256) ∷ 0 ∷ []
unfolding ip_mask cidr_mask as16 octets_of
network24_bytes v = ground (
  arith,
  masked (v / 16777216 % 256) (omega arith),
  masked (v / 65536 % 256) (omega arith),
  masked (v / 256 % 256) (omega arith),
  masked (v % 256) (omega arith),
)

pub net_contains-network24 :
    (v : ℕ) (ip : Ip) (a b c d : ℕ)
    → to4 ip ≡ a ∷ b ∷ c ∷ d ∷ []
    → a < 256
    → b < 256
    → c < 256
    → d < 256
    → net_contains (network24 v) ip
      ≡ (a == v / 16777216 % 256 && (b == v / 65536 % 256 && (c == v / 256 % 256)))
unfolding cidr_mask same_network
net_contains-network24 v ip a b c d e ha hb hc hd =
    net_contains_four (network24 v) ip (rw (network24_bytes v) refl) refl (rw e refl)
    ∙ rw (e, network24_bytes v)
        (ground (
          arith,
          masked a ha,
          masked b hb,
          masked c hc,
          masked d hd,
          masked (v / 16777216 % 256) (omega arith),
          masked (v / 65536 % 256) (omega arith),
          masked (v / 256 % 256) (omega arith),
        ))
