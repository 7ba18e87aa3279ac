-- ===== src/Ipam/Address/Next.antt =====
-- The address behind the last one, on a subnet of 24 bits.
-- What the plugins' `NextIP` documents of an IPv4 address whose last byte is not the greatest.
use tenant_cni.Base.{
  [], ap, arith, false, length, none, ok, refl, returns, some, text_dec, true, ℕ, ◌%◌, ◌+◌, ◌/◌,
  ◌<◌, ◌∙◌, ◌∷◌, ◌≡◌,
}
use tenant_cni.Ipam.Address.{TenantIpam, allocate_ip}
use tenant_cni.Ipam.Address.Laws.{IsReady, IsUnknown, allocate_ip_first, stored_with, with_ip}
use tenant_cni.Ipam.Address.Search.{in_subnet}
use tenant_cni.Ipam.TenantStore.{contains_ip, last_ip}
use tenant_cni.Ipam.Types.{Bridge, ContainerNetInfo, TenantData}
use tenant_cni.Net.Addr.{Ipv6Text, ipv4, octets_of}
use tenant_cni.Net.ByteNetwork.{net_contains-network24, network24}
use tenant_cni.Net.Ip.{Ip, as16, parse_cidr, to4}
use tenant_cni.Net.RoundTrip.{length-pos_of_to4}

abbrev pub AddsOne : (Ip → Ip) → Type 0
AddsOne next_ip =
    (ip : Ip) (a b c d : ℕ)
    → to4 ip ≡ a ∷ b ∷ c ∷ d ∷ []
    → a < 256
    → b < 256
    → c < 256
    → d < 255
    → to4 (next_ip ip) ≡ a ∷ b ∷ c ∷ (d + 1) ∷ []

to4-as16 : (w : ℕ) → to4 (as16 (ipv4 w)) ≡ octets_of w
unfolding to4 as16 octets_of text_dec
to4-as16 w = refl

octets_in_subnet :
    (v d : ℕ)
    → v % 256 ≡ 0
    → d < 255
    → octets_of (v + d) ≡ (v / 16777216 % 256) ∷ (v / 65536 % 256) ∷ (v / 256 % 256) ∷ d ∷ []
unfolding octets_of
octets_in_subnet v d aligned h =
    let third : (v + d) / 256 ≡ v / 256 = omega arith in
    let second : (v + d) / 65536 ≡ v / 65536 = omega arith in
    let first : (v + d) / 16777216 ≡ v / 16777216 = omega arith in
    let fourth : (v + d) % 256 ≡ d = omega arith in rw (first, second, third, fourth) refl

module _ (v6 : Ipv6Text) (next_ip : Ip → Ip) (adds_one : AddsOne next_ip) (v : ℕ)
    (fits : v < 4294967296) (aligned : v % 256 ≡ 0) where
  -- What follows an address of the subnet whose last byte is not the greatest.
  next_octets :
      (ip : Ip) (d : ℕ)
      → to4 ip ≡ (v / 16777216 % 256) ∷ (v / 65536 % 256) ∷ (v / 256 % 256) ∷ d ∷ []
      → d < 255
      → to4 (next_ip ip) ≡ (v / 16777216 % 256) ∷ (v / 65536 % 256) ∷ (v / 256 % 256) ∷ (d + 1) ∷ []
  next_octets ip d four h =
      adds_one ip (v / 16777216 % 256) (v / 65536 % 256) (v / 256 % 256) d four (omega arith)
        (omega arith) (omega arith) h

  -- The subnet contains the address that follows one whose last byte is not the greatest.
  in_subnet_next :
      (t : TenantData) (ip : Ip) (d : ℕ)
      → parse_cidr v6 t.tenant_cidr ≡ some (as16 (ipv4 v), network24 v)
      → to4 ip ≡ (v / 16777216 % 256) ∷ (v / 65536 % 256) ∷ (v / 256 % 256) ∷ d ∷ []
      → d < 255
      → in_subnet v6 next_ip t (next_ip ip) ≡ true
  in_subnet_next t ip d e four h =
      let next = next_octets ip d four h in
      rw (e, in_subnet)
        (net_contains-network24 v (next_ip ip) _ _ _ (d + 1) next (omega arith) (omega arith)
            (omega arith) (omega arith)
          ∙ ground arith)

  -- On an IPv4 subnet of 24 bits that ends in a zero byte, with a `NextIP` that adds one to the last
  -- byte of an IPv4 address where that is below 255, on a store that can be locked, read and written
  -- and whose data has a bridge: a new container is given the address behind the last one, where that
  -- is free and the last one's last byte is below 255, in one round or more. The address with the last
  -- byte 255 is given out like any other.
  pub allocate_ip_next :
      (rounds : ℕ) (info : ContainerNetInfo) (tim : TenantIpam) (t : TenantData) (b : Bridge)
      (d : ℕ)
      → IsReady t tim.tenant_store
      → t.bridge ≡ some b
      → IsUnknown info.id t
      → parse_cidr v6 t.tenant_cidr ≡ some (as16 (ipv4 v), network24 v)
      → last_ip v6 t ≡ as16 (ipv4 (v + d))
      → d < 255
      → contains_ip v6 (next_ip (as16 (ipv4 (v + d)))) t ≡ false
      → 0 < rounds
      → let ip = next_ip (as16 (ipv4 (v + d))) in
        (allocate_ip v6 next_ip rounds info tim
          ≡ returns (ok ip, none, stored_with v6 (with_ip v6 ip info t) tim.tenant_store))
        × (to4 ip ≡ (v / 16777216 % 256) ∷ (v / 65536 % 256) ∷ (v / 256 % 256) ∷ (d + 1) ∷ [])
  allocate_ip_next rounds info tim t b d r eb unknown e el h free enough =
      let last = as16 (ipv4 (v + d)) in
      let four : to4 last ≡ (v / 16777216 % 256) ∷ (v / 65536 % 256) ∷ (v / 256 % 256) ∷ d ∷ [] =
        to4-as16 (v + d) ∙ octets_in_subnet v d aligned h in
      let next = next_octets last d four h in
      (
        allocate_ip_first v6 next_ip rounds 0 info tim t b last r eb unknown el
            (length-pos_of_to4 last (ap length four)) enough tt (in_subnet_next t last d e four h)
            free (length-pos_of_to4 (next_ip last) (ap length next)),
        next,
      )
