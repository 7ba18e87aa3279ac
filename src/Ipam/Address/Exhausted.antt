-- ===== src/Ipam/Address/Exhausted.antt =====
-- `AllocateIP` on a subnet whose addresses behind the last one are all taken. The source means to go on
-- at the gateway, but it converts the gateway's text to a net.IP instead of parsing it.
use tenant_cni.Base.{
  [], arith, false, length, length-append, runs_on, some, ℕ, ◌%◌, ◌++◌, ◌/◌, ◌∷◌, ◌≡◌, ◌≢◌, ◌≤◌,
}
use tenant_cni.Ipam.Address.{TenantIpam, allocate_ip, tenant_next_ip}
use tenant_cni.Ipam.Address.Consistency.{IsIpv4Subnet}
use tenant_cni.Ipam.Address.Laws.{IsReady, IsUnknown, allocate_ip_runs_on}
use tenant_cni.Ipam.Address.Search.{Busy, IsOverflow, after}
use tenant_cni.Ipam.TenantStore.{last_ip}
use tenant_cni.Ipam.Types.{Bridge, ContainerNetInfo, TenantData}
use tenant_cni.Net.Addr.{Ipv6Text, addr_text, dotted_text, ipv4, octets_of}
use tenant_cni.Net.Decimal.{decimal}
use tenant_cni.Net.Ip.{Ip, IpNet, ip_equal, net_contains, to4}
use tenant_cni.Net.Laws.{decimal_width}
use tenant_cni.Net.RoundTrip.{same_network-length}

-- The text of an IPv4 address has seven to fifteen bytes.
addr_text_width :
    (v6 : Ipv6Text) (v : ℕ)
    → (7 ≤ length (addr_text v6 (ipv4 v))) × (length (addr_text v6 (ipv4 v)) ≤ 15)
unfolding addr_text octets_of dotted_text
addr_text_width v6 v =
    let a = v / 16777216 % 256 in
    let b = v / 65536 % 256 in
    let c = v / 256 % 256 in
    let d = v % 256 in
    omega (
      arith,
      decimal_width a (omega arith),
      decimal_width b (omega arith),
      decimal_width c (omega arith),
      decimal_width d (omega arith),
      length-append (decimal a) (b'.' ∷ (decimal b ++ (b'.' ∷ (decimal c ++ (b'.' ∷ decimal d))))),
      length-append (decimal b) (b'.' ∷ (decimal c ++ (b'.' ∷ decimal d))),
      length-append (decimal c) (b'.' ∷ decimal d),
    )

-- What the plugins' `NextIP` documents of a slice that is no address: it returns nil.
abbrev pub NilOnInvalid : (Ip → Ip) → Type 0
NilOnInvalid next_ip = (ip : Ip) → length ip ≢ 4 → length ip ≢ 16 → next_ip ip ≡ []

nil_outside : (net : IpNet) → length net.ip ≡ 4 → net_contains net [] ≡ false
unfolding net_contains to4
nil_outside net h = ground (arith, same_network-length net.ip net.mask [])

module _ (v6 : Ipv6Text) (next_ip : Ip → Ip) (nil_on_invalid : NilOnInvalid next_ip) where
  -- The text of a gateway never leads to an address of the subnet.
  gateway_text_overflows :
      (t : TenantData) (v : ℕ) → IsIpv4Subnet v6 t → IsOverflow v6 next_ip t (addr_text v6 (ipv4 v))
  unfolding tenant_next_ip
  gateway_text_overflows t v sub =
      let (short, long) = addr_text_width v6 v in
      let gone = nil_on_invalid (addr_text v6 (ipv4 v)) (λ e. omega arith) (λ e. omega arith) in
      ground (arith, sub.reads, nil_outside sub.net sub.four)

  -- The last address, in sixteen bytes, is not equal to the text of a gateway.
  last_ne_gateway_text :
      (last : Ip) (v : ℕ) → length last ≡ 16 → ip_equal last (addr_text v6 (ipv4 v)) ≡ false
  unfolding ip_equal
  last_ne_gateway_text last v h = ground (arith, addr_text_width v6 v)

  -- With a `NextIP` that gives nil on what is no address, on an IPv4 subnet whose gateway has an IPv4
  -- address, for a container that has no address: if every address behind the last one is taken and the
  -- one behind those lies outside the subnet, then `AllocateIP` never returns, however many rounds are
  -- made, although it holds the tenant's lock.
  pub allocate_ip_exhausted :
      (rounds k : ℕ) (info : ContainerNetInfo) (tim : TenantIpam) (t : TenantData) (b : Bridge)
      (v : ℕ) (last : Ip)
      → IsReady t tim.tenant_store
      → t.bridge ≡ some b
      → b.gateway ≡ ipv4 v
      → IsIpv4Subnet v6 t
      → IsUnknown info.id t
      → last_ip v6 t ≡ last
      → length last ≡ 16
      → Busy v6 next_ip t last k last
      → IsOverflow v6 next_ip t (after v6 next_ip k last)
      → allocate_ip v6 next_ip rounds info tim ≡ runs_on
  allocate_ip_exhausted rounds k info tim t b v last r eb eg sub unknown el hl busy over =
      allocate_ip_runs_on v6 next_ip rounds k info tim t b last r eb unknown el (omega arith) busy
        over (rw eg (gateway_text_overflows t v sub)) (rw eg (last_ne_gateway_text last v hl))
