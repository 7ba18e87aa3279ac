-- ===== src/Ipam/Address/Search.antt =====
-- The loop of `AllocateIP`: what it finds, when it ends, and when it does not.
use tenant_cni.Base.{
  Bool, Result-cases, arith, err, false, inl, inr, ip_overflow, none, ok, refl, returns, runs_on,
  some, suc, true, zero, ℕ, ◌<◌, ◌≡◌,
}
use tenant_cni.Ipam.Address.{search_ip, tenant_next_ip}
use tenant_cni.Ipam.TenantStore.{contains_ip}
use tenant_cni.Ipam.Types.{TenantData}
use tenant_cni.Net.Addr.{Ipv6Text}
use tenant_cni.Net.Ip.{Ip, ip_equal, net_contains, parse_cidr}

module _ (v6 : Ipv6Text) (next_ip : Ip → Ip) where
  -- Whether the tenant's subnet, as its text is read, contains the address.
  abbrev pub in_subnet : TenantData → Ip → Bool
  in_subnet t ip = elim (parse_cidr v6 t.tenant_cidr) [
    | none ↦ false
    | some (_, net) ↦ net_contains net ip
  ]

  tenant_next_ip_within :
      (t : TenantData) (ip : Ip)
      → in_subnet t (next_ip ip) ≡ true
      → tenant_next_ip v6 next_ip t ip ≡ ok (next_ip ip)
  unfolding tenant_next_ip
  tenant_next_ip_within t ip h = ground arith

  pub tenant_next_ip-eq_ok :
      (t : TenantData) (ip next : Ip)
      → tenant_next_ip v6 next_ip t ip ≡ ok next
      → (next ≡ next_ip ip) × (in_subnet t next ≡ true)
  unfolding tenant_next_ip
  tenant_next_ip-eq_ok t ip next h = ground arith

  -- The subnet can be read, and does not contain the next address.
  abbrev pub IsOverflow : TenantData → Ip → Type 0
  IsOverflow t ip = tenant_next_ip v6 next_ip t ip ≡ err ip_overflow

  -- Whatever the loop finds lies in the tenant's subnet and belongs to no container.
  pub search_ip_sound :
      (rounds : ℕ) (t : TenantData) (gtw last start ip : Ip)
      → search_ip v6 next_ip rounds t gtw last start ≡ returns (ok ip)
      → (in_subnet t ip ≡ true) × (contains_ip v6 ip t ≡ false)
  unfolding search_ip
  search_ip_sound zero t gtw last start ip h = cc
  search_ip_sound (suc rounds) t gtw last start ip h =
      elim (Result-cases (tenant_next_ip v6 next_ip t start)) [
        | inl (next, e) ↦
            ground (
              arith,
              tenant_next_ip-eq_ok t start next e,
              search_ip_sound rounds t gtw last next ip,
            )
        | inr (x, e) ↦ ground (arith, search_ip_sound rounds t gtw last gtw ip)
      ]

  -- The next `k` addresses after `start` lie in the subnet, are taken, and are not the last one.
  abbrev pub Busy : TenantData → Ip → ℕ → Ip → Type 0
  Busy t last zero start = Unit
  Busy t last (suc k) start =
      (in_subnet t (next_ip start) ≡ true)
      × (contains_ip v6 (next_ip start) t ≡ true)
      × (ip_equal (next_ip start) last ≡ false)
      × Busy t last k (next_ip start)

  abbrev pub after : ℕ → Ip → Ip
  after zero ip = ip
  after (suc k) ip = after k (next_ip ip)

  -- If `k` addresses after `start` are taken and the one behind them is free, more than `k` rounds
  -- find that one.
  pub search_ip_first :
      (rounds k : ℕ) (t : TenantData) (gtw last start : Ip)
      → k < rounds
      → Busy t last k start
      → in_subnet t (next_ip (after k start)) ≡ true
      → contains_ip v6 (next_ip (after k start)) t ≡ false
      → search_ip v6 next_ip rounds t gtw last start ≡ returns (ok (next_ip (after k start)))
  unfolding search_ip
  search_ip_first zero k t gtw last start enough busy within free = absurd (omega arith)
  search_ip_first (suc rounds) zero t gtw last start enough busy within free =
      rw (tenant_next_ip_within t start within, search_ip) (ground arith)
  search_ip_first (suc rounds) (suc k) t gtw last start enough busy within free =
      rw (tenant_next_ip_within t start busy.0, search_ip)
        (ground (
          arith,
          search_ip_first rounds k t gtw last (next_ip start) (omega arith) busy.3 within free,
        ))

  -- Once the text of the gateway is the start and is not an address, no round ends the loop.
  search_ip_gateway :
      (rounds : ℕ) (t : TenantData) (gtw last : Ip)
      → IsOverflow t gtw
      → ip_equal last gtw ≡ false
      → search_ip v6 next_ip rounds t gtw last gtw ≡ runs_on
  unfolding search_ip
  search_ip_gateway zero t gtw last over ne = refl
  search_ip_gateway (suc rounds) t gtw last over ne =
      rw (over, search_ip) (ground (arith, search_ip_gateway rounds t gtw last over ne))

  -- If the addresses after `start` are taken up to the end of the subnet, the loop never ends.
  pub search_ip_runs_on :
      (rounds k : ℕ) (t : TenantData) (gtw last start : Ip)
      → Busy t last k start
      → IsOverflow t (after k start)
      → IsOverflow t gtw
      → ip_equal last gtw ≡ false
      → search_ip v6 next_ip rounds t gtw last start ≡ runs_on
  unfolding search_ip
  search_ip_runs_on zero k t gtw last start busy over gone ne = refl
  search_ip_runs_on (suc rounds) zero t gtw last start busy over gone ne =
      rw (over, search_ip) (ground (arith, search_ip_gateway rounds t gtw last gone ne))
  search_ip_runs_on (suc rounds) (suc k) t gtw last start busy over gone ne =
      rw (tenant_next_ip_within t start busy.0, search_ip)
        (ground (arith, search_ip_runs_on rounds k t gtw last (next_ip start) busy.3 over gone ne))
