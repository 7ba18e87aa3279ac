-- ===== src/Tests/Pool.antt =====
-- The address allocator as a pool, and the first address of a new tenant.
use tenant_cni.Base.{[], arith, bytes, false, none, ok, refl, returns, some, ◌%◌, ◌+◌, ◌∷◌, ◌≡◌}
use tenant_cni.Ipam.Address.{allocate_ip}
use tenant_cni.Ipam.Address.Laws.{IsReady, IsUnknown, stored_with, with_ip}
use tenant_cni.Ipam.Address.Next.{AddsOne, allocate_ip_next}
use tenant_cni.Ipam.Address.Refinement.{Call, Call-Step, IsAddressOf, IsServing, allocated}
use tenant_cni.Ipam.Address.View.{leases}
use tenant_cni.Ipam.Leases.{Step}
use tenant_cni.Ipam.NodeStore.{default_store_dir}
use tenant_cni.Ipam.Provision.{IsPrepared, allocate_ip-write_tenant}
use tenant_cni.Ipam.Store.{Disk, absent, holds, json}
use tenant_cni.Ipam.Tenant.{tenant_data_of, vtep_mac_text, write_tenant}
use tenant_cni.Ipam.TenantStore.{
  TenantStore, contains_ip, empty_tenant, key_of_id, last_ip, new_tenant_store,
}
use tenant_cni.Ipam.Types.{TenantData}
use tenant_cni.Net.Addr.{
  addr_text, dotted_text, form_of, ipv4, octets, octets_of, parse_addr, parse_ipv4, prefix,
  prefix_text,
}
use tenant_cni.Net.ByteNetwork.{network24}
use tenant_cni.Net.Decimal.{decimal, pos, read_digits}
use tenant_cni.Net.Ip.{Ip, as16, ip_text, parse_cidr, parse_ip, to4}
use tenant_cni.Net.PrefixText.{parse_cidr-prefix_text}
use tenant_cni.Net.RoundTrip.{IsBytes}
use tenant_cni.Tests.{
  good_disk, ipam_of, next_address, next_address-IsBytes, no_ipv6_text, small_tenant, store_of,
  the_bridge,
}
use tenant_cni.Tests.Ipam.{
  container, left_store, run, small-IsConsistent, small-IsReady, small_is_ipv4, the_next,
}

small-IsServing : IsServing no_ipv6_text (bytes "11.4.1.0/30") small_tenant (store_of small_tenant)
small-IsServing = record {
  ready = small-IsReady;
  consistent = small-IsConsistent;
  subnet = small_is_ipv4;
  same_cidr = refl;
}

abbrev one_call : Call no_ipv6_text next_address (store_of small_tenant) left_store
one_call = allocated 3 container (bytes "red") (ok the_next) none left_store run

Call-Step_example :
    (t' : TenantData) × IsServing no_ipv6_text (bytes "11.4.1.0/30") t' left_store
    × Step (IsAddressOf no_ipv6_text (bytes "11.4.1.0/30")) (leases small_tenant) (leases t')
Call-Step_example =
    Call-Step no_ipv6_text next_address next_address-IsBytes (bytes "11.4.1.0/30") small_tenant
      (store_of small_tenant) left_store small-IsServing one_call

-- The next address where the last byte is not the greatest.
unfoldable pub bump : Ip → Ip
bump (a ∷ b ∷ c ∷ d ∷ []) = (a % 256) ∷ (b % 256) ∷ (c % 256) ∷ ((d + 1) % 256) ∷ []
bump _ = []

abbrev pub next_ipv4 : Ip → Ip
next_ipv4 ip = bump (to4 ip)

pub next_ipv4-AddsOne : AddsOne next_ipv4
unfolding bump to4
next_ipv4-AddsOne ip a b c d four ha hb hc hd =
    let first : a % 256 ≡ a = omega arith in
    let second : b % 256 ≡ b = omega arith in
    let third : c % 256 ≡ c = omega arith in
    let last : (d + 1) % 256 ≡ d + 1 = omega arith in rw (four, first, second, third, last) refl

bump-IsBytes : (ip : Ip) → IsBytes (bump ip)
unfolding bump
bump-IsBytes (a ∷ b ∷ c ∷ d ∷ []) = (omega arith, (omega arith, (omega arith, (omega arith, tt))))
bump-IsBytes _ = tt

pub next_ipv4-IsBytes : (ip : Ip) → IsBytes (next_ipv4 ip)
next_ipv4-IsBytes ip = bump-IsBytes (to4 ip)

red-IsPrepared : IsPrepared (good_disk absent)
red-IsPrepared = record { there = refl; lockable = refl; openable = refl; writable = refl }

allocate_ip-write_tenant_example :
    (written : Disk TenantData) × (s : TenantStore) × (ip : Ip) × (s' : TenantStore) × (write_tenant
        no_ipv6_text
        (bytes "red")
        (pos 7)
        (pos 24)
        (prefix (ipv4 184811520) 24)
        (ok (17 ∷ 34 ∷ []))
        (good_disk absent)
      ≡ (returns none, written))
    × ((new_tenant_store default_store_dir (bytes "red") written).0 ≡ ok s)
    × (allocate_ip no_ipv6_text next_ipv4 1 container
          (record { tenant_name = bytes "red"; tenant_store = s })
        ≡ returns (ok ip, none, s'))
    × (to4 ip ≡ 11 ∷ 4 ∷ 0 ∷ 2 ∷ [])
    × (s'.disk.file ≡ holds (json s'.value))
    × (key_of_id (bytes "c1") s'.value.ips ≡ some (ip_text no_ipv6_text ip))
allocate_ip-write_tenant_example =
    allocate_ip-write_tenant no_ipv6_text next_ipv4 (bytes "red") (pos 7) (pos 24) 184811520 1
      (ok (17 ∷ 34 ∷ [])) (good_disk absent) container next_ipv4-AddsOne (omega arith) refl
      red-IsPrepared (omega arith)

-- A tenant of 256 addresses whose last address is the one before the broadcast address.
abbrev wide_tenant : TenantData
wide_tenant = record small_tenant { tenant_cidr = bytes "11.4.0.0/24"; last = bytes "11.4.0.254" }

wide-IsReady : IsReady wide_tenant (store_of wide_tenant)
wide-IsReady = record { locked = refl; filed = refl; openable = refl; writable = refl }

wide-IsUnknown : IsUnknown (bytes "c1") wide_tenant
unfolding key_of_id
wide-IsUnknown = refl

wide_reads :
    parse_cidr no_ipv6_text (bytes "11.4.0.0/24")
    ≡ some (as16 (ipv4 184811520), network24 184811520)
unfolding prefix_text addr_text dotted_text octets_of decimal
wide_reads = parse_cidr-prefix_text no_ipv6_text 184811520 24 (omega arith) (omega arith)

wide_last : last_ip no_ipv6_text wide_tenant ≡ as16 (ipv4 184811774)
unfolding last_ip parse_ip parse_addr form_of parse_ipv4 octets as16 octets_of read_digits
wide_last = refl

broadcast_is_free : contains_ip no_ipv6_text (next_ipv4 (as16 (ipv4 184811774))) wide_tenant ≡ false
unfolding contains_ip
broadcast_is_free = refl

abbrev broadcast : Ip
broadcast = next_ipv4 (as16 (ipv4 184811774))

-- The address that it gives out is the broadcast address of the subnet.
allocate_ip_next_example :
    (allocate_ip no_ipv6_text next_ipv4 1 container (ipam_of wide_tenant)
      ≡ returns (
        ok broadcast,
        none,
        stored_with no_ipv6_text
            (with_ip no_ipv6_text broadcast container wide_tenant)
            (store_of wide_tenant),
      ))
    × (to4 broadcast ≡ 11 ∷ 4 ∷ 0 ∷ 255 ∷ [])
allocate_ip_next_example =
    allocate_ip_next no_ipv6_text next_ipv4 next_ipv4-AddsOne 184811520 (omega arith) refl 1
      container (ipam_of wide_tenant) wide_tenant the_bridge 254 wide-IsReady refl wide-IsUnknown
      wide_reads wide_last (omega arith) broadcast_is_free (omega arith)

abbrev red_tenant : TenantData
red_tenant =
    tenant_data_of no_ipv6_text (bytes "red") (pos 7) (pos 24) (prefix (ipv4 184811520) 24)
      (vtep_mac_text (ok (17 ∷ 34 ∷ []))) empty_tenant
