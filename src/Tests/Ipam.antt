-- ===== src/Tests/Ipam.antt =====
-- The addresses of a tenant's pods.
use tenant_cni.Base.{
  Error, Option, [], arith, bytes, false, length, none, ok, refl, returns, runs_on, text_dec, true,
  ◌<◌, ◌∷◌, ◌≡◌,
}
use tenant_cni.Ipam.Address.{TenantIpam, allocate_ip, release_ip, tenant_next_ip}
use tenant_cni.Ipam.Address.Consistency.{
  IsConsistent, IsIpv4Subnet, allocate_ip-IsConsistent, release_ip-IsConsistent,
}
use tenant_cni.Ipam.Address.Exhausted.{allocate_ip_exhausted}
use tenant_cni.Ipam.Address.Laws.{
  IsReady, IsUnknown, allocate_ip_first, load_tenant_data_ready, stored_with, with_ip,
}
use tenant_cni.Ipam.Address.Search.{Busy, IsOverflow, after, in_subnet}
use tenant_cni.Ipam.Address.Session.{allocate_ip_found, release_ip-allocate_ip}
use tenant_cni.Ipam.TenantStore.{TenantStore, contains_ip, key_of_id, last_ip, load_tenant_data}
use tenant_cni.Ipam.Types.{ContainerNetInfo, TenantData}
use tenant_cni.Net.Addr.{dotted_text, form_of, octets, octets_of, parse_addr, parse_ipv4}
use tenant_cni.Net.Decimal.{decimal, read_digits}
use tenant_cni.Net.Ip.{
  Ip, as16, cidr_mask, ip_equal, ip_mask, ip_text, net_contains, parse_cidr, parse_ip, to4,
}
use tenant_cni.Net.RoundTrip.{IsBytes}
use tenant_cni.Tests.{
  ipam_of, next_address, next_address-IsBytes, next_address_nil, no_ipv6_text, small_tenant,
  store_of, the_bridge,
}

abbrev pub container : ContainerNetInfo
container = record {
  id = bytes "c1";
  if_name = bytes "eth0";
  net_ns = bytes "/var/run/netns/a";
  name = bytes "web";
}

abbrev pub gateway_ip : Ip
gateway_ip = 0 ∷ 0 ∷ 0 ∷ 0 ∷ 0 ∷ 0 ∷ 0 ∷ 0 ∷ 0 ∷ 0 ∷ 255 ∷ 255 ∷ 11 ∷ 4 ∷ 1 ∷ 1 ∷ []

pub small-IsReady : IsReady small_tenant (store_of small_tenant)
small-IsReady = record { locked = refl; filed = refl; openable = refl; writable = refl }

gateway_is_last : last_ip no_ipv6_text small_tenant ≡ gateway_ip
unfolding last_ip parse_ip parse_addr form_of parse_ipv4 octets as16 octets_of read_digits
gateway_is_last = refl

pub small_is_ipv4 : IsIpv4Subnet no_ipv6_text small_tenant
unfolding parse_cidr parse_addr form_of parse_ipv4 octets as16 octets_of read_digits ip_mask
    cidr_mask text_dec
small_is_ipv4 = record {
  address = _;
  net = record { ip = 11 ∷ 4 ∷ 1 ∷ 0 ∷ []; mask = 255 ∷ 255 ∷ 255 ∷ 252 ∷ [] };
  reads = refl;
  four = refl;
}

first_is_within : in_subnet no_ipv6_text next_address small_tenant (next_address gateway_ip) ≡ true
unfolding parse_cidr net_contains to4 parse_addr form_of parse_ipv4 octets as16 octets_of
    read_digits ip_mask cidr_mask text_dec next_address
first_is_within = refl

first_is_free : contains_ip no_ipv6_text (next_address gateway_ip) small_tenant ≡ false
unfolding contains_ip
first_is_free = refl

pub is_unknown : IsUnknown (bytes "c1") small_tenant
unfolding key_of_id
is_unknown = refl

next_is_long : 0 < length (next_address gateway_ip)
unfolding next_address
next_is_long = omega arith

pub small-IsConsistent : IsConsistent no_ipv6_text small_tenant
small-IsConsistent = record { keys_once = tt; ids_once = tt; readable = tt }

abbrev pub the_next : Ip
the_next = next_address gateway_ip

abbrev pub left_store : TenantStore
left_store =
    stored_with no_ipv6_text (with_ip no_ipv6_text the_next container small_tenant)
      (store_of small_tenant)

abbrev given : TenantData
given = with_ip no_ipv6_text the_next container small_tenant

allocate_ip_first_example :
    allocate_ip no_ipv6_text next_address 3 container (ipam_of small_tenant)
    ≡ returns (ok the_next, none, left_store)
allocate_ip_first_example =
    allocate_ip_first no_ipv6_text next_address 3 0 container (ipam_of small_tenant) small_tenant
      the_bridge gateway_ip small-IsReady refl is_unknown gateway_is_last (omega arith)
      (omega arith) tt first_is_within first_is_free next_is_long

pub run :
    allocate_ip no_ipv6_text next_address 3 container (ipam_of small_tenant)
    ≡ returns (ok the_next, none, left_store)
run =
    allocate_ip_first no_ipv6_text next_address 3 0 container (ipam_of small_tenant) small_tenant
      the_bridge gateway_ip small-IsReady refl is_unknown gateway_is_last (omega arith)
      (omega arith) tt first_is_within first_is_free next_is_long

abbrev no_error : Option Error
no_error = none

allocate_ip_found_example :
    (no_error ≡ none)
    × (left_store ≡ left_store)
    × (in_subnet no_ipv6_text next_address small_tenant the_next ≡ true)
    × (contains_ip no_ipv6_text the_next small_tenant ≡ false)
    × (length (to4 the_next) ≡ 4)
    × IsBytes the_next
allocate_ip_found_example =
    allocate_ip_found no_ipv6_text next_address next_address-IsBytes 3 container
      (ipam_of small_tenant) small_tenant the_next none left_store small-IsReady small_is_ipv4
      is_unknown run

release_ip-allocate_ip_example :
    release_ip (bytes "c1") (record { tenant_name = bytes "red"; tenant_store = left_store })
    ≡ returns (
      none,
      stored_with no_ipv6_text
          (record small_tenant { last = ip_text no_ipv6_text the_next })
          (store_of small_tenant),
    )
release_ip-allocate_ip_example =
    release_ip-allocate_ip no_ipv6_text next_address next_address-IsBytes 3 container
      (ipam_of small_tenant) small_tenant the_next none left_store small-IsReady small_is_ipv4
      is_unknown run

allocate_ip-IsConsistent_example : IsConsistent no_ipv6_text given
unfolding load_tenant_data
allocate_ip-IsConsistent_example =
    allocate_ip-IsConsistent no_ipv6_text next_address next_address-IsBytes 3 container
      (ipam_of small_tenant) (ok the_next) none left_store small-IsConsistent small_is_ipv4 run

left-IsReady : IsReady given left_store
left-IsReady = record { locked = refl; filed = refl; openable = refl; writable = refl }

given-IsConsistent : IsConsistent no_ipv6_text given
unfolding load_tenant_data
given-IsConsistent =
    allocate_ip-IsConsistent no_ipv6_text next_address next_address-IsBytes 3 container
      (ipam_of small_tenant) (ok the_next) none left_store small-IsConsistent small_is_ipv4 run

abbrev left_ipam : TenantIpam
left_ipam = record { tenant_name = bytes "red"; tenant_store = left_store }

abbrev pub released_store : TenantStore
released_store =
    stored_with no_ipv6_text (record small_tenant { last = ip_text no_ipv6_text the_next })
      (store_of small_tenant)

pub released_run : release_ip (bytes "c1") left_ipam ≡ returns (none, released_store)
released_run =
    release_ip-allocate_ip no_ipv6_text next_address next_address-IsBytes 3 container
      (ipam_of small_tenant) small_tenant the_next none left_store small-IsReady small_is_ipv4
      is_unknown run

release_ip-IsConsistent_example :
    IsConsistent no_ipv6_text released_store.value × IsUnknown (bytes "c1") released_store.value
release_ip-IsConsistent_example =
    release_ip-IsConsistent no_ipv6_text (bytes "c1") left_ipam none
      (record left_store { value = given }) released_store
      (load_tenant_data_ready given left_store left-IsReady) given-IsConsistent released_run

-- A tenant whose two addresses behind the gateway are given out.
abbrev other : ContainerNetInfo
other = record { id = bytes "c0"; if_name = bytes "eth0"; net_ns = []; name = bytes "db" }

abbrev full_tenant : TenantData
full_tenant = record small_tenant {
  ips = (bytes "11.4.1.2", other) ∷ (bytes "11.4.1.3", other) ∷ [];
}

full-IsReady : IsReady full_tenant (store_of full_tenant)
full-IsReady = record { locked = refl; filed = refl; openable = refl; writable = refl }

full_is_ipv4 : IsIpv4Subnet no_ipv6_text full_tenant
full_is_ipv4 = record {
  address = small_is_ipv4.address;
  net = small_is_ipv4.net;
  reads = small_is_ipv4.reads;
  four = small_is_ipv4.four;
}

full-IsUnknown : IsUnknown (bytes "c1") full_tenant
unfolding key_of_id text_dec
full-IsUnknown = refl

full-Busy : Busy no_ipv6_text next_address full_tenant gateway_ip 2 gateway_ip
unfolding parse_cidr net_contains to4 parse_addr form_of parse_ipv4 octets as16 octets_of
    read_digits ip_mask cidr_mask text_dec next_address contains_ip ip_text dotted_text decimal
    ip_equal
full-Busy = (refl, refl, refl, (refl, refl, refl, tt))

full_ends :
    IsOverflow no_ipv6_text next_address full_tenant (after no_ipv6_text next_address 2 gateway_ip)
unfolding tenant_next_ip parse_cidr net_contains to4 parse_addr form_of parse_ipv4 octets as16
    octets_of read_digits ip_mask cidr_mask text_dec next_address
full_ends = refl

allocate_ip_exhausted_example :
    allocate_ip no_ipv6_text next_address 1000 container (ipam_of full_tenant) ≡ runs_on
unfolding last_ip
allocate_ip_exhausted_example =
    allocate_ip_exhausted no_ipv6_text next_address next_address_nil 1000 2 container
      (ipam_of full_tenant) full_tenant the_bridge 184811777 gateway_ip full-IsReady refl refl
      full_is_ipv4 full-IsUnknown gateway_is_last refl full-Busy full_ends
