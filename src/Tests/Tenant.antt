-- ===== src/Tests/Tenant.antt =====
-- The subnets of a node, the tenants' files and names.
use mathlib.Core.List.Pairwise
use mathlib.Core.HLevel.{⊥_prop}
use mathlib.Core.List.{Nodup, Perm, eq-or-mem_of_mem-cons, not-mem-nil}
use mathlib.Core.Logic.{∥∥₁_elim}
use tenant_cni.Base.{
  List, Result, Text, [], arith, bytes, false, inl, inr, length, none, ok, panics, refl, returns,
  some, text_dec, true, ℕ, ◌%◌, ◌++◌, ◌+◌, ◌∷◌, ◌≡◌, ◌≢◌, ◌≤◌,
}
use tenant_cni.Base.Dict.{lookup}
use tenant_cni.Ipam.Hardware.{new_hardware_addr, new_hardware_addr_local}
use tenant_cni.Ipam.NodeStore.{
  NodeStore, default_store_dir, empty_node, load_node_data, store_node_data,
}
use tenant_cni.Ipam.Store.{Disk, absent, holds, json, make_directory, missing}
use tenant_cni.Ipam.Tenant.{
  NodeIpam, allocate_tenant, bridge_name, read_prefix, take_subnet, tenant_data_of, vtep_mac_text,
  write_tenant,
}
use tenant_cni.Ipam.Tenant.Records.{
  IsWritable, bridge_name_clash, bridge_name_fits, load_tenant_data-write_tenant, written_disk,
}
use tenant_cni.Ipam.Tenant.Subnets.{
  allocate_tenant_conserves, allocate_tenant_exclusive, allocate_tenant_leaks, subnets, taken,
}
use tenant_cni.Ipam.TenantStore.{
  TenantStore, empty_tenant, load_tenant_data, new_tenant_store, store_tenant_data,
}
use tenant_cni.Ipam.Types.{NodeData, TenantData}
use tenant_cni.Net.Addr.{
  addr_next, addr_text, form_of, ipv4, octets, parse_addr, parse_ipv4, parse_prefix, prefix,
  prefix_text,
}
use tenant_cni.Net.Decimal.{decimal_int, pos, read_digits}
use tenant_cni.Net.Ip.{ip_equal, ip_text, parse_ip, to4}
use tenant_cni.Net.RoundTrip.{ip_equal-parse_ip}
use tenant_cni.Tests.{good_disk, no_ipv6_text}

abbrev pub two_subnets : NodeData
two_subnets = record {
  node_ip = bytes "192.168.0.2";
  node_cidr = bytes "11.4.0.0/23";
  available_list = bytes "11.4.0.0/24" ∷ bytes "11.4.1.0/24" ∷ [];
  tenant_list = [];
}

abbrev node_store_of : NodeData → NodeData → NodeStore
node_store_of memory file = record {
  mutex = true;
  directory = bytes "n1";
  value = memory;
  data_file = bytes "n1.json";
  disk = good_disk (holds (json file));
}

abbrev node_ipam_of : NodeData → NodeIpam
node_ipam_of v = record { node_name = bytes "n1"; node_store = node_store_of empty_node v }

abbrev pub random_bytes : Result (List ℕ)
random_bytes = ok (17 ∷ 34 ∷ 51 ∷ 68 ∷ 85 ∷ 102 ∷ [])

abbrev fresh_disk : Disk TenantData
fresh_disk = good_disk absent

loads_node :
    (v : NodeData) → load_node_data (node_store_of empty_node v) ≡ (none, node_store_of v v)
unfolding load_node_data
loads_node v = refl

abbrev red : Text
red = bytes "red"

-- The first available subnet goes to the tenant.
abbrev after_red : NodeData → NodeData
after_red v = taken no_ipv6_text red (bytes "11.4.0.0/24") (bytes "11.4.1.0/24" ∷ []) v

abbrev red_disk : Disk TenantData
red_disk =
    written_disk
      (tenant_data_of no_ipv6_text red (pos 7) (pos 24)
        (read_prefix no_ipv6_text (bytes "11.4.0.0/24")) (vtep_mac_text random_bytes) empty_tenant)
      fresh_disk

abbrev pub red_again : NodeData
red_again = record two_subnets { tenant_list = (red, prefix (ipv4 184811776) 24) ∷ [] }

allocated :
    allocate_tenant no_ipv6_text red
      (pos 7)
      (pos 24)
      random_bytes
      (node_ipam_of two_subnets)
      fresh_disk
    ≡ (returns none, node_store_of (after_red two_subnets) (after_red two_subnets), red_disk)
unfolding allocate_tenant take_subnet load_node_data store_node_data write_tenant new_tenant_store
    store_tenant_data make_directory
allocated = refl

-- The directory of the tenant's store cannot be made.
abbrev closed_disk : Disk TenantData
closed_disk = record fresh_disk { entry = missing; makes = false }

allocated_nowhere :
    allocate_tenant no_ipv6_text red
      (pos 7)
      (pos 24)
      random_bytes
      (node_ipam_of two_subnets)
      closed_disk
    ≡ (panics, node_store_of (after_red two_subnets) (after_red two_subnets), closed_disk)
unfolding allocate_tenant take_subnet load_node_data store_node_data write_tenant new_tenant_store
    make_directory
allocated_nowhere = refl

allocated_again :
    allocate_tenant no_ipv6_text red
      (pos 7)
      (pos 24)
      random_bytes
      (node_ipam_of red_again)
      fresh_disk
    ≡ (returns none, node_store_of (after_red red_again) (after_red red_again), red_disk)
unfolding allocate_tenant take_subnet load_node_data store_node_data write_tenant new_tenant_store
    store_tenant_data make_directory
allocated_again = refl

pub two_differ : Nodup (subnets no_ipv6_text two_subnets)
unfolding read_prefix parse_prefix parse_addr form_of parse_ipv4 octets read_digits
two_differ =
    Pairwise.cons
      (λ x m e. ∥∥₁_elim (eq-or-mem_of_mem-cons m) ⊥_prop (λ o. elim o [
        | inl same ↦ ground (arith, e, same)
        | inr none_left ↦ not-mem-nil none_left
      ]))
      (Pairwise.cons (λ x m e. not-mem-nil m) Pairwise.nil)

is_known : lookup red red_again.tenant_list ≢ none
unfolding text_dec
is_known e = ground (arith, e)

allocate_tenant_conserves_example :
    Perm (subnets no_ipv6_text (after_red two_subnets)) (subnets no_ipv6_text two_subnets)
allocate_tenant_conserves_example =
    allocate_tenant_conserves no_ipv6_text red (pos 7) (pos 24) random_bytes
      (node_ipam_of two_subnets) closed_disk (node_store_of two_subnets two_subnets)
      (node_store_of (after_red two_subnets) (after_red two_subnets)) panics closed_disk refl
      (loads_node two_subnets) allocated_nowhere refl

allocate_tenant_exclusive_example :
    Nodup (subnets no_ipv6_text (after_red two_subnets))
    × (lookup red (after_red two_subnets).tenant_list
        ≡ some (read_prefix no_ipv6_text (bytes "11.4.0.0/24")))
    × ((after_red two_subnets).available_list ≡ bytes "11.4.1.0/24" ∷ [])
allocate_tenant_exclusive_example =
    allocate_tenant_exclusive no_ipv6_text red (pos 7) (pos 24) random_bytes
      (node_ipam_of two_subnets) fresh_disk (node_store_of two_subnets two_subnets)
      (node_store_of (after_red two_subnets) (after_red two_subnets)) (returns none) red_disk refl
      (loads_node two_subnets) allocated (bytes "11.4.0.0/24") (bytes "11.4.1.0/24" ∷ []) refl
      two_differ refl

allocate_tenant_leaks_example :
    length (subnets no_ipv6_text (after_red red_again)) + 1
    ≡ length (subnets no_ipv6_text red_again)
allocate_tenant_leaks_example =
    allocate_tenant_leaks no_ipv6_text red (pos 7) (pos 24) random_bytes (node_ipam_of red_again)
      fresh_disk (node_store_of red_again red_again)
      (node_store_of (after_red red_again) (after_red red_again)) (returns none) red_disk refl
      (loads_node red_again) allocated_again (bytes "11.4.0.0/24") (bytes "11.4.1.0/24" ∷ [])
      is_known refl

pub fresh-IsWritable : IsWritable fresh_disk
unfolding make_directory
fresh-IsWritable = record { makes_directory = refl; openable = refl; writable = refl }

load_tenant_data-write_tenant_example :
    (written : Disk TenantData) × (s : TenantStore) × (write_tenant no_ipv6_text red
        (pos 7)
        (pos 24)
        (prefix (ipv4 184811520) 24)
        random_bytes
        fresh_disk
      ≡ (returns none, written))
    × ((new_tenant_store default_store_dir red written).0 ≡ ok s)
    × (load_tenant_data s ≡ (
      none,
      record s {
        value = record {
          tenant_name = red;
          tenant_prefix = pos 24;
          tenant_cidr = prefix_text no_ipv6_text (prefix (ipv4 184811520) 24);
          bridge = some (record { name = bridge_name red; gateway = addr_next (ipv4 184811520) });
          vxlan = some (record {
            vtep_name = red ++ (b'.' ∷ decimal_int (pos 7));
            vtep_ip = addr_text no_ipv6_text (ipv4 184811520);
            vtep_mac = vtep_mac_text random_bytes;
            vni = pos 7;
          });
          ips = [];
          last = addr_text no_ipv6_text (addr_next (ipv4 184811520));
        };
      },
    ))
load_tenant_data-write_tenant_example =
    load_tenant_data-write_tenant no_ipv6_text red (pos 7) (pos 24) (prefix (ipv4 184811520) 24)
      random_bytes fresh_disk fresh-IsWritable

bridge_name_clash_example : bridge_name (bytes "production-a") ≡ bridge_name (bytes "production-b")
bridge_name_clash_example =
    bridge_name_clash (bytes "production-a") (bytes "production-b") (omega arith) (omega arith)

bridge_name_fits_example : length (bridge_name (bytes "production-a")) ≤ 12
bridge_name_fits_example = bridge_name_fits (bytes "production-a")

new_hardware_addr_local_example :
    (first : ℕ) × (new_hardware_addr (ok (17 ∷ 34 ∷ [])) ≡ ok (first ∷ 34 ∷ [])) × (first % 4 ≡ 2)
new_hardware_addr_local_example = new_hardware_addr_local 17 (34 ∷ []) (omega arith)

ip_equal-parse_ip_example :
    ip_equal
      (parse_ip no_ipv6_text (ip_text no_ipv6_text (11 ∷ 4 ∷ 1 ∷ 2 ∷ [])))
      (11 ∷ 4 ∷ 1 ∷ 2 ∷ [])
    ≡ true
unfolding to4
ip_equal-parse_ip_example =
    ip_equal-parse_ip no_ipv6_text (11 ∷ 4 ∷ 1 ∷ 2 ∷ []) refl
      (omega arith, (omega arith, (omega arith, (omega arith, tt))))
