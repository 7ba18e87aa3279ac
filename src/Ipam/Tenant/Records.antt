-- ===== src/Ipam/Tenant/Records.antt =====
-- What `AllocateTenant` writes into the tenant's file, and the names that it makes.
use tenant_cni.Base.{
  List, Result, Text, [], arith, bytes, err, false, length, none, ok, returns, some, true, ℕ, ◌++◌,
  ◌∷◌, ◌≡◌, ◌≤◌,
}
use tenant_cni.Ipam.NodeStore.{default_store_dir}
use tenant_cni.Ipam.Store.{Disk, holds, join, json, make_directory, new_file_lock, opened}
use tenant_cni.Ipam.Tenant.{bridge_name, tenant_data_of, vtep_mac_text, write_tenant}
use tenant_cni.Ipam.TenantStore.{
  TenantStore, empty_tenant, load_tenant_data, new_tenant_store, store_tenant_data,
}
use tenant_cni.Ipam.Types.{TenantData}
use tenant_cni.Net.Addr.{Ipv6Text, Prefix, addr_next, addr_text, prefix_addr, prefix_text}
use tenant_cni.Net.Decimal.{decimal_int, ℤ}

-- A bridge's name has at most twelve bytes, and so fits an interface name of Linux (fifteen).
pub bridge_name_fits : (name : Text) → length (bridge_name name) ≤ 12
unfolding bridge_name
bridge_name_fits name = ground arith

-- Two tenants whose names both have ten bytes or more have bridges of one name.
pub bridge_name_clash : (a b : Text) → 10 ≤ length a → 10 ≤ length b → bridge_name a ≡ bridge_name b
unfolding bridge_name
bridge_name_clash a b h k = ground arith

-- The disk can make the directory, open the file and write it.
pub record IsWritable (disk : Disk TenantData) : Type 0 where
  pub makes_directory : (make_directory disk).0 ≡ none
  pub openable : disk.opens ≡ true
  pub writable : disk.writes ≡ true

-- The disk once the data has been written.
abbrev pub written_disk : TenantData → Disk TenantData → Disk TenantData
written_disk t disk = let made = (make_directory disk).1 in record made { file = holds (json t) }

pub write_tenant_ready :
    (v6 : Ipv6Text) (name : Text) (vni bits : ℤ) (cidr : Prefix) (rand : Result (List ℕ))
    (disk : Disk TenantData)
    → IsWritable disk
    → write_tenant v6 name vni bits cidr rand disk ≡ (
      returns none,
      written_disk (tenant_data_of v6 name vni bits cidr (vtep_mac_text rand) empty_tenant) disk,
    )
unfolding write_tenant new_tenant_store store_tenant_data make_directory
write_tenant_ready v6 name vni bits cidr rand disk w = ground arith

reopened :
    (name : Text) (t : TenantData) (disk : Disk TenantData)
    → IsWritable disk
    → (s : TenantStore) × ((new_tenant_store default_store_dir name (written_disk t disk)).0 ≡ ok s)
      × (load_tenant_data s ≡ (none, record s { value = t }))
unfolding new_tenant_store load_tenant_data make_directory
reopened name t disk w =
    let dir = join default_store_dir name in
    let d = written_disk t disk in
    (
      record {
        mutex = elim (new_file_lock dir d) [ ok _ ↦ true | err _ ↦ false ];
        directory = dir;
        value = empty_tenant;
        data_file = join dir (name ++ bytes ".json");
        disk = d;
      },
      ground arith,
      ground arith,
    )

-- Where `AllocateTenant` writes the tenant's data on a disk that can be written, it reports no error, and
-- `NewTenantStore` and `LoadTenantData` then read this back, whatever the file held before: the tenant's
-- name and prefix, the text of its subnet, a bridge whose gateway is the next address after the subnet's
-- own, a VXLAN device with the VNI, the subnet's own address and the new hardware address, and named by
-- the tenant and the VNI, no container, and the gateway's address as the last one given out.
pub load_tenant_data-write_tenant :
    (v6 : Ipv6Text) (name : Text) (vni bits : ℤ) (cidr : Prefix) (rand : Result (List ℕ))
    (disk : Disk TenantData)
    → IsWritable disk
    → (written : Disk TenantData) × (s : TenantStore) × (write_tenant v6 name vni bits cidr rand
          disk
        ≡ (returns none, written))
      × ((new_tenant_store default_store_dir name written).0 ≡ ok s)
      × (load_tenant_data s ≡ (
        none,
        record s {
          value = record {
            tenant_name = name;
            tenant_prefix = bits;
            tenant_cidr = prefix_text v6 cidr;
            bridge =
                some (record { name = bridge_name name; gateway = addr_next (prefix_addr cidr) });
            vxlan = some (record {
              vtep_name = name ++ (b'.' ∷ decimal_int vni);
              vtep_ip = addr_text v6 (prefix_addr cidr);
              vtep_mac = vtep_mac_text rand;
              vni = vni;
            });
            ips = [];
            last = addr_text v6 (addr_next (prefix_addr cidr));
          };
        },
      ))
unfolding tenant_data_of
load_tenant_data-write_tenant v6 name vni bits cidr rand disk w =
    let t = tenant_data_of v6 name vni bits cidr (vtep_mac_text rand) empty_tenant in
    let (s, opened, loads) = reopened name t disk w in
    (written_disk t disk, s, write_tenant_ready v6 name vni bits cidr rand disk w, opened, loads)
