-- ===== src/Ipam/Provision.antt =====
-- The data that `AllocateTenant` writes, as the plugin finds it: a tenant of an IPv4 subnet of 24 bits.
use tenant_cni.Base.{
  List, Result, Text, [], ap, arith, bytes, false, none, ok, refl, returns, some, true, ℕ, ◌%◌,
  ◌++◌, ◌+◌, ◌/◌, ◌<◌, ◌∷◌, ◌≡◌,
}
use tenant_cni.Base.Dict.{lookup}
use tenant_cni.Ipam.Address.{allocate_ip}
use tenant_cni.Ipam.Address.Laws.{IsReady, IsUnknown, stored_with, with_ip}
use tenant_cni.Ipam.Address.Next.{AddsOne, allocate_ip_next}
use tenant_cni.Ipam.Address.Uniqueness.{key_of_id-insert_self}
use tenant_cni.Ipam.NodeStore.{default_store_dir}
use tenant_cni.Ipam.Store.{
  Disk, directory, holds, join, json, make_directory, new_file_lock, new_store_there, opened,
}
use tenant_cni.Ipam.Tenant.{bridge_name, tenant_data_of, vtep_mac_text, write_tenant}
use tenant_cni.Ipam.TenantStore.{
  TenantStore, contains_ip, empty_tenant, key_of_id, last_ip, new_tenant_store, store_tenant_data,
}
use tenant_cni.Ipam.Types.{Bridge, ContainerNetInfo, TenantData}
use tenant_cni.Net.Addr.{Ipv6Text, Prefix, addr_next, ipv4, prefix}
use tenant_cni.Net.ByteNetwork.{network24}
use tenant_cni.Net.Decimal.{ℤ}
use tenant_cni.Net.Ip.{Ip, as16, ip_text, parse_cidr, parse_ip, to4}
use tenant_cni.Net.PrefixText.{parse_addr-addr_text, parse_cidr-prefix_text}

module _ (v6 : Ipv6Text) (name mac : Text) (vni bits : ℤ) (v : ℕ) where
  abbrev pub fresh_tenant : TenantData
  fresh_tenant = tenant_data_of v6 name vni bits (prefix (ipv4 v) 24) mac empty_tenant

  pub fresh-cidr :
      v < 4294967296
      → parse_cidr v6 (TenantData.tenant_cidr fresh_tenant) ≡ some (as16 (ipv4 v), network24 v)
  unfolding tenant_data_of
  fresh-cidr fits = parse_cidr-prefix_text v6 v 24 fits (omega arith)

-- The data that `AllocateTenant` writes for the subnet: no address is given out, and the last one is the
-- gateway's.
pub fresh-last_ip :
    (v6 : Ipv6Text) (name mac : Text) (vni bits : ℤ) (v : ℕ)
    → v + 1 < 4294967296
    → let t = fresh_tenant v6 name mac vni bits v in last_ip v6 t ≡ as16 (ipv4 (v + 1))
unfolding last_ip tenant_data_of addr_next parse_ip
fresh-last_ip v6 name mac vni bits v small = ground (arith, parse_addr-addr_text v6 (v + 1) small)

pub fresh-bridge :
    (v6 : Ipv6Text) (name mac : Text) (vni bits : ℤ) (v : ℕ)
    → let t = fresh_tenant v6 name mac vni bits v in
      t.bridge ≡ some (record { name = bridge_name name; gateway = addr_next (ipv4 v) })
unfolding tenant_data_of
fresh-bridge v6 name mac vni bits v = refl

pub fresh-IsUnknown :
    (v6 : Ipv6Text) (name mac id : Text) (vni bits : ℤ) (v : ℕ)
    → IsUnknown id (fresh_tenant v6 name mac vni bits v)
unfolding tenant_data_of key_of_id
fresh-IsUnknown v6 name mac id vni bits v = refl

pub fresh-contains_ip :
    (v6 : Ipv6Text) (name mac : Text) (vni bits : ℤ) (v : ℕ) (ip : Ip)
    → contains_ip v6 ip (fresh_tenant v6 name mac vni bits v) ≡ false
unfolding tenant_data_of contains_ip
fresh-contains_ip v6 name mac vni bits v ip = refl

fresh-lookup :
    (v6 : Ipv6Text) (name mac : Text) (vni bits : ℤ) (v : ℕ) (key : Text)
    → let t = fresh_tenant v6 name mac vni bits v in lookup key t.ips ≡ none
unfolding tenant_data_of
fresh-lookup v6 name mac vni bits v key = refl

-- The disk can be opened and written, and its directory and its lock are there.
pub record IsPrepared (disk : Disk TenantData) : Type 0 where
  pub there : disk.entry ≡ directory
  pub lockable : disk.lock_error ≡ none
  pub openable : disk.opens ≡ true
  pub writable : disk.writes ≡ true

-- The store that the plugin opens on the file.
abbrev pub provisioned : Text → TenantData → Disk TenantData → TenantStore
provisioned name t disk =
    let dir = join default_store_dir name in
    opened dir (join dir (name ++ bytes ".json")) empty_tenant
      (record disk { file = holds (json t) })

pub provisioned-IsReady :
    (name : Text) (t : TenantData) (disk : Disk TenantData)
    → IsPrepared disk
    → IsReady t (provisioned name t disk)
unfolding new_file_lock
provisioned-IsReady name t disk p = record {
  locked = ground (arith, p.there, p.lockable);
  filed = refl;
  openable = p.openable;
  writable = p.writable;
}

pub write_tenant_prepared :
    (v6 : Ipv6Text) (name : Text) (vni bits : ℤ) (cidr : Prefix) (rand : Result (List ℕ))
    (disk : Disk TenantData)
    → IsPrepared disk
    → write_tenant v6 name vni bits cidr rand disk ≡ (
      returns none,
      record disk {
        file =
            holds (json (tenant_data_of v6 name vni bits cidr (vtep_mac_text rand) empty_tenant));
      },
    )
unfolding write_tenant new_tenant_store store_tenant_data make_directory
write_tenant_prepared v6 name vni bits cidr rand disk p = ground arith

pub opens_there :
    (name : Text) (t : TenantData) (disk : Disk TenantData)
    → IsPrepared disk
    → (new_tenant_store default_store_dir name (record disk { file = holds (json t) })).0
      ≡ ok (provisioned name t disk)
unfolding new_tenant_store
opens_there name t disk p =
    let dir = join default_store_dir name in
    let there =
      new_store_there dir (join dir (name ++ bytes ".json")) empty_tenant
        (record disk { file = holds (json t) }) (λ e. ground (arith, e, p.there)) in
    ap (λ z. z.0) there

-- The plugin's first address of a tenant that was just added: on a disk whose directory and lock are there
-- and that can be written, whatever its file holds, `AllocateTenant` writes the tenant's file for an IPv4
-- subnet of 24 bits that ends in a zero byte, without an error; and the plugin's `AllocateIP` on that
-- file, for any container, with one round or more and a `NextIP` that adds one to the last byte of an IPv4
-- address where that is below 255, gives out the address with the last byte 2. It is on disk under the
-- container's ID.
pub allocate_ip-write_tenant :
    (v6 : Ipv6Text) (next_ip : Ip → Ip) (name : Text) (vni bits : ℤ) (v rounds : ℕ)
    (rand : Result (List ℕ)) (disk : Disk TenantData) (info : ContainerNetInfo)
    → AddsOne next_ip
    → v + 255 < 4294967296
    → v % 256 ≡ 0
    → IsPrepared disk
    → 0 < rounds
    → (written : Disk TenantData) × (s : TenantStore) × (ip : Ip) × (s' : TenantStore)
      × (write_tenant v6 name vni bits (prefix (ipv4 v) 24) rand disk ≡ (returns none, written))
      × ((new_tenant_store default_store_dir name written).0 ≡ ok s)
      × (allocate_ip v6 next_ip rounds info (record { tenant_name = name; tenant_store = s })
          ≡ returns (ok ip, none, s'))
      × (to4 ip ≡ (v / 16777216 % 256) ∷ (v / 65536 % 256) ∷ (v / 256 % 256) ∷ 2 ∷ [])
      × (s'.disk.file ≡ holds (json s'.value))
      × (key_of_id info.id s'.value.ips ≡ some (ip_text v6 ip))
allocate_ip-write_tenant v6 next_ip name vni bits v rounds rand disk info adds_one fits aligned p
      enough =
    let mac = vtep_mac_text rand in
    let t = fresh_tenant v6 name mac vni bits v in
    let s = provisioned name t disk in
    let b : Bridge = record { name = bridge_name name; gateway = addr_next (ipv4 v) } in
    let ip = next_ip (as16 (ipv4 (v + 1))) in
    let (given, four) =
      allocate_ip_next v6 next_ip adds_one v (omega arith) aligned rounds info
        (record { tenant_name = name; tenant_store = s }) t b 1 (provisioned-IsReady name t disk p)
        (fresh-bridge v6 name mac vni bits v) (fresh-IsUnknown v6 name mac info.id vni bits v)
        (fresh-cidr v6 name mac vni bits v (omega arith))
        (fresh-last_ip v6 name mac vni bits v (omega arith)) (omega arith)
        (fresh-contains_ip v6 name mac vni bits v ip) enough in
    (
      record disk { file = holds (json t) },
      s,
      ip,
      stored_with v6 (with_ip v6 ip info t) s,
      write_tenant_prepared v6 name vni bits (prefix (ipv4 v) 24) rand disk p,
      ground (arith, opens_there name t disk p),
      given,
      four,
      refl,
      key_of_id-insert_self (ip_text v6 ip) info t.ips
          (fresh-lookup v6 name mac vni bits v (ip_text v6 ip))
          (fresh-IsUnknown v6 name mac info.id vni bits v),
    )
