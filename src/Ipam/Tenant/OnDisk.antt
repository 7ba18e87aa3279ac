-- ===== src/Ipam/Tenant/OnDisk.antt =====
-- The node's store on its disk: what is read, and what `AllocateTenant` writes.
-- The node's store as it opens on a disk, with a value.
use tenant_cni.Base.{
  List, Result, Text, [], arith, bytes, none, refl, returns, true, ℕ, ◌++◌, ◌∷◌, ◌≡◌, ◌≢◌,
}
use tenant_cni.Ipam.NodeStore.{
  NodeStore, default_store_dir, empty_node, load_node_data, store_node_data,
}
use tenant_cni.Ipam.Store.{
  Disk, holds, join, json, load_value, missing, new_file_lock, opened, store_value, write_file,
}
use tenant_cni.Ipam.Tenant.{
  allocate_tenant, read_prefix, take_subnet, tenant_data_of, vtep_mac_text,
}
use tenant_cni.Ipam.Tenant.Records.{IsWritable, write_tenant_ready, written_disk}
use tenant_cni.Ipam.Tenant.Subnets.{take_subnet-none, taken}
use tenant_cni.Ipam.TenantStore.{empty_tenant}
use tenant_cni.Ipam.Types.{NodeData, TenantData}
use tenant_cni.Net.Addr.{Ipv6Text}
use tenant_cni.Net.Decimal.{ℤ}

abbrev pub node_store_of : Text → Disk NodeData → NodeData → NodeStore
node_store_of name d v =
    let dir = join default_store_dir name in
    record (opened dir (join dir (name ++ bytes ".json")) empty_node d) { value = v }

-- A node's store that is there, can be locked and written, and holds a value.
pub record Holds (name : Text) (d : Disk NodeData) (v : NodeData) : Type 0 where
  pub there : d.entry ≢ missing
  pub lockable : (node_store_of name d v).mutex ≡ true
  pub openable : d.opens ≡ true
  pub writable : d.writes ≡ true
  pub file : d.file ≡ holds (json v)

pub load_node_data_there :
    (s : NodeStore) (v : NodeData)
    → s.disk.file ≡ holds (json v)
    → load_node_data s ≡ (none, record s { value = v })
unfolding load_node_data load_value
load_node_data_there s v h = ground (arith, h)

-- The disk once a value has been written.
abbrev pub rewritten : Disk NodeData → NodeData → Disk NodeData
rewritten d v = record d { file = holds (json v) }

pub store_node_data_there :
    (s : NodeStore)
    → s.disk.opens ≡ true
    → s.disk.writes ≡ true
    → store_node_data s ≡ (none, record s { disk = rewritten s.disk s.value })
unfolding store_node_data store_value write_file
store_node_data_there s o w = ground (arith, o, w)

pub rewritten-Holds :
    (name : Text) (d : Disk NodeData) (v u : NodeData)
    → Holds name d v
    → Holds name (rewritten d u) u
unfolding new_file_lock
rewritten-Holds name d v u h = record {
  there = h.there;
  lockable = h.lockable;
  openable = h.openable;
  writable = h.writable;
  file = refl;
}

-- The data that `AllocateTenant` writes for a tenant with a subnet.
abbrev pub new_tenant : Ipv6Text → Text → ℤ → ℤ → Result (List ℕ) → Text → TenantData
new_tenant v6 name vni bits rand c =
    tenant_data_of v6 name vni bits (read_prefix v6 c) (vtep_mac_text rand) empty_tenant

-- `AllocateTenant` on a store that can be written, with a subnet available.
take_subnet_there :
    (v6 : Ipv6Text) (name : Text) (vni bits : ℤ) (rand : Result (List ℕ)) (s : NodeStore)
    (disk : Disk TenantData) (c : Text) (rest : List Text)
    → s.disk.opens ≡ true
    → s.disk.writes ≡ true
    → s.value.available_list ≡ c ∷ rest
    → IsWritable disk
    → take_subnet v6 name vni bits rand s disk ≡ (
      returns none,
      record s {
        value = taken v6 name c rest s.value;
        disk = rewritten s.disk (taken v6 name c rest s.value);
      },
      written_disk (new_tenant v6 name vni bits rand c) disk,
    )
unfolding take_subnet
take_subnet_there v6 name vni bits rand s disk c rest o wr e w = ground (
  arith,
  e,
  store_node_data_there (record s { value = taken v6 name c rest s.value }) o wr,
  write_tenant_ready v6 name vni bits (read_prefix v6 c) rand disk w,
)

pub allocate_tenant_there :
    (v6 : Ipv6Text) (name : Text) (vni bits : ℤ) (rand : Result (List ℕ)) (node : Text)
    (s : NodeStore) (v : NodeData) (disk : Disk TenantData) (c : Text) (rest : List Text)
    → s.mutex ≡ true
    → s.disk.file ≡ holds (json v)
    → s.disk.opens ≡ true
    → s.disk.writes ≡ true
    → v.available_list ≡ c ∷ rest
    → IsWritable disk
    → allocate_tenant v6 name vni bits rand (record { node_name = node; node_store = s }) disk ≡ (
      returns none,
      record s { value = taken v6 name c rest v; disk = rewritten s.disk (taken v6 name c rest v) },
      written_disk (new_tenant v6 name vni bits rand c) disk,
    )
unfolding allocate_tenant
allocate_tenant_there v6 name vni bits rand node s v disk c rest lockable file o wr e w =
    let ran =
      take_subnet_there v6 name vni bits rand (record s { value = v }) disk c rest o wr e w in
    ground (arith, load_node_data_there s v file, lockable, ran)

-- The node's file after `AllocateTenant`, however it ends: what happens to the tenant's file is open.
take_subnet-disk :
    (v6 : Ipv6Text) (name : Text) (vni bits : ℤ) (rand : Result (List ℕ)) (s : NodeStore)
    (disk : Disk TenantData) (c : Text) (rest : List Text)
    → s.disk.opens ≡ true
    → s.disk.writes ≡ true
    → s.value.available_list ≡ c ∷ rest
    → (take_subnet v6 name vni bits rand s disk).1.disk
      ≡ rewritten s.disk (taken v6 name c rest s.value)
unfolding take_subnet
take_subnet-disk v6 name vni bits rand s disk c rest o w e =
    ground (arith, e, store_node_data_there (record s { value = taken v6 name c rest s.value }) o w)

module _ (v6 : Ipv6Text) (name : Text) (vni bits : ℤ) (rand : Result (List ℕ)) (node : Text)
    (d : Disk NodeData) (v : NodeData) (disk : Disk TenantData) (h : Holds node d v) where
  abbrev allocated_disk : Disk NodeData
  allocated_disk =
      (allocate_tenant v6 name vni bits rand
        (record { node_name = node; node_store = node_store_of node d v }) disk).1.disk

  pub allocate_tenant-disk :
      (c : Text) (rest : List Text)
      → v.available_list ≡ c ∷ rest
      → allocated_disk ≡ rewritten d (taken v6 name c rest v)
  unfolding allocate_tenant
  allocate_tenant-disk c rest e =
      let s = node_store_of node d v in
      let ran = take_subnet-disk v6 name vni bits rand s disk c rest h.openable h.writable e in
      ground (arith, load_node_data_there s v h.file, h.lockable, ran)

  pub allocate_tenant-disk_none : v.available_list ≡ [] → allocated_disk ≡ d
  unfolding allocate_tenant
  allocate_tenant-disk_none e =
      let s = node_store_of node d v in
      let ran = take_subnet-none v6 name vni bits rand s disk e in
      ground (arith, load_node_data_there s v h.file, h.lockable, ran)
