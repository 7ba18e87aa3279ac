-- ===== src/Ipam/TenantStore.antt =====
-- pkg/network/ipam/tenant_store.go
use tenant_cni.Base.{
  Bool, true, false, Option, none, some, List, [], ◌++◌, ◌∷◌, Text, bytes, if◌then◌else◌, is_empty,
  text_eq, Error, Result, ok, err,
}
use tenant_cni.Base.Dict.{Dict, contains, insert, erase}
use tenant_cni.Net.Addr.{Ipv6Text}
use tenant_cni.Net.Decimal.{pos}
use tenant_cni.Net.Ip.{Ip, parse_ip, ip_text}
use tenant_cni.Ipam.Types.{TenantData, ContainerNetInfo}
use tenant_cni.Ipam.NodeStore.{default_store_dir}
use tenant_cni.Ipam.Store.{Disk, missing, absent, Store, join, new_store, store_value, load_value}

abbrev pub TenantStore : Type 0
TenantStore = Store TenantData

abbrev pub empty_tenant : TenantData
empty_tenant = record {
  tenant_name = [];
  tenant_prefix = pos 0;
  tenant_cidr = [];
  bridge = none;
  vxlan = none;
  ips = [];
  last = [];
}

unfoldable pub new_tenant_store :
    Text → Text → Disk TenantData → Result TenantStore × Disk TenantData
unfolding new_store
new_tenant_store data_dir tenant_name disk =
    let root = if is_empty data_dir then default_store_dir else data_dir in
    let dir = join root tenant_name in
    new_store dir (join dir (tenant_name ++ bytes ".json")) empty_tenant disk

unfoldable pub store_tenant_data : TenantStore → Option Error × TenantStore
unfolding store_value
store_tenant_data = store_value

unfoldable pub load_tenant_data : TenantStore → Option Error × TenantStore
unfolding load_value
load_tenant_data = load_value empty_tenant

-- The directory's entries are removed one after another; the first failure ends the loop.
unfoldable pub remove_entries :
    Text → (Text → Option Error) → List Text → Disk TenantData → Option Error × Disk TenantData
remove_entries file remove [] disk = (none, disk)
remove_entries file remove (name ∷ names) disk = elim (remove name) [
  | some e ↦ (some e, disk)
  | none ↦
      remove_entries file remove names
        (if text_eq name file then record disk { file = absent } else disk)
]

-- `DeleteTenantStore`. `entries` is what `os.ReadDir` answers, `remove` what `os.RemoveAll` answers
-- for each entry, and for the directory itself at the empty name.
unfoldable pub delete_tenant_store :
    Text
    → Result (List Text)
    → (Text → Option Error)
    → Disk TenantData
    → Option Error × Disk TenantData
unfolding remove_entries
delete_tenant_store tenant_name (err e) remove disk = (some e, disk)
delete_tenant_store tenant_name (ok names) remove disk =
    let (failed, emptied) = remove_entries (tenant_name ++ bytes ".json") remove names disk in
    elim failed [
      | some e ↦ (some e, emptied)
      | none ↦ elim (remove []) [
        | some e ↦ (some e, emptied)
        | none ↦ (none, record emptied { entry = missing; file = absent })
      ]
    ]

-- The first entry of the map, in the order in which `range` visits it, that has the ID.
unfoldable pub key_of_id : Text → Dict ContainerNetInfo → Option Text
key_of_id id [] = none
key_of_id id ((key, info) ∷ ips) = if text_eq info.id id then some key else key_of_id id ips

unfoldable pub get_ip_by_id : Ipv6Text → Text → TenantData → Ip × Bool
unfolding key_of_id
get_ip_by_id v6 id tenant = elim (key_of_id id tenant.ips) [
  | none ↦ ([], false)
  | some key ↦ (parse_ip v6 key, true)
]

unfoldable pub add : Ipv6Text → Ip → ContainerNetInfo → TenantStore → Option Error × TenantStore
unfolding store_tenant_data
add v6 [] info s = (none, s)
add v6 (b ∷ bs) info s =
    let v = s.value in
    store_tenant_data
      (record s { value = record v { ips = insert (ip_text v6 (b ∷ bs)) info v.ips } })

unfoldable pub contains_ip : Ipv6Text → Ip → TenantData → Bool
contains_ip v6 ip tenant = contains (ip_text v6 ip) tenant.ips

unfoldable pub del : Text → TenantStore → Option Error × TenantStore
unfolding key_of_id store_tenant_data
del id s =
    let v = s.value in
    elim (key_of_id id v.ips) [
      | none ↦ (none, s)
      | some key ↦ store_tenant_data (record s { value = record v { ips = erase key v.ips } })
    ]

unfoldable pub last_ip : Ipv6Text → TenantData → Ip
last_ip v6 tenant = parse_ip v6 tenant.last
