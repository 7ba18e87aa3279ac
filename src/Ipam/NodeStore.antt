-- ===== src/Ipam/NodeStore.antt =====
-- pkg/network/ipam/node_store.go
use tenant_cni.Base.{Option, List, [], ◌++◌, Text, bytes, if◌then◌else◌, is_empty, Error, Result}
use tenant_cni.Ipam.Types.{NodeData}
use tenant_cni.Ipam.Store.{Disk, Store, join, new_store, store_value, load_value}

abbrev pub default_store_dir : Text
default_store_dir = bytes "/var/lib/cni/tenantcni"

abbrev pub NodeStore : Type 0
NodeStore = Store NodeData

abbrev pub empty_node : NodeData
empty_node = record { node_ip = []; node_cidr = []; available_list = []; tenant_list = [] }

unfoldable pub new_node_store : Text → Text → Disk NodeData → Result NodeStore × Disk NodeData
unfolding new_store
new_node_store data_dir node_name disk =
    let root = if is_empty data_dir then default_store_dir else data_dir in
    let dir = join root node_name in
    new_store dir (join dir (node_name ++ bytes ".json")) empty_node disk

unfoldable pub store_node_data : NodeStore → Option Error × NodeStore
unfolding store_value
store_node_data = store_value

unfoldable pub load_node_data : NodeStore → Option Error × NodeStore
unfolding load_value
load_node_data = load_value empty_node

unfoldable pub add_available_tenant_list : List Text → NodeStore → Option Error × NodeStore
unfolding store_node_data
add_available_tenant_list avail s =
    let v = s.value in store_node_data (record s { value = record v { available_list = avail } })

unfoldable pub add_node_cidr : Text → NodeStore → Option Error × NodeStore
unfolding store_node_data
add_node_cidr cidr s =
    let v = s.value in store_node_data (record s { value = record v { node_cidr = cidr } })

unfoldable pub add_node_ip : Text → NodeStore → Option Error × NodeStore
unfolding store_node_data
add_node_ip ip s =
    let v = s.value in store_node_data (record s { value = record v { node_ip = ip } })
