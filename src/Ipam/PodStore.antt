-- ===== src/Ipam/PodStore.antt =====
-- pkg/network/ipam/pod_store.go
use tenant_cni.Base.{Option, [], Text, bytes, Error, Result}
use tenant_cni.Ipam.Types.{PodData}
use tenant_cni.Ipam.Store.{Disk, Store, join, new_store, store_value, load_value}

abbrev pub default_pod_store : Text
default_pod_store = bytes "/var/lib/cni/tenantcni/podlist"

abbrev pub PodStore : Type 0
PodStore = Store PodData

abbrev pub empty_pods : PodData
empty_pods = record { pods = [] }

unfoldable pub new_pod_store : Disk PodData → Result PodStore × Disk PodData
unfolding new_store
new_pod_store disk =
    new_store default_pod_store (join default_pod_store (bytes "podlist.json")) empty_pods disk

unfoldable pub store_pod_data : PodStore → Option Error × PodStore
unfolding store_value
store_pod_data = store_value

unfoldable pub load_pod_data : PodStore → Option Error × PodStore
unfolding load_value
load_pod_data = load_value empty_pods
