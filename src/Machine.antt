-- ===== src/Machine.antt =====
-- A node that the daemon and the plugin share: the files of the stores, by the name that each store is
-- opened under, and the rest of the outside.
use tenant_cni.Base.{
  Error, Outcome, Result, Text, [], arith, bytes, err, if◌then◌else◌, ok, panics, returns, runs_on,
  text_eq, ◌≡◌, ◌≢◌,
}
use tenant_cni.Base.Dict.{Dict}
use tenant_cni.Host.{Cmd, from_result}
use tenant_cni.Ipam.Address.{TenantIpam, new_tenant_ipam}
use tenant_cni.Ipam.NodeStore.{NodeStore, default_store_dir, load_node_data, new_node_store}
use tenant_cni.Ipam.PodStore.{PodStore, load_pod_data, new_pod_store, store_pod_data}
use tenant_cni.Ipam.Store.{Disk}
use tenant_cni.Ipam.Tenant.{NodeIpam, new_node_ipam}
use tenant_cni.Ipam.TenantStore.{TenantStore, load_tenant_data, new_tenant_store}
use tenant_cni.Ipam.Types.{NodeData, PodData, TenantData}

-- On the disk all stores lie in one directory, each in a directory of its own name: a node's, a tenant's and
-- `podlist`. Here they are kept apart by their kind, which is right where no tenant has the name of
-- another kind's store; `IsApart` says so of a tenant's name.
pub record Machine (W : Type 0) : Type 0 where
  pub outside : W
  pub node_disks : Text → Disk NodeData
  pub tenant_disks : Text → Disk TenantData
  pub pod_disk : Disk PodData

-- The name of the pods' store.
abbrev pub pod_list : Text
pod_list = bytes "podlist"

-- The tenant's store, the node's and the pods' are three directories. A node whose name was not found has the
-- empty name.
pub record IsApart (node tenant : Text) : Type 0 where
  pub not_the_node : tenant ≢ node
  pub not_the_pods : tenant ≢ pod_list
  pub not_empty : tenant ≢ []
  pub node_not_pods : node ≢ pod_list

module _ {D : Type 0} where
  unfoldable pub put : Text → Disk D → (Text → Disk D) → Text → Disk D
  put name disk disks other = if text_eq other name then disk else disks other

  pub put_self : (name : Text) (d : Disk D) (disks : Text → Disk D) → put name d disks name ≡ d
  unfolding put
  put_self name d disks = ground arith

module _ {W : Type 0} where
  -- A call that leaves the files alone.
  unfoldable pub on_outside : {A : Type 0} → Cmd W A → Cmd (Machine W) A
  on_outside c m = let (o, w) = c m.outside in (o, record m { outside = w })

  unfoldable pub save_node : NodeStore → Text → Machine W → Machine W
  save_node s name m = record m { node_disks = put name s.disk m.node_disks }

  unfoldable pub save_tenant : TenantStore → Text → Machine W → Machine W
  save_tenant s name m = record m { tenant_disks = put name s.disk m.tenant_disks }

  unfoldable pub save_pods : PodStore → Machine W → Machine W
  save_pods s m = record m { pod_disk = s.disk }

  -- `NewNodeStore`, `LoadNodeData` and `NewNodeIPAM` as the controller calls them: the store that could
  -- not be made is a nil pointer, the error of the loader is dropped.
  unfoldable pub open_node : Text → Cmd (Machine W) NodeIpam
  open_node name m =
      let (made, d) = new_node_store default_store_dir name (m.node_disks name) in
      elim made [
        | err e ↦ (panics, record m { node_disks = put name d m.node_disks })
        | ok s ↦
            let (_, loaded) = load_node_data s in
            from_result (new_node_ipam loaded name) (save_node loaded name m)
      ]

  -- The same calls for a tenant. `failed` is what the caller does where the store cannot be made.
  unfoldable pub open_tenant :
      (Error → Cmd (Machine W) TenantIpam) → Text → Cmd (Machine W) TenantIpam
  open_tenant failed name m =
      let (made, d) = new_tenant_store default_store_dir name (m.tenant_disks name) in
      elim made [
        | err e ↦ failed e (record m { tenant_disks = put name d m.tenant_disks })
        | ok s ↦
            let (_, loaded) = load_tenant_data s in
            from_result (new_tenant_ipam loaded name) (save_tenant loaded name m)
      ]

  -- The same calls for the pods.
  unfoldable pub open_pods : (Error → Cmd (Machine W) PodStore) → Cmd (Machine W) PodStore
  open_pods failed m =
      let (made, d) = new_pod_store m.pod_disk in
      elim made [
        | err e ↦ failed e (record m { pod_disk = d })
        | ok s ↦ let (_, loaded) = load_pod_data s in (returns (ok loaded), save_pods loaded m)
      ]

  -- The pods that are written, with the error that the writer returned dropped.
  unfoldable pub write_pods : Dict Text → PodStore → Cmd (Machine W) (Unit {0})
  write_pods pods s m =
      let (_, stored) = store_pod_data (record s { value = record { pods = pods } }) in
      (returns (ok tt), save_pods stored m)

  -- An operation of the address allocator, whose store is on the node's disk afterwards.
  unfoldable pub on_tenant :
      {A : Type 0} → Text → Outcome (Result A × TenantStore) → Cmd (Machine W) (A × TenantStore)
  on_tenant name (returns (r, s)) m =
      from_result (elim r [ ok a ↦ ok (a, s) | err e ↦ err e ]) (save_tenant s name m)
  on_tenant name panics m = (panics, m)
  on_tenant name runs_on m = (runs_on, m)
