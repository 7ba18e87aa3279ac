-- ===== src/Controller/Events.antt =====
-- pkg/controller/utils.go and handlers.go.
use tenant_cni.Api.{Node, Tenant}
use tenant_cni.Base.{
  Bool, Error, List, Option, Result, Text, [], bytes, false, if◌then◌else◌, is_empty, none, some,
  text_eq, true, ◌∷◌,
}
use tenant_cni.Base.Dict.{insert, lookup}
use tenant_cni.Host.{Cmd, crash, pure, ◌>>=◌}
use tenant_cni.Ipam.PodStore.{PodStore}
use tenant_cni.Ipam.Types.{TenantData, Vxlan}
use tenant_cni.K8s.{Kube, Pod}
use tenant_cni.Machine.{Machine, open_pods, write_pods}

-- A handler's object; `none` is nil.
pub record EventObject : Type 0 where
  pub event_type : Text
  pub key : Text
  pub new_obj : Option Tenant
  pub old_obj : Option Tenant

-- client-go's queue and key functions, as the controller calls them. `get` gives nothing where the queue
-- is shut down. `key_of` is empty with an error.
pub record Client (W : Type 0) : Type 0 where
  pub kube : Kube W
  pub enqueue : EventObject → Cmd W (Unit {0})
  pub dequeue : Cmd W (Option EventObject)
  pub forget : EventObject → Cmd W (Unit {0})
  pub done : EventObject → Cmd W (Unit {0})
  -- `recorder.Event`, with the reason
  pub record_event : Tenant → Text → Cmd W (Unit {0})
  -- `retry.RetryOnConflict(retry.DefaultRetry, ...)`, with the tenant that the function sets
  pub retry_on_conflict : Cmd W Tenant → Cmd W Tenant
  -- `cache.MetaNamespaceKeyFunc` and `cache.SplitMetaNamespaceKey`
  pub key_of : Tenant → Text
  pub split_key : Text → Result (Text × Text)
  -- `os.ReadDir` and `os.RemoveAll` on a store's directory
  pub read_dir : Text → Result (List Text)
  pub remove_all : Text → Text → Option Error

-- `existsNode`
unfoldable pub exists_node : List Node → Text → Bool
exists_node [] current_node_name = false
exists_node (element ∷ rest) current_node_name =
    if text_eq current_node_name element.name then true else exists_node rest current_node_name

abbrev pub event_add : Text
event_add = bytes "Add"

abbrev pub event_update : Text
event_update = bytes "Update"

abbrev pub event_delete : Text
event_delete = bytes "Delete"

abbrev pub pod_tenant_annotation_key : Text
pod_tenant_annotation_key = bytes "jovik31.dev.tenants"

abbrev pub default_tenant : Text
default_tenant = bytes "defaulttenant"

-- The event objects that the handlers and the update make.
abbrev pub add_event : Text → Option Tenant → EventObject
add_event key obj = record { event_type = event_add; key = key; new_obj = obj; old_obj = none }

abbrev pub update_event : Text → Tenant → Tenant → EventObject
update_event key old new = record {
  event_type = event_update;
  key = key;
  new_obj = some new;
  old_obj = some old;
}

abbrev pub delete_event : Text → Option Tenant → EventObject
delete_event key obj = record {
  event_type = event_delete;
  key = key;
  new_obj = none;
  old_obj = obj;
}

-- The tenant that an annotation stands for.
unfoldable pub tenant_of_annotation : Pod → Text
tenant_of_annotation pod = elim (lookup pod_tenant_annotation_key pod.annotations) [
  | none ↦ default_tenant
  | some tenant ↦ if is_empty tenant then default_tenant else tenant
]

module _ {W : Type 0} where
  -- A pod on the host's network has no tenant.
  unfoldable pub register_pod : Pod → PodStore → Cmd (Machine W) (Unit {0})
  register_pod pod s =
      if pod.host_network
      then pure tt
      else write_pods (insert pod.name (tenant_of_annotation pod) s.value.pods) s

  -- `handlePodAdd`. The lock of a store without a mutex is a nil pointer; the source reads it before it
  -- loads the data, so that a file that is not there yet is not made in that case.
  unfoldable pub handle_pod_add : Pod → Cmd (Machine W) (Unit {0})
  handle_pod_add pod = do s ← open_pods (λ _. crash); if s.mutex then register_pod pod s else crash

module _ {W : Type 0} (c : Client W) where
  -- `handleAdd`, `handleUpdate` and `handleDelete`
  unfoldable pub handle_add : Tenant → Cmd W (Unit {0})
  handle_add obj = c.enqueue (add_event (c.key_of obj) (some obj))

  unfoldable pub handle_update : Tenant → Tenant → Cmd W (Unit {0})
  handle_update old new = c.enqueue (update_event (c.key_of new) old new)

  unfoldable pub handle_delete : Tenant → Cmd W (Unit {0})
  handle_delete obj = c.enqueue (delete_event (c.key_of obj) (some obj))

  -- `refreshTenant`
  unfoldable pub refresh_tenant : Text → Text → Cmd W Tenant
  refresh_tenant namespace name = c.kube.get_tenant namespace name

  -- The copy that `UpdateTenantResource` sends: the specification's name stays as it is.
  abbrev pub restored : Tenant → TenantData → Vxlan → Tenant
  restored tenant on_file vxlan =
      let spec = tenant.spec in
      record {
        object_name = on_file.tenant_name;
        spec = record spec { vni = vxlan.vni; subnet_prefix = on_file.tenant_prefix };
      }

  -- `UpdateTenantResource`; a tenant that is not on file has no Vxlan, a nil pointer.
  unfoldable pub update_tenant_resource : Tenant → TenantData → Text → Cmd W (Unit {0})
  update_tenant_resource tenant on_file namespace = elim on_file.vxlan [
    | none ↦ crash
    | some vxlan ↦ c.kube.update_tenant namespace (restored tenant on_file vxlan)
  ]
