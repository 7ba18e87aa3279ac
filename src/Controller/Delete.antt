-- ===== src/Controller/Delete.antt =====
-- pkg/controller/delete.go
use tenant_cni.Backend.Bridge.{delete_tenant_bridge}
use tenant_cni.Backend.Vxlan.{delete_vxlan_device}
use tenant_cni.Base.{
  Bool, List, Result, Text, [], err, false, if◌then◌else◌, none, not_found, ok, some, text_eq, true,
  ℕ, ◌++◌, ◌∷◌,
}
use tenant_cni.Base.Dict.{Dict, erase}
use tenant_cni.Controller.Events.{Client, EventObject, exists_node, refresh_tenant}
use tenant_cni.Host.{
  Cmd, attempt, crash, deref, fail, from_result, ignore, modifies, pure, ◌>>=◌, ◌>>◌,
}
use tenant_cni.Host.Netlink.{Netlink}
use tenant_cni.Ipam.NodeStore.{store_node_data}
use tenant_cni.Ipam.TenantStore.{delete_tenant_store}
use tenant_cni.Ipam.Types.{NodeData}
use tenant_cni.K8s.{Environment, Pod, get_current_node_name}
use tenant_cni.Machine.{Machine, on_outside, open_node, open_pods, open_tenant, put, save_node}
use tenant_cni.Net.Addr.{Ipv6Text, Prefix, prefix_text}

-- The names of the tenant's pods among the pods on file.
unfoldable pub pods_of_tenant : Text → Dict Text → List Text
pods_of_tenant tenant_name [] = []
pods_of_tenant tenant_name ((pod, tenant) ∷ pods) =
    let rest = pods_of_tenant tenant_name pods in
    if text_eq tenant tenant_name then pod ∷ rest else rest

-- `slices.Contains`
unfoldable pub contains_name : Text → List Text → Bool
contains_name name [] = false
contains_name name (x ∷ xs) = if text_eq name x then true else contains_name name xs

-- The range over the node's tenants: a tenant of the name goes, and its subnet's text is put behind the
-- available ones.
unfoldable pub return_subnets : Ipv6Text → Text → Dict Prefix → NodeData → NodeData
return_subnets v6 tenant_name [] v = v
return_subnets v6 tenant_name ((tenant, network) ∷ rest) v = return_subnets v6 tenant_name rest (
    if text_eq tenant tenant_name
    then record v {
      available_list = v.available_list ++ (prefix_text v6 network ∷ []);
      tenant_list = erase tenant v.tenant_list;
    }
    else v)

module _ {W : Type 0} (c : Client W) (n : Netlink W) (env : Environment) (v6 : Ipv6Text)
    (parse_mac : Text → Result (List ℕ)) where
  -- The loop that deletes the pods of the tenant, whose failures are logged.
  unfoldable pub delete_pods : List Text → List Pod → Cmd W (Unit {0})
  delete_pods names [] = pure tt
  delete_pods names (pod ∷ pods) =
      let rest = delete_pods names pods in
      if contains_name pod.name names
      then ignore (c.kube.delete_pod pod.namespace pod.name) >> rest
      else rest

  -- An error of the list is logged: client-go gives an empty list with it, and the deletion goes on.
  unfoldable pub delete_listed : List Text → Cmd W (Unit {0})
  delete_listed names = attempt c.kube.list_pods >>= λ r. elim r [
    | err e ↦ delete_pods names []
    | ok pods ↦ delete_pods names pods
  ]

  -- `DeleteTenantStore` on the node, its failure logged.
  unfoldable pub remove_store : Text → Cmd (Machine W) (Unit {0})
  remove_store name = modifies (λ m. record m {
    tenant_disks =
        put name
          (delete_tenant_store name (c.read_dir name) (c.remove_all name) (m.tenant_disks name)).1
          m.tenant_disks;
  })

  -- The subnet goes back to the node's list, and the list is written.
  unfoldable pub release_subnet : Text → Text → Cmd (Machine W) (Unit {0})
  release_subnet node_name tenant_name = open_node node_name >>= λ nim. modifies (λ m.
      let s = nim.node_store in
      let v = s.value in
      save_node
        (store_node_data (record s { value = return_subnets v6 tenant_name v.tenant_list v })).1
        node_name m)

  -- What `deleteTenant` does on a node of the tenant. A tenant without a bridge or a VXLAN device on
  -- file is a nil pointer.
  unfoldable pub delete_on_node : Text → Text → Cmd (Machine W) (Unit {0})
  delete_on_node node_name tenant_name = do
    s ← open_pods (λ _. crash)
    on_outside (delete_listed (pods_of_tenant tenant_name s.value.pods))
    tim ← open_tenant (λ _. crash) tenant_name
    bridge ← deref tim.tenant_store.value.bridge
    vxlan ← deref tim.tenant_store.value.vxlan
    ignore (on_outside (delete_tenant_bridge n v6 bridge.name))
    ignore (on_outside (delete_vxlan_device n v6 parse_mac vxlan.vtep_name))
    remove_store tim.tenant_name
    release_subnet node_name tim.tenant_name

  -- `deleteTenant`. An object that is no tenant makes the cast panic.
  unfoldable pub delete_tenant : EventObject → Cmd (Machine W) (Unit {0})
  delete_tenant obj = elim obj.old_obj [
    | none ↦ crash
    | some deleted ↦ do
      parts ← from_result (c.split_key obj.key)
      found ← attempt (on_outside (refresh_tenant c parts.0 parts.1))
      (elim found [ ok _ ↦ pure tt | err not_found ↦ pure tt | err e ↦ fail e ])
      on_outside c.kube.connect
      node_name ← on_outside (get_current_node_name c.kube env true)
      if exists_node deleted.spec.nodes node_name
          then delete_on_node node_name deleted.object_name
          else pure tt
  ]
