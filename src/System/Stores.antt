-- ===== src/System/Stores.antt =====
-- Calls that leave the tenants' files alone: the opening of the other stores, `handlePodAdd` and the daemon's
-- start.
use tenant_cni.Base.{List, Text, arith, if◌then◌else◌, refl, ℕ}
use tenant_cni.Cni.Tenants.{KeepsTenants, KeepsTenants-bind, on_outside-KeepsTenants}
use tenant_cni.Controller.Events.{
  Client, handle_add, handle_delete, handle_pod_add, handle_update, register_pod,
}
use tenant_cni.Controller.Wiring.{
  Notice, dispatch, handle_pod_delete, handle_pod_update, pod_added, pod_deleted, pod_updated,
  tenant_added, tenant_deleted, tenant_updated,
}
use tenant_cni.Daemon.{init_node}
use tenant_cni.Host.{crash}
use tenant_cni.Ipam.PodStore.{PodStore}
use tenant_cni.Ipam.Tenant.{new_node_ipam}
use tenant_cni.Ipam.Tenant.Subnets.{subnets}
use tenant_cni.K8s.{Environment, Kube, Pod}
use tenant_cni.Machine.{open_node, open_pods, save_node, save_pods, write_pods}

module _ {W : Type 0} where
  pub open_pods-crash-KeepsTenants : KeepsTenants (open_pods {W = W} (λ _. crash))
  unfolding open_pods save_pods
  open_pods-crash-KeepsTenants m = ground arith

  pub open_node-KeepsTenants : (name : Text) → KeepsTenants (open_node {W = W} name)
  unfolding open_node save_node new_node_ipam
  open_node-KeepsTenants name m = ground arith

  register_pod-KeepsTenants : (pod : Pod) (s : PodStore) → KeepsTenants (register_pod {W = W} pod s)
  unfolding register_pod write_pods save_pods
  register_pod-KeepsTenants pod s m = ground arith

  pub handle_pod_add-KeepsTenants : (pod : Pod) → KeepsTenants (handle_pod_add {W = W} pod)
  unfolding handle_pod_add
  handle_pod_add-KeepsTenants pod =
      KeepsTenants-bind (open_pods (λ _. crash))
        (λ s. if s.mutex then register_pod pod s else crash) open_pods-crash-KeepsTenants
        (λ s m. ground (arith, register_pod-KeepsTenants pod s m))

  pub init_node-KeepsTenants :
      (k : Kube W) (env : Environment) (subnets : Text → ℕ → List Text) (name ip cidr : Text)
      → KeepsTenants (init_node k env subnets name ip cidr)
  unfolding init_node save_node
  init_node-KeepsTenants k env subnets name ip cidr m = ground arith

  pub dispatch-KeepsTenants : (c : Client W) (x : Notice) → KeepsTenants (dispatch c x)
  unfolding dispatch handle_pod_update handle_pod_delete
  dispatch-KeepsTenants c (tenant_added obj) = on_outside-KeepsTenants (handle_add c obj)
  dispatch-KeepsTenants c (tenant_updated old new) =
      on_outside-KeepsTenants (handle_update c old new)
  dispatch-KeepsTenants c (tenant_deleted obj) = on_outside-KeepsTenants (handle_delete c obj)
  dispatch-KeepsTenants c (pod_added obj) = handle_pod_add-KeepsTenants obj
  dispatch-KeepsTenants c (pod_updated old new) = λ m. refl
  dispatch-KeepsTenants c (pod_deleted obj) = λ m. refl
