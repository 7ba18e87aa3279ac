-- ===== src/System/NodesKept/Daemon.antt =====
-- The daemon's handlers that leave the nodes' files alone: those of the informers, and `updateTenant`.
use tenant_cni.Base.{List, Result, Text, arith, if◌then◌else◌, refl, ℕ, ◌∙◌, ◌≡◌}
use tenant_cni.Controller.Events.{
  Client, EventObject, handle_add, handle_delete, handle_pod_add, handle_update, register_pod,
}
use tenant_cni.Controller.Update.{update_tenant}
use tenant_cni.Controller.Wiring.{
  Notice, dispatch, handle_pod_delete, handle_pod_update, pod_added, pod_deleted, pod_updated,
  tenant_added, tenant_deleted, tenant_updated,
}
use tenant_cni.Host.{crash}
use tenant_cni.Host.Netlink.{Netlink}
use tenant_cni.Ipam.PodStore.{PodStore}
use tenant_cni.K8s.{Environment, Pod}
use tenant_cni.Machine.{open_pods, save_pods, write_pods}
use tenant_cni.Net.Addr.{Ipv6Text}
use tenant_cni.System.NodesKept.{KeepsNodes, KeepsNodes-bind, if_KeepsNodes, on_outside-KeepsNodes}
use tenant_cni.System.Prepared.{open_tenant-Keeps_nodes}
use tenant_cni.System.Update.{update_tenant-Preserves}

module _ {W : Type 0} where
  open_pods-crash-KeepsNodes : KeepsNodes (open_pods {W = W} (λ _. crash))
  unfolding open_pods save_pods
  open_pods-crash-KeepsNodes m = ground arith

  register_pod-KeepsNodes : (pod : Pod) (s : PodStore) → KeepsNodes (register_pod {W = W} pod s)
  unfolding register_pod write_pods save_pods
  register_pod-KeepsNodes pod s m = ground arith

  handle_pod_add-KeepsNodes : (pod : Pod) → KeepsNodes (handle_pod_add {W = W} pod)
  unfolding handle_pod_add
  handle_pod_add-KeepsNodes pod =
      KeepsNodes-bind (open_pods (λ _. crash)) (λ s. if s.mutex then register_pod pod s else crash)
        open_pods-crash-KeepsNodes
        (λ s.
          if_KeepsNodes s.mutex (register_pod pod s) crash (register_pod-KeepsNodes pod s)
            (λ _. refl))

  pub dispatch-KeepsNodes : (c : Client W) (x : Notice) → KeepsNodes (dispatch c x)
  unfolding dispatch handle_pod_update handle_pod_delete
  dispatch-KeepsNodes c (tenant_added obj) = on_outside-KeepsNodes _ (handle_add c obj)
  dispatch-KeepsNodes c (tenant_updated old new) = on_outside-KeepsNodes _ (handle_update c old new)
  dispatch-KeepsNodes c (tenant_deleted obj) = on_outside-KeepsNodes _ (handle_delete c obj)
  dispatch-KeepsNodes c (pod_added obj) = handle_pod_add-KeepsNodes obj
  dispatch-KeepsNodes c (pod_updated old new) = λ m. refl
  dispatch-KeepsNodes c (pod_deleted obj) = λ m. refl

  pub update_tenant-KeepsNodes :
      (c : Client W) (n : Netlink W) (env : Environment) (v6 : Ipv6Text)
      (parse_mac : Text → Result (List ℕ)) (obj : EventObject)
      → KeepsNodes (update_tenant c n env v6 parse_mac obj)
  update_tenant-KeepsNodes c n env v6 parse_mac obj m =
      update_tenant-Preserves (λ z. z.node_disks ≡ m.node_disks)
        (λ A x z e. on_outside-KeepsNodes A x z ∙ e)
        (λ owner z e. open_tenant-Keeps_nodes owner z ∙ e) c n env v6 parse_mac obj m refl
