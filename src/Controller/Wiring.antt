-- ===== src/Controller/Wiring.antt =====
-- `NewController` and `Run` of pkg/controller/controller.go: which handler reacts to what the informers
-- announce, and how the worker is started and stopped. `wait_for_sync`, `until` and `shut_down` are
-- client-go's `WaitForCacheSync`, `UntilWithContext` and `ShutDown`.
use tenant_cni.Api.{Tenant}
use tenant_cni.Base.{Bool, List, Result, Text, ℕ}
use tenant_cni.Controller.Events.{Client, handle_add, handle_delete, handle_pod_add, handle_update}
use tenant_cni.Controller.Loop.{worker}
use tenant_cni.Host.{Cmd, pure, ◌>>=◌}
use tenant_cni.Host.Iptables.{Iptables}
use tenant_cni.Host.Netlink.{Netlink}
use tenant_cni.K8s.{Environment, Pod}
use tenant_cni.Machine.{Machine, on_outside}
use tenant_cni.Net.Addr.{Ipv6Text}

-- What the informers of the tenants and of the pods announce.
pub data Notice : Type 0 where
  tenant_added : (obj : Tenant) → Notice
  tenant_updated : (old new : Tenant) → Notice
  tenant_deleted : (obj : Tenant) → Notice
  pod_added : (obj : Pod) → Notice
  pod_updated : (old new : Pod) → Notice
  pod_deleted : (obj : Pod) → Notice

module _ {W : Type 0} where
  -- `handlePodUpdate` and `handlePodDelete`: a pod that goes is logged and stays in the pod store.
  unfoldable pub handle_pod_update : Pod → Pod → Cmd (Machine W) (Unit {0})
  handle_pod_update new old = pure tt

  unfoldable pub handle_pod_delete : Pod → Cmd (Machine W) (Unit {0})
  handle_pod_delete obj = pure tt

module _ {W : Type 0} (c : Client W) where
  -- The handlers that `NewController` registers.
  unfoldable pub dispatch : Notice → Cmd (Machine W) (Unit {0})
  dispatch (tenant_added obj) = on_outside (handle_add c obj)
  dispatch (tenant_updated old new) = on_outside (handle_update c old new)
  dispatch (tenant_deleted obj) = on_outside (handle_delete c obj)
  dispatch (pod_added obj) = handle_pod_add obj
  dispatch (pod_updated old new) = handle_pod_update old new
  dispatch (pod_deleted obj) = handle_pod_delete obj

module _ {W : Type 0} (c : Client W) (n : Netlink W) (t : Iptables W) (env : Environment)
    (v6 : Ipv6Text) (parse_mac : Text → Result (List ℕ)) where
  -- `Run`: caches that do not get in step are logged. The queue is shut down at the end, when the worker's
  -- context is done, and after a panic too.
  unfoldable pub run_controller :
      Cmd W Bool
      → (Cmd (Machine W) (Unit {0}) → Cmd (Machine W) (Unit {0}))
      → Cmd W (Unit {0})
      → (ℕ → Result (List ℕ))
      → ℕ
      → Cmd (Machine W) (Unit {0})
  run_controller wait_for_sync until shut_down rand rounds m =
      let started : Cmd (Machine W) (Unit {0}) =
        on_outside wait_for_sync >>= λ _. until (worker c n t env v6 parse_mac rand rounds) in
      let (o, m1) = started m in let (_, m2) = on_outside shut_down m1 in (o, m2)
