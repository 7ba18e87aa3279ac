-- ===== src/Daemon/Main.antt =====
-- The whole of `main` in cmd/tenantcnid/main.go: the start, and then the controller until its context
-- is done.
use tenant_cni.Base.{Bool, List, Option, Result, Text, ℕ}
use tenant_cni.Controller.Events.{Client}
use tenant_cni.Controller.Wiring.{run_controller}
use tenant_cni.Daemon.{start}
use tenant_cni.Host.{Cmd, ignore, ◌>>◌}
use tenant_cni.Host.Iptables.{Iptables}
use tenant_cni.Host.Netlink.{Netlink}
use tenant_cni.K8s.{Environment}
use tenant_cni.Machine.{Machine}
use tenant_cni.Net.Addr.{Ipv6Text}

module _ {W : Type 0} (c : Client W) (n : Netlink W) (t : Iptables W) (env : Environment)
    (v6 : Ipv6Text) (parse_mac : Text → Result (List ℕ)) (subnets : Text → ℕ → List Text)
    (unmarshal : Text → Result (Option Text)) (sysctl : List Text → Cmd W (Unit {0})) where
  -- The informers' factories are client-go's. What `Run` returns is logged.
  unfoldable pub main :
      Cmd W Bool
      → (Cmd (Machine W) (Unit {0}) → Cmd (Machine W) (Unit {0}))
      → Cmd W (Unit {0})
      → (ℕ → Result (List ℕ))
      → ℕ
      → (Text → Text)
      → Cmd (Machine W) (Unit {0})
  main wait_for_sync until shut_down rand rounds flag_value = do
    start c.kube env subnets unmarshal sysctl flag_value
    ignore (run_controller c n t env v6 parse_mac wait_for_sync until shut_down rand rounds)
