-- ===== src/Controller/Loop.antt =====
-- The worker of pkg/controller/controller.go.
use tenant_cni.Base.{
  Bool, List, Option, Result, Text, err, false, if◌then◌else◌, none, ok, runs_on, some, suc,
  text_eq, true, zero, ℕ,
}
use tenant_cni.Controller.Add.{add_tenant}
use tenant_cni.Controller.Delete.{delete_tenant}
use tenant_cni.Controller.Events.{Client, EventObject, event_add, event_delete, event_update}
use tenant_cni.Controller.Update.{update_tenant}
use tenant_cni.Host.{Cmd, attempt, pure, ◌>>=◌, ◌>>◌}
use tenant_cni.Host.Iptables.{Iptables}
use tenant_cni.Host.Netlink.{Netlink}
use tenant_cni.K8s.{Environment}
use tenant_cni.Machine.{Machine, on_outside}
use tenant_cni.Net.Addr.{Ipv6Text}

module _ {W : Type 0} (c : Client W) (n : Netlink W) (t : Iptables W) (env : Environment)
    (v6 : Ipv6Text) (parse_mac : Text → Result (List ℕ)) where
  -- The event's handler, where its type has one.
  unfoldable pub handler : Result (List ℕ) → EventObject → Option (Cmd (Machine W) (Unit {0}))
  handler rand e =
      if text_eq e.event_type event_add
      then some (add_tenant c n t env v6 parse_mac rand e.key)
      else if text_eq e.event_type event_update
      then some (update_tenant c n env v6 parse_mac e)
      else if text_eq e.event_type event_delete
      then some (delete_tenant c n env v6 parse_mac e)
      else none

  -- The deferred `Done`, which runs when the body panics, too.
  abbrev pub and_then_done : EventObject → Cmd (Machine W) Bool → Cmd (Machine W) Bool
  and_then_done e body m =
      let (o, m') = body m in let (_, m'') = on_outside (c.done e) m' in (o, m'')

  -- What follows a handler: with an error, too, the item is forgotten.
  abbrev pub forget_item : EventObject → Result (Unit {0}) → Cmd (Machine W) Bool
  forget_item e (ok _) = do on_outside (c.forget e); pure true
  forget_item e (err _) = do on_outside (c.forget e); pure true

  -- The body of `processNextItem` on an item: an event that failed is forgotten like one that did not.
  unfoldable pub process : Result (List ℕ) → EventObject → Cmd (Machine W) Bool
  process rand e = elim (handler rand e) [
    | none ↦ do on_outside (c.forget e); pure false
    | some run ↦ attempt run >>= forget_item e
  ]

  -- `processNextItem`
  unfoldable pub process_next_item : Result (List ℕ) → Cmd (Machine W) Bool
  process_next_item rand = on_outside c.dequeue >>= λ item. elim item [
    | none ↦ pure false
    | some e ↦ and_then_done e (process rand e)
  ]

  -- `worker`, for a number of rounds, with the random bytes that each round may read.
  unfoldable pub worker : (ℕ → Result (List ℕ)) → ℕ → Cmd (Machine W) (Unit {0})
  worker rand zero m = (runs_on, m)
  worker rand (suc rounds) m =
      let rest = worker rand rounds in
      (process_next_item (rand rounds) >>= λ more. if more then rest else pure tt) m
