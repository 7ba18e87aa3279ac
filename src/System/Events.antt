-- ===== src/System/Events.antt =====
-- Whatever the plugin's processes and the daemon do on one node, in any order.
use mathlib.Core.Path.{subst}
use tenant_cni.Api.{Tenant}
use tenant_cni.Base.{List, Option, Result, Text, some, sym, ℕ, ◌≡◌, ◌≢◌}
use tenant_cni.Cni.Commands.{CmdArgs, cmd_add, cmd_check, cmd_del}
use tenant_cni.Cni.Tenants.{tenant_store_of}
use tenant_cni.Controller.Add.{add_tenant}
use tenant_cni.Controller.Delete.{delete_tenant}
use tenant_cni.Controller.Events.{Client, EventObject}
use tenant_cni.Controller.Update.{update_tenant}
use tenant_cni.Controller.Wiring.{Notice, dispatch}
use tenant_cni.Daemon.{start}
use tenant_cni.Host.{Cmd}
use tenant_cni.Host.Iptables.{Iptables}
use tenant_cni.Host.Netlink.{Netlink}
use tenant_cni.Ipam.Address.Refinement.{Call, IsSparedBy}
use tenant_cni.Ipam.Tenant.Subnets.{subnets}
use tenant_cni.Ipam.TenantStore.{TenantStore}
use tenant_cni.Ipam.Types.{TenantData}
use tenant_cni.K8s.{Environment}
use tenant_cni.Machine.{Machine, put_self, save_tenant}
use tenant_cni.Net.Addr.{Ipv6Text}
use tenant_cni.Net.Ip.{Ip}
use tenant_cni.Net.RoundTrip.{IsBytes}
use tenant_cni.System.Add.{IsOtherKey, add_tenant-Serves}
use tenant_cni.System.Delete.{delete_tenant-Serves}
use tenant_cni.System.Plugin.{cmd_add-Serves, cmd_check-Serves, cmd_del-Serves}
use tenant_cni.System.Served.{Call-IsServed, IsServed, OnlyRuns, SparedIn, Watch, spared_both}
use tenant_cni.System.Serves.{IsServedOn, KeepsTenants-Serves}
use tenant_cni.System.Start.{start-Serves}
use tenant_cni.System.Stores.{dispatch-KeepsTenants}
use tenant_cni.System.Update.{update_tenant-Serves}

module _ {W : Type 0} (v6 : Ipv6Text) (next_ip : Ip → Ip) (c : Client W) (n : Netlink W)
    (t : Iptables W) (env : Environment) (parse_mac : Text → Result (List ℕ))
    (retry : Cmd (Machine W) Text → Cmd (Machine W) Text) (rounds : ℕ) where
  -- What happens on the node, seen from one tenant: a command of the plugin for any pod of any tenant; the
  -- locked part of such a command, in a process that has opened the tenant's store at any time before;
  -- what the informers announce; a handler of the daemon's worker, the tenant's own addition and deletion
  -- excepted; a start of the daemon. Each leaves the machine as it does, however it ends.
  pub data Event (name : Text) (m : Machine W) : Machine W → Type 0 where
    plugin_adds : (a : CmdArgs) → Event name m (cmd_add n v6 next_ip retry rounds a m).1
    plugin_deletes : (a : CmdArgs) → Event name m (cmd_del n v6 next_ip retry rounds a m).1
    plugin_checks : (a : CmdArgs) → Event name m (cmd_check n v6 next_ip retry rounds a m).1
    plugin_calls :
        (stale : TenantData) (s' : TenantStore)
        → Call v6 next_ip (tenant_store_of name (m.tenant_disks name) stale) s'
        → Event name m (save_tenant s' name m)
    noticed : (x : Notice) → Event name m (dispatch c x m).1
    other_added :
        (rand : Result (List ℕ)) (key : Text)
        → IsOtherKey c name key
        → Event name m (add_tenant c n t env v6 parse_mac rand key m).1
    tenant_updated : (obj : EventObject) → Event name m (update_tenant c n env v6 parse_mac obj m).1
    other_deleted :
        (obj : EventObject)
        → ((x : Tenant) → obj.old_obj ≡ some x → name ≢ x.object_name)
        → Event name m (delete_tenant c n env v6 parse_mac obj m).1
    daemon_started :
        (subnets : Text → ℕ → List Text) (unmarshal : Text → Result (Option Text))
        (run : List Text → Cmd W (Unit {0})) (flag_value : Text → Text)
        → Event name m (start c.kube env subnets unmarshal run flag_value m).1

  pub data Events (name : Text) (m : Machine W) : Machine W → Type 0 where
    nothing_yet : Events name m m
    then_event : (m1 m2 : Machine W) → Events name m m1 → Event name m1 m2 → Events name m m2

  -- The event takes no address back from the container: it is no deletion of it.
  unfoldable pub Spares : {name : Text} {m m' : Machine W} → Text → Event name m m' → Type 0
  Spares holder (plugin_adds a) = Unit {0}
  Spares holder (plugin_deletes a) = holder ≢ a.container_id
  Spares holder (plugin_checks a) = Unit {0}
  Spares holder (plugin_calls stale s' call) = IsSparedBy v6 next_ip holder call
  Spares holder (noticed x) = Unit {0}
  Spares holder (other_added rand key other) = Unit {0}
  Spares holder (tenant_updated obj) = Unit {0}
  Spares holder (other_deleted obj other) = Unit {0}
  Spares holder (daemon_started subnets unmarshal run flag_value) = Unit {0}

  unfoldable pub AllSpare : {name : Text} {m m' : Machine W} → Text → Events name m m' → Type 0
  AllSpare holder nothing_yet = Unit {0}
  AllSpare holder (then_event m1 m2 before event) = AllSpare holder before × Spares holder event

  module _ (bytes_next : (ip : Ip) → IsBytes (next_ip ip)) (only_runs : OnlyRuns retry)
      (watch : Watch) (name : Text) where
    Event-IsServed :
        {m m' : Machine W} (event : Event name m m')
        → SparedIn watch.lease (λ h. Spares h event)
        → IsServedOn v6 watch name m
        → IsServedOn v6 watch name m'
    unfolding save_tenant Spares
    Event-IsServed {m} (plugin_adds a) _ g =
        cmd_add-Serves v6 next_ip bytes_next watch name n retry only_runs rounds a m g
    Event-IsServed {m} (plugin_deletes a) spared g =
        cmd_del-Serves v6 next_ip bytes_next watch name n retry only_runs rounds a spared m g
    Event-IsServed {m} (plugin_checks a) _ g =
        cmd_check-Serves v6 next_ip bytes_next watch name n retry only_runs rounds a m g
    Event-IsServed {m} (plugin_calls stale s' call) spared g =
        subst (IsServed v6 watch name) (sym (put_self name s'.disk m.tenant_disks)) (
          Call-IsServed v6 next_ip bytes_next watch name (m.tenant_disks name) stale s' g
            (call, spared))
    Event-IsServed {m} (noticed x) _ g =
        KeepsTenants-Serves v6 watch name (dispatch c x) (dispatch-KeepsTenants c x) m g
    Event-IsServed {m} (other_added rand key other) _ g =
        add_tenant-Serves v6 watch name c n t env parse_mac rand key other m g
    Event-IsServed {m} (tenant_updated obj) _ g =
        update_tenant-Serves v6 watch name c n env parse_mac obj m g
    Event-IsServed {m} (other_deleted obj other) _ g =
        delete_tenant-Serves v6 watch name c n env parse_mac obj other m g
    Event-IsServed {m} (daemon_started subnets unmarshal run flag_value) _ g =
        start-Serves v6 watch name c.kube env subnets unmarshal run flag_value m g

    pub Events-IsServed :
        {m m' : Machine W} (events : Events name m m')
        → SparedIn watch.lease (λ h. AllSpare h events)
        → IsServedOn v6 watch name m
        → IsServedOn v6 watch name m'
    unfolding AllSpare
    Events-IsServed nothing_yet spared g = g
    Events-IsServed (then_event m1 m2 before event) spared g =
        let (first, last) =
          spared_both watch.lease (λ h. AllSpare h before) (λ h. Spares h event) spared in
        Event-IsServed event last (Events-IsServed before first g)
