-- ===== src/System/Changes.antt =====
-- Any sequence of additions and deletions of tenants on one node, with all else that happens there.
use mathlib.Core.List.Perm
use mathlib.Core.List.{Mem, Nodup, Perm}
use mathlib.Core.Path.{subst}
use tenant_cni.Api.{Tenant}
use tenant_cni.Base.{List, Result, Text, none, ok, returns, sym, ℕ, ◌≡◌, ◌≢◌}
use tenant_cni.Base.Dict.{NodupKeys, lookup}
use tenant_cni.Cni.Commands.{CmdArgs, cmd_add, cmd_check, cmd_del}
use tenant_cni.Cni.Tenants.{tenant_store_of}
use tenant_cni.Controller.Add.{add_on_node}
use tenant_cni.Controller.Delete.{delete_on_node}
use tenant_cni.Controller.Events.{Client, EventObject}
use tenant_cni.Controller.Update.{same_nodes, update_tenant}
use tenant_cni.Controller.Wiring.{Notice, dispatch}
use tenant_cni.Host.{Cmd}
use tenant_cni.Host.Iptables.{Iptables}
use tenant_cni.Host.Netlink.{Netlink}
use tenant_cni.Ipam.Address.Refinement.{Call}
use tenant_cni.Ipam.Store.{Disk}
use tenant_cni.Ipam.Tenant.OnDisk.{Holds}
use tenant_cni.Ipam.Tenant.Subnets.{subnets}
use tenant_cni.Ipam.TenantStore.{TenantStore}
use tenant_cni.Ipam.Types.{NodeData, TenantData}
use tenant_cni.K8s.{Environment}
use tenant_cni.Machine.{IsApart, Machine, pod_list, save_tenant}
use tenant_cni.Net.Addr.{Ipv6Text, Prefix}
use tenant_cni.Net.Ip.{Ip}
use tenant_cni.System.Deleted.{delete_on_node_end}
use tenant_cni.System.NodeSubnets.{
  HasSubnets, ReadsBack, add_on_node-HasSubnets, give_back-HasSubnets,
}
use tenant_cni.System.NodesKept.{cmd_add-KeepsNodes, cmd_check-KeepsNodes, cmd_del-KeepsNodes}
use tenant_cni.System.NodesKept.Daemon.{dispatch-KeepsNodes, update_tenant-KeepsNodes}
use tenant_cni.System.Served.{OnlyRuns}

module _ {W : Type 0} (c : Client W) (n : Netlink W) (t : Iptables W) (env : Environment)
    (v6 : Ipv6Text) (parse_mac : Text → Result (List ℕ)) (next_ip : Ip → Ip)
    (retry : Cmd (Machine W) Text → Cmd (Machine W) Text) (rounds : ℕ) where
  -- What happens on a node: a tenant that it does not have is added, a tenant is deleted, a tenant is
  -- updated, the informers announce something; a command of the plugin runs for any pod, or the locked
  -- part of one in a process that has opened a tenant's store at any time before.
  pub data Change (node : Text) (m : Machine W) : Machine W → Type 0 where
    tenant_comes :
        (namespace key : Text) (tenant : Tenant) (rand : Result (List ℕ))
        → ((v : NodeData)
            → Holds node (m.node_disks node) v
            → lookup tenant.spec.name v.tenant_list ≡ none)
        → IsApart node tenant.spec.name
        → Change node m (add_on_node c n t env v6 parse_mac namespace key tenant rand node m).1
    tenant_goes :
        (name : Text)
        → IsApart node name
        → (delete_on_node c n env v6 parse_mac node name m).0 ≡ returns (ok tt)
        → Change node m (delete_on_node c n env v6 parse_mac node name m).1
    tenant_updates :
        (obj : EventObject) → Change node m (update_tenant c n env v6 parse_mac obj m).1
    informed : (x : Notice) → Change node m (dispatch c x m).1
    plugin_added : (a : CmdArgs) → Change node m (cmd_add n v6 next_ip retry rounds a m).1
    plugin_deleted : (a : CmdArgs) → Change node m (cmd_del n v6 next_ip retry rounds a m).1
    plugin_checked : (a : CmdArgs) → Change node m (cmd_check n v6 next_ip retry rounds a m).1
    plugin_called :
        (name : Text) (stale : TenantData) (s' : TenantStore)
        → IsApart node name
        → Call v6 next_ip (tenant_store_of name (m.tenant_disks name) stale) s'
        → Change node m (save_tenant s' name m)

  pub data Changes (node : Text) (m : Machine W) : Machine W → Type 0 where
    unchanged : Changes node m m
    then_change : (m1 m2 : Machine W) → Changes node m m1 → Change node m1 m2 → Changes node m m2

  unaltered :
      (node : Text) (all : List Prefix) {before after : Text → Disk NodeData}
      → after ≡ before
      → HasSubnets v6 node all (before node)
      → HasSubnets v6 node all (after node)
  unaltered node all same = subst (λ f. HasSubnets v6 node all (f node)) (sym same)

  Change-HasSubnets :
      (only_runs : OnlyRuns retry) (node : Text) (all : List Prefix)
      (text : (p : Prefix) → Mem p all → ReadsBack v6 p) {m m' : Machine W}
      → Change node m m'
      → HasSubnets v6 node all (m.node_disks node)
      → HasSubnets v6 node all (m'.node_disks node)
  unfolding save_tenant
  Change-HasSubnets only_runs node all text {m} (tenant_comes namespace key tenant rand fresh _) g =
      add_on_node-HasSubnets c n t env v6 parse_mac namespace key node tenant rand all m g
        (fresh g.content g.held_there)
  Change-HasSubnets only_runs node all text {m} (tenant_goes name _ success) g =
      let (m1, same_nodes, same) = delete_on_node_end c n env v6 parse_mac node name m success in
      let g1 : HasSubnets v6 node all (m1.node_disks node) =
        subst (λ f. HasSubnets v6 node all (f node)) (sym same_nodes) g in
      subst (λ z. HasSubnets v6 node all (z.1.node_disks node)) (sym same)
        (give_back-HasSubnets c n t env v6 parse_mac node name all m1 text g1)
  Change-HasSubnets only_runs node all text {m} (tenant_updates obj) g =
      unaltered node all (update_tenant-KeepsNodes c n env v6 parse_mac obj m) g
  Change-HasSubnets only_runs node all text {m} (informed x) g =
      unaltered node all (dispatch-KeepsNodes c x m) g
  Change-HasSubnets only_runs node all text {m} (plugin_added a) g =
      unaltered node all (cmd_add-KeepsNodes n v6 next_ip retry only_runs rounds a m) g
  Change-HasSubnets only_runs node all text {m} (plugin_deleted a) g =
      unaltered node all (cmd_del-KeepsNodes n v6 next_ip retry only_runs rounds a m) g
  Change-HasSubnets only_runs node all text {m} (plugin_checked a) g =
      unaltered node all (cmd_check-KeepsNodes n v6 next_ip retry only_runs rounds a m) g
  Change-HasSubnets only_runs node all text {m} (plugin_called name stale s' _ call) g = g

  Changes-HasSubnets :
      (only_runs : OnlyRuns retry) (node : Text) (all : List Prefix)
      (text : (p : Prefix) → Mem p all → ReadsBack v6 p) {m m' : Machine W}
      → Changes node m m'
      → HasSubnets v6 node all (m.node_disks node)
      → HasSubnets v6 node all (m'.node_disks node)
  Changes-HasSubnets only_runs node all text unchanged g = g
  Changes-HasSubnets only_runs node all text (then_change m1 m2 before change) g =
      Change-HasSubnets only_runs node all text change
        (Changes-HasSubnets only_runs node all text before g)

  -- On a node that has not the name of the pods' store, whose own store is there, can be locked and
  -- written, and holds data that names each tenant once, and in which no subnet, available or held by a
  -- tenant, stands twice and each one is read back from its text: after any sequence of additions of
  -- tenants that the node does not have then, of deletions that succeed, of updates of any tenant, of
  -- handlers of the informers, and of commands of the plugin for any pods or locked parts of such commands
  -- in processes that opened a tenant's store at any time before, each of them but the deletions however
  -- it ends, where the tenants that are added, deleted or locked have stores other than the node's and
  -- the pods', with a retry that does nothing but call its function: the store names each tenant once and
  -- has the same subnets, available or held, none of them twice.
  pub Changes-Nodup :
      (only_runs : OnlyRuns retry) (node : Text) (v : NodeData) (m m' : Machine W)
      → node ≢ pod_list
      → Holds node (m.node_disks node) v
      → NodupKeys v.tenant_list
      → Nodup (subnets v6 v)
      → ((p : Prefix) → Mem p (subnets v6 v) → ReadsBack v6 p)
      → Changes node m m'
      → (v' : NodeData) × Holds node (m'.node_disks node) v'
        × NodupKeys v'.tenant_list
        × Perm (subnets v6 v') (subnets v6 v)
        × Nodup (subnets v6 v')
  Changes-Nodup only_runs node v m m' _ h nodup once text changes =
      let g = Changes-HasSubnets only_runs node (subnets v6 v) text changes (record {
        content = v;
        held_there = h;
        names_once = nodup;
        same_subnets = Perm.refl (subnets v6 v);
      }) in
      (
        g.content,
        g.held_there,
        g.names_once,
        g.same_subnets,
        Perm.nodup (Perm.symm g.same_subnets) once,
      )
