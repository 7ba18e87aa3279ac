-- ===== src/Controller/Update.antt =====
-- pkg/controller/update.go. `reflect.DeepEqual` compares the fields that the model has: tenants that
-- differ in other metadata alone pass all tests of the source below it and nothing is done.
use mathlib.Core.Logic.{ite}
use native.Mathlib.Decide.{ℕ_discrete}
use tenant_cni.Api.{Node, Tenant}
use tenant_cni.Base.{
  Bool, List, Option, Result, Text, [], bytes, err, false, if◌then◌else◌, is_empty, none, not, ok,
  some, text_eq, true, ℕ, ◌&&◌, ◌||◌, ◌∷◌,
}
use tenant_cni.Controller.Events.{
  Client, EventObject, add_event, delete_event, event_update, exists_node, refresh_tenant,
  update_tenant_resource,
}
use tenant_cni.Host.{Cmd, attempt, crash, deref, ignore, pure, ◌>>=◌, ◌>>◌}
use tenant_cni.Host.Netlink.{Netlink}
use tenant_cni.Ipam.Types.{TenantData, Vxlan}
use tenant_cni.K8s.{Environment, get_current_node_name, get_kube_client_set}
use tenant_cni.Machine.{Machine, on_outside, open_tenant}
use tenant_cni.Net.Addr.{Ipv6Text}
use tenant_cni.Net.Decimal.{ℤ}
use tenant_cni.Net.Ip.{cidr_mask, parse_ip}
use tenant_cni.Routing.Routes.{add_arp, add_fdb, add_routes}

pub tenant_dec : Discrete Tenant
tenant_dec = hlevel ℕ_discrete

pub nodes_dec : Discrete (List Node)
nodes_dec = hlevel ℕ_discrete

pub integer_dec : Discrete ℤ
integer_dec = hlevel ℕ_discrete

abbrev pub same_tenant : Tenant → Tenant → Bool
same_tenant a b = ite (tenant_dec a b) true false

abbrev pub same_nodes : List Node → List Node → Bool
same_nodes a b = ite (nodes_dec a b) true false

abbrev pub same_integer : ℤ → ℤ → Bool
same_integer a b = ite (integer_dec a b) true false

-- Whether a name, the VNI or the prefix differs.
abbrev pub illegal_change : Tenant → Tenant → Bool
illegal_change new old =
    not (same_integer new.spec.subnet_prefix old.spec.subnet_prefix)
    || not (same_integer new.spec.vni old.spec.vni)
    || not (text_eq new.object_name old.object_name)
    || not (text_eq new.spec.name old.spec.name)

module _ {W : Type 0} (c : Client W) (n : Netlink W) (env : Environment) (v6 : Ipv6Text)
    (parse_mac : Text → Result (List ℕ)) where
  -- The ARP, FDB and route entries of one remote node, whose failures are logged. A device that is not
  -- there is a nil pointer; a hardware address that cannot be read is nil.
  unfoldable pub reach_node : Tenant → Node → Vxlan → Cmd W (Unit {0})
  reach_node tenant node vxlan = attempt (n.link_by_name vxlan.vtep_name) >>= λ found. elim found [
    | err _ ↦ crash
    | ok device ↦
        let mac : List ℕ = elim (parse_mac node.vtep_mac) [ ok mac ↦ mac | err _ ↦ [] ] in
        let vtep_ip = parse_ip v6 node.vtep_ip in
        do
          ignore (add_arp n device.index vtep_ip mac)
          ignore (add_fdb n device.index (parse_ip v6 node.node_ip) mac)
          ignore (
              add_routes n device.index
                (record { ip = vtep_ip; mask = cidr_mask tenant.spec.subnet_prefix 32 }) vtep_ip)
  ]

  -- The local device's values are on file; a tenant without one is a nil pointer.
  unfoldable pub reach_from_file : Tenant → Node → Cmd (Machine W) (Unit {0})
  reach_from_file tenant node = do
    tim ← open_tenant (λ _. crash) tenant.object_name
    vxlan ← deref tim.tenant_store.value.vxlan
    on_outside (reach_node tenant node vxlan)

  -- The loop over the nodes: this node is left out, and so is one that is not initialised.
  unfoldable pub reach_nodes : Text → Tenant → List Node → Cmd (Machine W) (Unit {0})
  reach_nodes node_name tenant [] = pure tt
  reach_nodes node_name tenant (node ∷ rest) =
      let later = reach_nodes node_name tenant rest in
      let this : Cmd (Machine W) (Unit {0}) = reach_from_file tenant node in
      if text_eq node.name node_name
        || is_empty node.node_ip
        || is_empty node.vtep_ip
        || is_empty node.vtep_mac
      then later
      else this >> later

  -- The part of `updateTenant` on the list of nodes: nothing where the update ends there, or the tenant
  -- to go on with.
  unfoldable pub update_nodes :
      Text × Text → Text → Text → Tenant → Tenant → Cmd (Machine W) (Option Tenant)
  update_nodes parts key node_name new old =
      let is_member = exists_node new.spec.nodes node_name in
      let was_member = exists_node old.spec.nodes node_name in
      let refresh : Cmd (Machine W) (Option Tenant) =
        attempt (on_outside (refresh_tenant c parts.0 parts.1)) >>= λ found. elim found [
          | err _ ↦ crash
          | ok tenant ↦ do
            reach_nodes node_name tenant tenant.spec.nodes
            on_outside (c.record_event tenant event_update)
            pure (some tenant)
        ] in
      if is_member && not was_member
      then on_outside (c.enqueue (add_event key (some new))) >> pure none
      else if not is_member && was_member
      then on_outside (c.enqueue (delete_event key (some old))) >> pure none
      else if is_member
      then refresh
      else pure (some new)

  -- The values on file are sent to the API server.
  unfoldable pub restore : Text × Text → TenantData → Cmd W Tenant
  restore parts on_file = do
    tenant ← refresh_tenant c parts.0 parts.1
    update_tenant_resource c tenant on_file parts.0
    pure tenant

  unfoldable pub revert : Text × Text → Tenant → Cmd (Machine W) (Unit {0})
  revert parts new = do
    on_outside (c.record_event new (bytes "Failed Update"))
    tim ← open_tenant (λ _. crash) new.object_name
    on_outside (c.retry_on_conflict (restore parts tim.tenant_store.value)) >>= λ _. pure tt

  -- The part of `updateTenant` on the other fields.
  unfoldable pub revert_changes : Text × Text → Text → Tenant → Tenant → Cmd (Machine W) (Unit {0})
  revert_changes parts node_name new old =
      if exists_node new.spec.nodes node_name && illegal_change new old
      then revert parts new
      else pure tt

  -- `updateTenant` on the two tenants.
  unfoldable pub update_on_node :
      Text × Text → Text → Text → Tenant → Tenant → Cmd (Machine W) (Unit {0})
  update_on_node parts key node_name new old =
      let nodes : Cmd (Machine W) (Option Tenant) =
        if same_nodes new.spec.nodes old.spec.nodes
        then pure (some new)
        else update_nodes parts key node_name new old in
      let changed : Cmd (Machine W) (Unit {0}) = nodes >>= λ next. elim next [
        | none ↦ pure tt
        | some tenant ↦ revert_changes parts node_name tenant old
      ] in
      if same_tenant new old then pure tt else changed

  -- `updateTenant`. The errors of the key and of the node's name are logged. An event without both
  -- objects makes the casts panic.
  unfoldable pub update_tenant : EventObject → Cmd (Machine W) (Unit {0})
  update_tenant obj = do
    new ← deref obj.new_obj
    old ← deref obj.old_obj
    let parts : Text × Text = (elim (c.split_key obj.key) [ ok p ↦ p | err _ ↦ ([], []) ])
    clientset ← on_outside (get_kube_client_set c.kube env)
    named ← attempt (on_outside (get_current_node_name c.kube env clientset))
    let node_name : Text = (elim named [ ok name ↦ name | err _ ↦ [] ])
    update_on_node parts obj.key node_name new old
