-- ===== src/System/Update.antt =====
-- `updateTenant` preserves what the calls on the outside and the opening of a tenant's store preserve: that
-- a tenant's file serves its pods is of that kind.
use mathlib.Core.Path.{subst}
use tenant_cni.Api.{Node, Tenant}
use tenant_cni.Base.{
  Bool, List, Option, Result, Text, [], bytes, err, if◌then◌else◌, is_empty, none, not, ok, some,
  sym, text_eq, ℕ, ◌&&◌, ◌||◌, ◌∷◌,
}
use tenant_cni.Controller.Events.{
  Client, EventObject, add_event, delete_event, event_update, exists_node, refresh_tenant,
}
use tenant_cni.Controller.Update.{
  illegal_change, reach_from_file, reach_node, reach_nodes, restore, revert, revert_changes,
  same_nodes, same_tenant, update_nodes, update_on_node, update_tenant,
}
use tenant_cni.Host.{Cmd, attempt, crash, deref, pure, ◌>>=◌, ◌>>◌}
use tenant_cni.Host.Netlink.{Netlink}
use tenant_cni.Ipam.Address.{TenantIpam}
use tenant_cni.Ipam.Types.{TenantData, Vxlan}
use tenant_cni.K8s.{Environment, get_current_node_name, get_kube_client_set}
use tenant_cni.Machine.{Machine, on_outside, open_tenant}
use tenant_cni.Net.Addr.{Ipv6Text}
use tenant_cni.System.Invariant.{
  Preserves, Preserves-bind, asked_Preserves, deref-Preserves, if_Preserves, told_Preserves,
}
use tenant_cni.System.Prepared.{open_tenant-disk}
use tenant_cni.System.Served.{IsServed, Watch}
use tenant_cni.System.Serves.{IsServedOn, Serves, on_outside-Serves}

module _ {W : Type 0} (P : Machine W → Type 0) where
  module _ (outside : (A : Type 0) (x : Cmd W A) → Preserves P (on_outside x))
      (opening : (owner : Text) → Preserves P (open_tenant (λ _. crash) owner)) (c : Client W)
      (n : Netlink W) (env : Environment) (v6 : Ipv6Text) (parse_mac : Text → Result (List ℕ)) where
    reach_from_file-Preserves :
        (tenant : Tenant) (node : Node)
        → Preserves P (reach_from_file c n env v6 parse_mac tenant node)
    unfolding reach_from_file
    reach_from_file-Preserves tenant node =
        let reach_it : TenantIpam → Vxlan → Cmd (Machine W) (Unit {0}) =
          λ _ vxlan. on_outside (reach_node c n env v6 parse_mac tenant node vxlan) in
        Preserves-bind P (open_tenant (λ _. crash) tenant.object_name)
          (λ tim. deref tim.tenant_store.value.vxlan >>= reach_it tim) (opening tenant.object_name)
          (λ tim.
            deref-Preserves P tim.tenant_store.value.vxlan (reach_it tim)
              (λ vxlan. outside _ (reach_node c n env v6 parse_mac tenant node vxlan)))

    reach_nodes-Preserves :
        (node_name : Text) (tenant : Tenant) (nodes : List Node)
        → Preserves P (reach_nodes c n env v6 parse_mac node_name tenant nodes)
    unfolding reach_nodes
    reach_nodes-Preserves node_name tenant [] = λ m p. p
    reach_nodes-Preserves node_name tenant (node ∷ rest) =
        let later = reach_nodes c n env v6 parse_mac node_name tenant rest in
        let this = reach_from_file c n env v6 parse_mac tenant node in
        if_Preserves P
          (text_eq node.name node_name
            || is_empty node.node_ip
            || is_empty node.vtep_ip
            || is_empty node.vtep_mac)
          later (this >> later) (reach_nodes-Preserves node_name tenant rest)
          (Preserves-bind P this (λ _. later) (reach_from_file-Preserves tenant node)
            (λ _. reach_nodes-Preserves node_name tenant rest))

    -- What `updateTenant` does with a tenant that it has read anew.
    abbrev reach : Text → Result Tenant → Cmd (Machine W) (Option Tenant)
    reach node_name found = elim found [
      | err _ ↦ crash
      | ok tenant ↦ do
        reach_nodes c n env v6 parse_mac node_name tenant tenant.spec.nodes
        on_outside (c.record_event tenant event_update)
        pure (some tenant)
    ]

    reach-Preserves :
        (node_name : Text) (found : Result Tenant) → Preserves P (reach node_name found)
    reach-Preserves node_name (err e) = λ m p. p
    reach-Preserves node_name (ok tenant) =
        Preserves-bind P (reach_nodes c n env v6 parse_mac node_name tenant tenant.spec.nodes)
          (λ _. on_outside (c.record_event tenant event_update) >>= λ _. pure (some tenant))
          (reach_nodes-Preserves node_name tenant tenant.spec.nodes)
          (λ _.
            told_Preserves P outside (c.record_event tenant event_update) (λ _. pure (some tenant))
              (λ _ _ p. p))

    update_nodes-Preserves :
        (parts : Text × Text) (key node_name : Text) (new old : Tenant)
        → Preserves P (update_nodes c n env v6 parse_mac parts key node_name new old)
    unfolding update_nodes
    update_nodes-Preserves parts key node_name new old =
        let is_member = exists_node new.spec.nodes node_name in
        let was_member = exists_node old.spec.nodes node_name in
        let sent : EventObject → Cmd (Machine W) (Option Tenant) =
          λ e. on_outside (c.enqueue e) >>= λ _. pure none in
        let left : (e : EventObject) → Preserves P (sent e) =
          λ e. told_Preserves P outside (c.enqueue e) (λ _. pure none) (λ _ _ p. p) in
        let refresh : Cmd (Machine W) (Option Tenant) =
          attempt (on_outside (refresh_tenant c parts.0 parts.1)) >>= reach node_name in
        let stay : Cmd (Machine W) (Option Tenant) =
          if is_member then refresh else pure (some new) in
        let gone : Cmd (Machine W) (Option Tenant) =
          if not is_member && was_member then sent (delete_event key (some old)) else stay in
        if_Preserves P (is_member && not was_member) (sent (add_event key (some new))) gone
          (left (add_event key (some new)))
          (if_Preserves P (not is_member && was_member) (sent (delete_event key (some old))) stay
            (left (delete_event key (some old)))
            (if_Preserves P is_member refresh (pure (some new))
              (asked_Preserves P outside (refresh_tenant c parts.0 parts.1) (reach node_name)
                (reach-Preserves node_name))
              (λ _ p. p)))

    revert-Preserves :
        (parts : Text × Text) (new : Tenant) → Preserves P (revert c n env v6 parse_mac parts new)
    unfolding revert
    revert-Preserves parts new =
        let send : TenantData → Cmd W Tenant =
          λ on_file. c.retry_on_conflict (restore c n env v6 parse_mac parts on_file) in
        let go : TenantIpam → Cmd (Machine W) (Unit {0}) =
          λ tim. on_outside (send tim.tenant_store.value) >>= λ _. pure tt in
        told_Preserves P outside (c.record_event new (bytes "Failed Update"))
          (λ _. open_tenant (λ _. crash) new.object_name >>= go)
          (λ _.
            Preserves-bind P (open_tenant (λ _. crash) new.object_name) go (opening new.object_name)
              (λ tim.
                told_Preserves P outside (send tim.tenant_store.value) (λ _. pure tt) (λ _ _ p. p)))

    -- What `updateTenant` does once it is through with the nodes.
    abbrev check_fields : Text × Text → Text → Tenant → Option Tenant → Cmd (Machine W) (Unit {0})
    check_fields parts node_name old next = elim next [
      | none ↦ pure tt
      | some tenant ↦ revert_changes c n env v6 parse_mac parts node_name tenant old
    ]

    check_fields-Preserves :
        (parts : Text × Text) (node_name : Text) (old : Tenant) (next : Option Tenant)
        → Preserves P (check_fields parts node_name old next)
    unfolding revert_changes
    check_fields-Preserves parts node_name old none = λ m p. p
    check_fields-Preserves parts node_name old (some tenant) =
        if_Preserves P (exists_node tenant.spec.nodes node_name && illegal_change tenant old)
          (revert c n env v6 parse_mac parts tenant) (pure tt) (revert-Preserves parts tenant)
          (λ _ p. p)

    update_on_node-Preserves :
        (parts : Text × Text) (key node_name : Text) (new old : Tenant)
        → Preserves P (update_on_node c n env v6 parse_mac parts key node_name new old)
    unfolding update_on_node
    update_on_node-Preserves parts key node_name new old =
        let on_nodes = update_nodes c n env v6 parse_mac parts key node_name new old in
        let same = same_nodes new.spec.nodes old.spec.nodes in
        let nodes : Cmd (Machine W) (Option Tenant) = if same then pure (some new) else on_nodes in
        let go = check_fields parts node_name old in
        if_Preserves P (same_tenant new old) (pure tt) (nodes >>= go) (λ _ p. p)
          (Preserves-bind P nodes go
            (if_Preserves P same (pure (some new)) on_nodes (λ _ p. p)
              (update_nodes-Preserves parts key node_name new old))
            (check_fields-Preserves parts node_name old))

    pub update_tenant-Preserves :
        (obj : EventObject) → Preserves P (update_tenant c n env v6 parse_mac obj)
    unfolding update_tenant
    update_tenant-Preserves obj =
        let parts : Text × Text = elim (c.split_key obj.key) [ ok p ↦ p | err _ ↦ ([], []) ] in
        let on_node : Tenant → Tenant → Result Text → Cmd (Machine W) (Unit {0}) = λ new old named.
          update_on_node c n env v6 parse_mac parts obj.key
            (elim named [ ok name ↦ name | err _ ↦ [] ]) new old in
        let named_then : Tenant → Tenant → Bool → Cmd (Machine W) (Unit {0}) = λ new old clientset.
          attempt (on_outside (get_current_node_name c.kube env clientset)) >>= on_node new old in
        let with_old : Tenant → Tenant → Cmd (Machine W) (Unit {0}) =
          λ new old. on_outside (get_kube_client_set c.kube env) >>= named_then new old in
        deref-Preserves P obj.new_obj (λ new. deref obj.old_obj >>= with_old new)
          (λ new. deref-Preserves P obj.old_obj (with_old new) (λ old.
            told_Preserves P outside (get_kube_client_set c.kube env) (named_then new old)
              (λ clientset.
                asked_Preserves P outside (get_current_node_name c.kube env clientset)
                  (on_node new old) (λ named. update_on_node-Preserves parts obj.key _ new old))))

module _ {W : Type 0} (v6 : Ipv6Text) (watch : Watch) (name : Text) where
  -- The opening of any tenant's store leaves a file that serves as it is.
  open_tenant-Serves :
      (owner : Text) → Serves {W = W} v6 watch name (open_tenant (λ _. crash) owner)
  open_tenant-Serves owner m g =
      subst (IsServed v6 watch name) (sym (open_tenant-disk owner name g.content m g.held)) g

  pub update_tenant-Serves :
      (c : Client W) (n : Netlink W) (env : Environment) (parse_mac : Text → Result (List ℕ))
      (obj : EventObject)
      → Serves v6 watch name (update_tenant c n env v6 parse_mac obj)
  update_tenant-Serves c n env =
      update_tenant-Preserves (IsServedOn v6 watch name) (λ _ x. on_outside-Serves v6 watch name x)
        open_tenant-Serves c n env v6
