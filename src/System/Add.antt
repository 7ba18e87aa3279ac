-- ===== src/System/Add.antt =====
-- `addTenant` on a node where another tenant's file serves its pods: it does so afterwards, however the
-- handler ends.
use mathlib.Core.Path.{subst}
use tenant_cni.Api.{Tenant}
use tenant_cni.Base.{
  Bool, List, Result, Text, [], err, if◌then◌else◌, ok, refl, returns, sym, ℕ, ◌≡◌, ◌≢◌,
}
use tenant_cni.Controller.Add.{add_on_node, add_tenant, allocate_on_node, finish}
use tenant_cni.Controller.Events.{Client, exists_node, refresh_tenant}
use tenant_cni.Host.{Cmd, attempt, crash, pure, ◌>>=◌}
use tenant_cni.Host.Iptables.{Iptables}
use tenant_cni.Host.Netlink.{Netlink}
use tenant_cni.Ipam.Address.{TenantIpam}
use tenant_cni.Ipam.NodeStore.{NodeStore}
use tenant_cni.Ipam.Tenant.{NodeIpam}
use tenant_cni.K8s.{Environment, get_current_node_name, get_kube_client_set}
use tenant_cni.Machine.{Machine, on_outside, open_node, open_tenant, save_node}
use tenant_cni.Net.Addr.{Ipv6Text}
use tenant_cni.System.Opening.{crash-GivesUp, open_tenant_then}
use tenant_cni.System.Served.{IsServed, Watch}
use tenant_cni.System.Serves.{
  KeepsTenants-Serves, Serves, Serves-bind, answered-Serves, asked-Serves, from_result-Serves,
  if_Serves, on_outside-Serves, put_other, told-Serves,
}
use tenant_cni.System.Stores.{open_node-KeepsTenants}

-- The API server's answers for a key are never a tenant whose specification has the name.
abbrev pub IsOtherKey : {W : Type 0} → Client W → Text → Text → Type 0
IsOtherKey {W} c name key =
    (namespace tenant_name : Text) (w : W) (x : Tenant)
    → c.split_key key ≡ ok (namespace, tenant_name)
    → (refresh_tenant c namespace tenant_name w).0 ≡ returns (ok x)
    → name ≢ x.spec.name

module _ {W : Type 0} (v6 : Ipv6Text) (watch : Watch) (name : Text) where
  module _ (c : Client W) (n : Netlink W) (t : Iptables W) (env : Environment)
      (parse_mac : Text → Result (List ℕ)) where
    allocated_elsewhere :
        (tenant : Tenant) (rand : Result (List ℕ)) (node_name : Text) (nim : NodeIpam)
        (m : Machine W)
        → name ≢ tenant.spec.name
        → (allocate_on_node c n t env v6 parse_mac tenant rand node_name nim m).1.tenant_disks name
          ≡ m.tenant_disks name
    unfolding allocate_on_node save_node
    allocated_elsewhere tenant rand node_name nim m apart =
        put_other name tenant.spec.name _ m.tenant_disks apart

    allocate_on_node-Serves :
        (tenant : Tenant) (rand : Result (List ℕ)) (node_name : Text) (nim : NodeIpam)
        → name ≢ tenant.spec.name
        → Serves v6 watch name (allocate_on_node c n t env v6 parse_mac tenant rand node_name nim)
    allocate_on_node-Serves tenant rand node_name nim apart m g =
        subst (IsServed v6 watch name) (sym (allocated_elsewhere tenant rand node_name nim m apart))
          g

    add_on_node-Serves :
        (namespace tenant_name : Text) (tenant : Tenant) (rand : Result (List ℕ)) (node_name : Text)
        → name ≢ tenant.spec.name
        → Serves v6 watch name
            (add_on_node c n t env v6 parse_mac namespace tenant_name tenant rand node_name)
    unfolding add_on_node
    add_on_node-Serves namespace tenant_name tenant rand node_name apart =
        let last : NodeStore → TenantIpam → Cmd W (Unit {0}) = λ s tim.
          finish c n t env v6 parse_mac namespace tenant_name tenant node_name s.value tim in
        let open_it : NodeStore → Cmd (Machine W) (Unit {0}) =
          λ s. open_tenant (λ _. crash) tenant.object_name >>= λ tim. on_outside (last s tim) in
        let take : NodeIpam → Cmd (Machine W) NodeStore =
          allocate_on_node c n t env v6 parse_mac tenant rand node_name in
        Serves-bind v6 watch name (open_node node_name) (λ nim. take nim >>= open_it)
          (KeepsTenants-Serves v6 watch name (open_node node_name)
            (open_node-KeepsTenants node_name))
          (λ nim.
            Serves-bind v6 watch name (take nim) open_it
              (allocate_on_node-Serves tenant rand node_name nim apart)
              (λ s.
                open_tenant_then v6 watch name (λ _. crash) tenant.object_name
                  (λ tim. on_outside (last s tim)) crash-GivesUp
                  (λ tim m g _. on_outside-Serves v6 watch name (last s tim) m g)))

    abbrev add_if_member :
        Text × Text → Result (List ℕ) → Text → Result Tenant → Cmd (Machine W) (Unit {0})
    add_if_member parts rand node_name found = elim found [
      | err _ ↦ crash
      | ok tenant ↦
          if exists_node tenant.spec.nodes node_name
          then add_on_node c n t env v6 parse_mac parts.0 parts.1 tenant rand node_name
          else pure tt
    ]

    add_if_member-Serves :
        (parts : Text × Text) (rand : Result (List ℕ)) (node_name : Text) (found : Result Tenant)
        → ((x : Tenant) → found ≡ ok x → name ≢ x.spec.name)
        → Serves v6 watch name (add_if_member parts rand node_name found)
    add_if_member-Serves parts rand node_name (err e) apart = λ m g. g
    add_if_member-Serves parts rand node_name (ok tenant) apart =
        if_Serves v6 watch name (exists_node tenant.spec.nodes node_name)
          (add_on_node c n t env v6 parse_mac parts.0 parts.1 tenant rand node_name) (pure tt)
          (add_on_node-Serves parts.0 parts.1 tenant rand node_name (apart tenant refl)) (λ m g. g)

    pub add_tenant-Serves :
        (rand : Result (List ℕ)) (key : Text)
        → IsOtherKey c name key
        → Serves v6 watch name (add_tenant c n t env v6 parse_mac rand key)
    unfolding add_tenant
    add_tenant-Serves rand key apart =
        let last : Text × Text → Result Tenant → Result Text → Cmd (Machine W) (Unit {0}) =
          λ parts found named.
            add_if_member parts rand (elim named [ ok node_name ↦ node_name | err _ ↦ [] ]) found in
        let named_then : Text × Text → Result Tenant → Bool → Cmd (Machine W) (Unit {0}) =
          λ parts found clientset.
            attempt (on_outside (get_current_node_name c.kube env clientset))
            >>= last parts found in
        let found_then : Text × Text → Result Tenant → Cmd (Machine W) (Unit {0}) =
          λ parts found. on_outside (get_kube_client_set c.kube env) >>= named_then parts found in
        from_result-Serves v6 watch name (c.split_key key)
          (λ parts. attempt (on_outside (refresh_tenant c parts.0 parts.1)) >>= found_then parts)
          (λ parts split.
            answered-Serves v6 watch name (refresh_tenant c parts.0 parts.1) (found_then parts)
              (λ found known.
                told-Serves v6 watch name (get_kube_client_set c.kube env) (named_then parts found)
                  (λ clientset.
                    asked-Serves v6 watch name (get_current_node_name c.kube env clientset)
                      (last parts found)
                      (λ named. add_if_member-Serves parts rand _ found (λ x e.
                        let (w, gives) = known x e in apart parts.0 parts.1 w x split gives)))))
