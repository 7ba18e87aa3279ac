-- ===== src/System/Delete.antt =====
-- `deleteTenant` on a node where another tenant's file serves its pods: it does so afterwards, however the
-- handler ends.
use mathlib.Core.Path.{subst}
use tenant_cni.Api.{Tenant}
use tenant_cni.Backend.Bridge.{delete_tenant_bridge}
use tenant_cni.Backend.Vxlan.{delete_vxlan_device}
use tenant_cni.Base.{
  List, Option-cases, Result, Text, ap, arith, err, if◌then◌else◌, inl, inr, not_found, ok, refl,
  some, sym, true, ℕ, ◌∙◌, ◌≡◌, ◌≢◌,
}
use tenant_cni.Cni.Tenants.{KeepsTenants, KeepsTenants-bind}
use tenant_cni.Controller.Delete.{
  delete_listed, delete_on_node, delete_tenant, pods_of_tenant, release_subnet, remove_store,
  return_subnets,
}
use tenant_cni.Controller.Events.{Client, EventObject, exists_node, refresh_tenant}
use tenant_cni.Host.{
  Cmd, attempt, crash, deref, fail, from_result, ignore, modifies, pure, ◌>>=◌, ◌>>◌,
}
use tenant_cni.Host.Netlink.{Netlink}
use tenant_cni.Ipam.Address.{TenantIpam}
use tenant_cni.Ipam.NodeStore.{NodeStore, store_node_data}
use tenant_cni.Ipam.PodStore.{PodStore}
use tenant_cni.Ipam.Tenant.{NodeIpam}
use tenant_cni.Ipam.TenantStore.{delete_tenant_store}
use tenant_cni.Ipam.Types.{Bridge, Vxlan}
use tenant_cni.K8s.{Environment, get_current_node_name}
use tenant_cni.Machine.{Machine, on_outside, open_node, open_pods, open_tenant, save_node}
use tenant_cni.Net.Addr.{Ipv6Text}
use tenant_cni.System.Opening.{crash-GivesUp, open_tenant_apart}
use tenant_cni.System.Served.{IsServed, Watch}
use tenant_cni.System.Serves.{
  IsServedOn, KeepsTenants-Serves, Serves, Serves-bind, asked-Serves, deref_at, from_result-Serves,
  if_Serves, ignore-Serves, on_outside-Serves, put_other, told-Serves,
}
use tenant_cni.System.Stores.{open_node-KeepsTenants, open_pods-crash-KeepsTenants}

module _ {W : Type 0} where
  pub release_subnet-KeepsTenants :
      (c : Client W) (n : Netlink W) (env : Environment) (v6 : Ipv6Text)
      (parse_mac : Text → Result (List ℕ)) (node_name tenant_name : Text)
      → KeepsTenants (release_subnet c n env v6 parse_mac node_name tenant_name)
  unfolding release_subnet save_node
  release_subnet-KeepsTenants c n env v6 parse_mac node_name tenant_name =
      let written : NodeIpam → NodeStore = λ nim.
        let s = nim.node_store in
        let v = s.value in
        (store_node_data (record s { value = return_subnets v6 tenant_name v.tenant_list v })).1 in
      KeepsTenants-bind (open_node node_name) (λ nim. modifies (save_node (written nim) node_name))
        (open_node-KeepsTenants node_name) (λ nim m. refl)

module _ {W : Type 0} (c : Client W) (n : Netlink W) (env : Environment) (v6 : Ipv6Text)
    (parse_mac : Text → Result (List ℕ)) where
  -- What `deleteTenant` does once the tenant's store is open.
  abbrev pub unbridge : Text → Bridge → TenantIpam → Vxlan → Cmd (Machine W) (Unit {0})
  unbridge node_name bridge tim vxlan = do
    ignore (on_outside (delete_tenant_bridge n v6 bridge.name))
    ignore (on_outside (delete_vxlan_device n v6 parse_mac vxlan.vtep_name))
    remove_store c n env v6 parse_mac tim.tenant_name
    release_subnet c n env v6 parse_mac node_name tim.tenant_name

module _ {W : Type 0} (v6 : Ipv6Text) (watch : Watch) (name : Text) where
  module _ (c : Client W) (n : Netlink W) (env : Environment)
      (parse_mac : Text → Result (List ℕ)) where
    remove_store-Serves :
        (other : Text)
        → name ≢ other
        → Serves v6 watch name (remove_store c n env v6 parse_mac other)
    unfolding remove_store
    remove_store-Serves other apart m g =
        let gone =
          (delete_tenant_store other (c.read_dir other) (c.remove_all other)
            (m.tenant_disks other)).1 in
        subst (IsServed v6 watch name) (sym (put_other name other gone m.tenant_disks apart)) g

    unbridge-Serves :
        (node_name : Text) (bridge : Bridge) (tim : TenantIpam) (vxlan : Vxlan)
        → name ≢ tim.tenant_name
        → Serves v6 watch name (unbridge c n env v6 parse_mac node_name bridge tim vxlan)
    unbridge-Serves node_name bridge tim vxlan apart =
        let off = on_outside (delete_tenant_bridge n v6 bridge.name) in
        let off_vxlan = on_outside (delete_vxlan_device n v6 parse_mac vxlan.vtep_name) in
        let remove = remove_store c n env v6 parse_mac tim.tenant_name in
        let release = release_subnet c n env v6 parse_mac node_name tim.tenant_name in
        Serves-bind v6 watch name (ignore off) (λ _. ignore off_vxlan >> (remove >> release))
          (ignore-Serves v6 watch name off
            (on_outside-Serves v6 watch name (delete_tenant_bridge n v6 bridge.name)))
          (λ _.
            Serves-bind v6 watch name (ignore off_vxlan) (λ _. remove >> release)
              (ignore-Serves v6 watch name off_vxlan (
                on_outside-Serves v6 watch name
                  (delete_vxlan_device n v6 parse_mac vxlan.vtep_name)))
              (λ _.
                Serves-bind v6 watch name remove (λ _. release)
                  (remove_store-Serves tim.tenant_name apart)
                  (λ _.
                    KeepsTenants-Serves v6 watch name release (
                      release_subnet-KeepsTenants c n env v6 parse_mac node_name tim.tenant_name))))

    delete_on_node-Serves :
        (node_name tenant_name : Text)
        → name ≢ tenant_name
        → Serves v6 watch name (delete_on_node c n env v6 parse_mac node_name tenant_name)
    unfolding delete_on_node
    delete_on_node-Serves node_name tenant_name apart =
        let go : TenantIpam → Cmd (Machine W) (Unit {0}) = λ tim.
          deref tim.tenant_store.value.bridge >>= λ bridge.
          deref tim.tenant_store.value.vxlan
          >>= unbridge c n env v6 parse_mac node_name bridge tim in
        let listed : PodStore → Cmd W (Unit {0}) =
          λ s. delete_listed c n env v6 parse_mac (pods_of_tenant tenant_name s.value.pods) in
        Serves-bind v6 watch name (open_pods (λ _. crash))
          (λ s. on_outside (listed s) >>= λ _. open_tenant (λ _. crash) tenant_name >>= go)
          (KeepsTenants-Serves v6 watch name (open_pods (λ _. crash)) open_pods-crash-KeepsTenants)
          (λ s.
            told-Serves v6 watch name (listed s) (λ _. open_tenant (λ _. crash) tenant_name >>= go)
              (λ _.
                open_tenant_apart v6 watch name (λ _. crash) tenant_name go crash-GivesUp apart
                  (λ tim m g named.
                    let v = tim.tenant_store.value in
                    deref_at v6 watch name v.bridge
                      (λ bridge.
                        deref v.vxlan >>= unbridge c n env v6 parse_mac node_name bridge tim)
                      m g
                      (λ bridge.
                        deref_at v6 watch name v.vxlan
                          (unbridge c n env v6 parse_mac node_name bridge tim) m g
                          (λ vxlan.
                            unbridge-Serves node_name bridge tim vxlan (λ e. apart (e ∙ named)) m
                              g)))))

    -- What `deleteTenant` makes of the API server's answer: a tenant that is there or is not goes on.
    abbrev gone_or_there : Result Tenant → Cmd (Machine W) (Unit {0})
    gone_or_there found = elim found [ ok _ ↦ pure tt | err not_found ↦ pure tt | err e ↦ fail e ]

    gone_or_there-Serves : (found : Result Tenant) → Serves v6 watch name (gone_or_there found)
    gone_or_there-Serves found m g =
        let same : (gone_or_there found m).1 ≡ m = ground arith in
        subst (IsServedOn v6 watch name) (sym same) g

    abbrev delete_if_member : Tenant → Text → Cmd (Machine W) (Unit {0})
    delete_if_member deleted node_name =
        if exists_node deleted.spec.nodes node_name
        then delete_on_node c n env v6 parse_mac node_name deleted.object_name
        else pure tt

    abbrev delete_after : Tenant → Result Tenant → Cmd (Machine W) (Unit {0})
    delete_after deleted found = gone_or_there found >>= λ _. on_outside c.kube.connect >>= λ _.
        on_outside (get_current_node_name c.kube env true) >>= delete_if_member deleted

    delete_after-Serves :
        (deleted : Tenant) (found : Result Tenant)
        → name ≢ deleted.object_name
        → Serves v6 watch name (delete_after deleted found)
    delete_after-Serves deleted found apart =
        let search = get_current_node_name c.kube env true in
        let tail : Cmd (Machine W) (Unit {0}) = on_outside search >>= delete_if_member deleted in
        Serves-bind v6 watch name (gone_or_there found)
          (λ _. on_outside c.kube.connect >>= λ _. tail) (gone_or_there-Serves found)
          (λ _.
            told-Serves v6 watch name c.kube.connect (λ _. tail)
              (λ _. told-Serves v6 watch name search (delete_if_member deleted) (λ node_name.
                if_Serves v6 watch name (exists_node deleted.spec.nodes node_name)
                  (delete_on_node c n env v6 parse_mac node_name deleted.object_name) (pure tt)
                  (delete_on_node-Serves node_name deleted.object_name apart) (λ m g. g))))

    abbrev delete_known : Text → Tenant → Cmd (Machine W) (Unit {0})
    delete_known key deleted = from_result (c.split_key key) >>= λ parts.
        attempt (on_outside (refresh_tenant c parts.0 parts.1)) >>= delete_after deleted

    delete_known-Serves :
        (key : Text) (deleted : Tenant)
        → name ≢ deleted.object_name
        → Serves v6 watch name (delete_known key deleted)
    delete_known-Serves key deleted apart =
        let go : Text × Text → Cmd (Machine W) (Unit {0}) = λ parts.
          attempt (on_outside (refresh_tenant c parts.0 parts.1)) >>= delete_after deleted in
        from_result-Serves v6 watch name (c.split_key key) go (λ parts _.
          asked-Serves v6 watch name (refresh_tenant c parts.0 parts.1) (delete_after deleted)
            (λ found. delete_after-Serves deleted found apart))

    pub delete_tenant-Serves :
        (obj : EventObject)
        → ((x : Tenant) → obj.old_obj ≡ some x → name ≢ x.object_name)
        → Serves v6 watch name (delete_tenant c n env v6 parse_mac obj)
    unfolding delete_tenant
    delete_tenant-Serves obj apart m g =
        let run = delete_tenant c n env v6 parse_mac obj in
        elim (Option-cases obj.old_obj) [
          | inl lost ↦
              let same : (run m).1 ≡ m = rw (lost, delete_tenant) refl in
              subst (IsServedOn v6 watch name) (sym same) g
          | inr (deleted, there) ↦
              let same : run m ≡ delete_known obj.key deleted m = rw (there, delete_tenant) refl in
              subst (IsServedOn v6 watch name) (sym (ap (λ z. z.1) same))
                (delete_known-Serves obj.key deleted (apart deleted there) m g)
        ]
