-- ===== src/Cni/Del.antt =====
-- `cmdDel` as a whole: what it leaves in the tenant's file.
use mathlib.Core.Path.{subst}
use tenant_cni.Backend.Veth.{del_veth}
use tenant_cni.Base.{
  Text, ap, arith, err, none, ok, panics, refl, returns, runs_on, some, sym, ℕ, ◌∙◌, ◌≡◌,
}
use tenant_cni.Base.Dict.{erase, erase-insert_new, lookup}
use tenant_cni.Cni.Add.{cmd_add_records, container_of}
use tenant_cni.Cni.Commands.{CmdArgs, CniResult, cmd_add, cmd_del, delete_pod_entry}
use tenant_cni.Cni.Tenants.{
  HoldsTenant, IsFound, Keeps, Keeps-bind, KeepsTenants, KeepsTenants-bind, found_machine,
  on_outside-KeepsTenants, open_found_tenant, open_pods-KeepsTenants, refiled-HoldsTenant,
  tenant_on_disk, tenant_store_of-IsReady,
}
use tenant_cni.Host.{Cmd, fail, ◌>>=◌, ◌>>◌}
use tenant_cni.Host.Laws.{bind_ok}
use tenant_cni.Host.Netlink.{Netlink}
use tenant_cni.Ipam.Address.{TenantIpam, release_ip}
use tenant_cni.Ipam.Address.Consistency.{IsIpv4Subnet}
use tenant_cni.Ipam.Address.Laws.{IsReady, IsUnknown, load_tenant_data_ready, stored_with, with_ip}
use tenant_cni.Ipam.Address.Uniqueness.{key_of_id-insert_self}
use tenant_cni.Ipam.Tenant.Subnets.{held}
use tenant_cni.Ipam.TenantStore.{TenantStore, contains_ip, del, key_of_id, store_tenant_data}
use tenant_cni.Ipam.Types.{TenantData}
use tenant_cni.Machine.{
  Machine, on_outside, on_tenant, open_pods, put_self, save_pods, save_tenant, write_pods,
}
use tenant_cni.Net.Addr.{Ipv6Text}
use tenant_cni.Net.Ip.{Ip, ip_text}
use tenant_cni.Net.RoundTrip.{IsBytes}

module _ {W : Type 0} (n : Netlink W) (v6 : Ipv6Text) (next_ip : Ip → Ip)
    (retry : Cmd (Machine W) Text → Cmd (Machine W) Text) (rounds : ℕ) where
  -- What follows the release.
  abbrev pub unplug : CmdArgs → Text → Cmd (Machine W) (Unit {0})
  unplug a pod = do
    on_outside (n.get_ns a.netns)
    delete_pod_entry pod
    on_outside (del_veth n a.netns a.if_name)

  delete_pod_entry-KeepsTenants : (pod : Text) → KeepsTenants (delete_pod_entry {W = W} pod)
  unfolding delete_pod_entry write_pods save_pods
  delete_pod_entry-KeepsTenants pod =
      KeepsTenants-bind (open_pods fail) (λ s. write_pods (erase pod s.value.pods) s)
        open_pods-KeepsTenants (λ _ _. refl)

  pub unplug-Keeps :
      {X : Type 0} (part : Machine W → X)
      (outside : (A : Type 0) (c : Cmd W A) → Keeps part (on_outside c)) (a : CmdArgs) (pod : Text)
      → Keeps part (delete_pod_entry {W = W} pod)
      → Keeps part (unplug a pod)
  unplug-Keeps part outside a pod deleted =
      let unset = on_outside (del_veth n a.netns a.if_name) in
      Keeps-bind part (on_outside (n.get_ns a.netns)) (λ _. delete_pod_entry pod >> unset)
        (outside _ (n.get_ns a.netns))
        (λ _.
          Keeps-bind part (delete_pod_entry pod) (λ _. unset) deleted
            (λ _. outside _ (del_veth n a.netns a.if_name)))

  pub unplug-KeepsTenants : (a : CmdArgs) (pod : Text) → KeepsTenants (unplug a pod)
  unplug-KeepsTenants a pod =
      unplug-Keeps (λ m. m.tenant_disks) (λ _ c. on_outside-KeepsTenants c) a pod
        (delete_pod_entry-KeepsTenants pod)

  abbrev pub release : CmdArgs → TenantIpam → Cmd (Machine W) (Unit {0} × TenantStore)
  release a tim = on_tenant tim.tenant_name (elim (release_ip a.container_id tim) [
    | returns (none, s) ↦ returns (ok tt, s)
    | returns (some e, s) ↦ returns (err e, s)
    | panics ↦ panics
    | runs_on ↦ runs_on
  ])

  abbrev pub del_from : CmdArgs → Text → TenantIpam → Cmd (Machine W) (Unit {0})
  del_from a pod tim = release a tim >>= λ _. unplug a pod

  pub cmd_del_there :
      (a : CmdArgs) (pod tenant : Text) (t : TenantData) (m : Machine W)
      → IsFound retry a.args pod tenant m
      → HoldsTenant tenant (m.tenant_disks tenant) t
      → cmd_del n v6 next_ip retry rounds a m
        ≡ del_from a pod (tenant_on_disk tenant t m) (found_machine tenant t pod m)
  unfolding cmd_del
  cmd_del_there a pod tenant t m found h =
      open_found_tenant retry a.args pod tenant t (del_from a) m found h

  release_ip_ready :
      (id key : Text) (tim : TenantIpam) (t : TenantData)
      → IsReady t tim.tenant_store
      → key_of_id id t.ips ≡ some key
      → release_ip id tim
        ≡ returns (none, stored_with v6 (record t { ips = erase key t.ips }) tim.tenant_store)
  unfolding release_ip del store_tenant_data
  release_ip_ready id key tim t r known =
      ground (arith, load_tenant_data_ready t tim.tenant_store r, known)

  release_there :
      (a : CmdArgs) (key : Text) (tim : TenantIpam) (t : TenantData) (m : Machine W)
      → IsReady t tim.tenant_store
      → key_of_id a.container_id t.ips ≡ some key
      → let s = stored_with v6 (record t { ips = erase key t.ips }) tim.tenant_store in
        release a tim m ≡ (returns (ok (tt, s)), save_tenant s tim.tenant_name m)
  unfolding on_tenant
  release_there a key tim t m r known = rw (release_ip_ready a.container_id key tim t r known) refl

  -- `cmdDel` for a container that has an address, where the pod's name is read from the arguments and its
  -- tenant is found, with a retry that makes one call where that succeeds, and where the tenant's store is
  -- there and can be locked and written: the container's entry, and it alone, is gone from the tenant's
  -- data on disk, whatever the calls after the release answer.
  pub cmd_del_frees :
      (a : CmdArgs) (pod tenant key : Text) (t : TenantData) (m : Machine W)
      → IsFound retry a.args pod tenant m
      → HoldsTenant tenant (m.tenant_disks tenant) t
      → key_of_id a.container_id t.ips ≡ some key
      → HoldsTenant tenant
          ((cmd_del n v6 next_ip retry rounds a m).1.tenant_disks tenant)
          (record t { ips = erase key t.ips })
  unfolding save_tenant
  cmd_del_frees a pod tenant key t m found h known =
      let d = m.tenant_disks tenant in
      let t' : TenantData = record t { ips = erase key t.ips } in
      let tim = tenant_on_disk tenant t m in
      let m2 = found_machine tenant t pod m in
      let s = stored_with v6 t' tim.tenant_store in
      let released = release_there a key tim t m2 (tenant_store_of-IsReady tenant d t h) known in
      let unplugged : del_from a pod tim m2 ≡ unplug a pod (release a tim m2).1 =
        bind_ok (release a tim) (λ _. unplug a pod) m2 (tt, s) (ap (λ z. z.0) released) in
      let kept : (cmd_del n v6 next_ip retry rounds a m).1.tenant_disks tenant ≡ s.disk =
        ap (λ z. z.1.tenant_disks tenant) (cmd_del_there a pod tenant t m found h ∙ unplugged)
        ∙ ap (λ f. f tenant) (unplug-KeepsTenants a pod (release a tim m2).1)
        ∙ ap (λ z. z.1.tenant_disks tenant) released
        ∙ put_self tenant s.disk m2.tenant_disks in
      subst (λ z. HoldsTenant tenant z t') (sym kept) (refiled-HoldsTenant tenant d t t' h)

  -- `cmdAdd` and then `cmdDel` for one new container, with a retry that makes one call where that
  -- succeeds: the pod's name is read from the arguments and its tenant is found both times; the tenant's
  -- store is there, can be locked and written, holds data with an IPv4 subnet in which the container has
  -- no address, and `NextIP` gives bytes; `cmdAdd` succeeds. Then the tenant's data on disk is what it
  -- was, but for the last address, which is the one that was given out.
  pub cmd_del-cmd_add :
      (bytes_next : (ip : Ip) → IsBytes (next_ip ip)) (a : CmdArgs) (pod tenant : Text)
      (t : TenantData) (m : Machine W) (r : CniResult)
      → IsFound retry a.args pod tenant m
      → HoldsTenant tenant (m.tenant_disks tenant) t
      → IsIpv4Subnet v6 t
      → IsUnknown a.container_id t
      → (cmd_add n v6 next_ip retry rounds a m).0 ≡ returns (ok r)
      → IsFound retry a.args pod tenant (cmd_add n v6 next_ip retry rounds a m).1
      → let m1 = (cmd_add n v6 next_ip retry rounds a m).1 in
        HoldsTenant tenant
          ((cmd_del n v6 next_ip retry rounds a m1).1.tenant_disks tenant)
          (record t { last = ip_text v6 r.address.ip })
  unfolding contains_ip
  cmd_del-cmd_add bytes_next a pod tenant t m r found h sub unknown success found_again =
      let (_, free, held) =
        cmd_add_records n v6 next_ip retry rounds bytes_next a pod tenant t m r found h sub unknown
          success in
      let m1 = (cmd_add n v6 next_ip retry rounds a m).1 in
      let ip = r.address.ip in
      let info = container_of n v6 next_ip retry rounds a pod in
      let fresh : lookup (ip_text v6 ip) t.ips ≡ none = ground (arith, free) in
      let known = key_of_id-insert_self (ip_text v6 ip) info t.ips fresh unknown in
      let gone =
        cmd_del_frees a pod tenant (ip_text v6 ip) (with_ip v6 ip info t) m1 found_again held
          known in
      subst
        (λ z.
          HoldsTenant tenant ((cmd_del n v6 next_ip retry rounds a m1).1.tenant_disks tenant)
            (record t { ips = z; last = ip_text v6 ip }))
        (erase-insert_new (ip_text v6 ip) info t.ips fresh) gone
