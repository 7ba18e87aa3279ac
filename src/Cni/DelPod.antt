-- ===== src/Cni/DelPod.antt =====
-- `cmdDel` and the plugin's search for the tenant of a pod.
use mathlib.Core.Path.{subst}
use tenant_cni.Backend.Veth.{del_veth}
use tenant_cni.Base.{
  Text, ap, arith, err, ok, returns, sym, tenant_name_not_found, ℕ, ◌∙◌, ◌≡◌, ◌≢◌,
}
use tenant_cni.Base.Dict.{Dict, erase}
use tenant_cni.Cni.Commands.{CmdArgs, cmd_del, delete_pod_entry, find_tenant}
use tenant_cni.Cni.Del.{cmd_del_there, release, unplug}
use tenant_cni.Cni.PodEntries.{
  HoldsPods, delete_pod_entry-HoldsPods, find_tenant-HoldsPods, find_tenant_erased,
}
use tenant_cni.Cni.Tenants.{HoldsTenant, IsFound, Keeps, found_machine, tenant_on_disk}
use tenant_cni.Host.{Cmd, ◌>>◌}
use tenant_cni.Host.Laws.{bind_ok, ok_of_bind}
use tenant_cni.Host.Netlink.{Netlink}
use tenant_cni.Ipam.Address.{TenantIpam}
use tenant_cni.Ipam.Tenant.Subnets.{held}
use tenant_cni.Ipam.Types.{TenantData}
use tenant_cni.Machine.{Machine, on_outside, on_tenant, save_tenant}
use tenant_cni.Net.Addr.{Ipv6Text}
use tenant_cni.Net.Ip.{Ip}

module _ {W : Type 0} (n : Netlink W) (v6 : Ipv6Text) (next_ip : Ip → Ip)
    (retry : Cmd (Machine W) Text → Cmd (Machine W) Text) (rounds : ℕ) where
  release-Keeps_pods :
      (a : CmdArgs) (tim : TenantIpam)
      → Keeps (λ m. m.pod_disk) (release n v6 next_ip retry rounds a tim)
  unfolding on_tenant save_tenant
  release-Keeps_pods a tim m = ground arith

  unplug-HoldsPods :
      (a : CmdArgs) (pod : Text) (pods : Dict Text) (m : Machine W)
      → HoldsPods m.pod_disk pods
      → (unplug n v6 next_ip retry rounds a pod m).0 ≡ returns (ok tt)
      → HoldsPods (unplug n v6 next_ip retry rounds a pod m).1.pod_disk (erase pod pods)
  unfolding on_outside
  unplug-HoldsPods a pod pods m h success =
      let enter = on_outside {W = W} (n.get_ns a.netns) in
      let leave = on_outside {W = W} (del_veth n a.netns a.if_name) in
      let (_, entered, later) =
        ok_of_bind enter (λ _. delete_pod_entry pod >> leave) m tt success in
      let m1 = (enter m).1 in
      let (_, gone, _) = ok_of_bind (delete_pod_entry pod) (λ _. leave) m1 tt later in
      let step : unplug n v6 next_ip retry rounds a pod m ≡ leave (delete_pod_entry pod m1).1 =
        bind_ok enter (λ _. delete_pod_entry pod >> leave) m tt entered
        ∙ bind_ok (delete_pod_entry pod) (λ _. leave) m1 tt gone in
      subst (λ z. HoldsPods z.1.pod_disk (erase pod pods)) (sym step)
        (delete_pod_entry-HoldsPods pod pods m1 h)

  -- A `cmdDel` that succeeds, where the pod's name is read from the arguments and its tenant is found,
  -- with a retry that makes one call where that succeeds, where the tenant's store is there and can be
  -- locked and written, and where the pod store is there, can be written and holds each pod once: the
  -- plugin then finds no tenant for that pod, and for any other pod it finds what it found before.
  pub find_tenant-cmd_del :
      (a : CmdArgs) (pod other tenant : Text) (t : TenantData) (pods : Dict Text) (m : Machine W)
      → IsFound retry a.args pod tenant m
      → HoldsTenant tenant (m.tenant_disks tenant) t
      → HoldsPods m.pod_disk pods
      → other ≢ pod
      → let m1 = (cmd_del n v6 next_ip retry rounds a m).1 in
        (cmd_del n v6 next_ip retry rounds a m).0 ≡ returns (ok tt)
        → ((find_tenant pod m1).0 ≡ returns (err tenant_name_not_found))
          × ((find_tenant other m1).0 ≡ (find_tenant other m).0)
  unfolding save_tenant
  find_tenant-cmd_del a pod other tenant t pods m found held h apart success =
      let tim = tenant_on_disk tenant t m in
      let m2 = found_machine tenant t pod m in
      let free = release n v6 next_ip retry rounds a tim in
      let rest : Cmd (Machine W) (Unit {0}) = unplug n v6 next_ip retry rounds a pod in
      let step = cmd_del_there n v6 next_ip retry rounds a pod tenant t m found held in
      let (r, freed, unplugged) =
        ok_of_bind free (λ _. rest) m2 tt (ap (λ z. z.0) (sym step) ∙ success) in
      let h2 : HoldsPods m2.pod_disk pods = find_tenant-HoldsPods pod pods m h in
      let h3 : HoldsPods (free m2).1.pod_disk pods =
        subst (λ d. HoldsPods d pods) (sym (release-Keeps_pods a tim m2)) h2 in
      let whole = step ∙ bind_ok free (λ _. rest) m2 r freed in
      let left = unplug-HoldsPods a pod pods (free m2).1 h3 unplugged in
      find_tenant_erased pod other pods m (cmd_del n v6 next_ip retry rounds a m).1 h
        (subst (λ z. HoldsPods z.1.pod_disk (erase pod pods)) (sym whole) left) apart
