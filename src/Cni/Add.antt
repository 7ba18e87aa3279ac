-- ===== src/Cni/Add.antt =====
-- `cmdAdd` as a whole: what it leaves in the tenant's file.
use mathlib.Core.Path.{subst}
use tenant_cni.Base.{Text, ap, arith, false, length, none, ok, returns, sym, true, ℕ, ◌∙◌, ◌≡◌}
use tenant_cni.Cni.Attach.{attach-KeepsTenants, attach_result}
use tenant_cni.Cni.Commands.{CmdArgs, CniResult, allocate_on_node, attach, cmd_add}
use tenant_cni.Cni.Tenants.{
  HoldsTenant, IsFound, found_machine, open_found_tenant, refiled-HoldsTenant, tenant_on_disk,
  tenant_store_of-IsReady,
}
use tenant_cni.Host.{Cmd, deref, ◌>>=◌}
use tenant_cni.Host.Laws.{bind_ok, deref_ok, ok_of_bind}
use tenant_cni.Host.Netlink.{Netlink}
use tenant_cni.Ipam.Address.{TenantIpam, allocate_ip}
use tenant_cni.Ipam.Address.Consistency.{IsIpv4Subnet}
use tenant_cni.Ipam.Address.Laws.{IsUnknown, with_ip}
use tenant_cni.Ipam.Address.Search.{in_subnet}
use tenant_cni.Ipam.Address.Session.{allocate_ip_found}
use tenant_cni.Ipam.Tenant.Subnets.{held}
use tenant_cni.Ipam.TenantStore.{TenantStore, contains_ip}
use tenant_cni.Ipam.Types.{Bridge, ContainerNetInfo, TenantData}
use tenant_cni.Machine.{Machine, on_tenant, put_self, save_tenant}
use tenant_cni.Net.Addr.{Ipv6Text}
use tenant_cni.Net.Ip.{Ip, to4}
use tenant_cni.Net.RoundTrip.{IsBytes}

module _ {W : Type 0} (n : Netlink W) (v6 : Ipv6Text) (next_ip : Ip → Ip)
    (retry : Cmd (Machine W) Text → Cmd (Machine W) Text) (rounds : ℕ) where
  abbrev pub container_of : CmdArgs → Text → ContainerNetInfo
  container_of a pod = record {
    id = a.container_id;
    if_name = a.if_name;
    net_ns = a.netns;
    name = pod;
  }

  -- The allocation as the plugin sees it: it succeeds where the allocator gives an address without an
  -- error, and the allocator's store is on disk.
  allocate_on_node_ok :
      (info : ContainerNetInfo) (tim : TenantIpam) (m : Machine W) (r : Ip × TenantStore)
      → (allocate_on_node n v6 next_ip retry rounds info tim m).0 ≡ returns (ok r)
      → (allocate_ip v6 next_ip rounds info tim ≡ returns (ok r.0, none, r.1))
        × ((allocate_on_node n v6 next_ip retry rounds info tim m).1
            ≡ save_tenant r.1 tim.tenant_name m)
  unfolding allocate_on_node on_tenant
  allocate_on_node_ok info tim m r h = ground (arith, h)

  -- What follows once the tenant's store is open.
  abbrev pub add_to : CmdArgs → Text → TenantIpam → Cmd (Machine W) CniResult
  add_to a pod tim = deref tim.tenant_store.value.bridge >>= λ bridge.
      allocate_on_node n v6 next_ip retry rounds (container_of a pod) tim >>= λ r.
      attach n v6 next_ip retry rounds a bridge r.0 r.1

  -- How it ends well: with an address of the allocator, whose store is on disk.
  add_to_ok :
      (a : CmdArgs) (pod : Text) (tim : TenantIpam) (m : Machine W) (r : CniResult)
      → (add_to a pod tim m).0 ≡ returns (ok r)
      → (s : TenantStore) × (allocate_ip v6 next_ip rounds (container_of a pod) tim
          ≡ returns (ok r.address.ip, none, s))
        × ((add_to a pod tim m).1.tenant_disks ≡ (save_tenant s tim.tenant_name m).tenant_disks)
  add_to_ok a pod tim m r h =
      let allocate = allocate_on_node n v6 next_ip retry rounds (container_of a pod) tim in
      let bridge_of : Cmd (Machine W) Bridge = deref tim.tenant_store.value.bridge in
      let next : Bridge → Ip × TenantStore → Cmd (Machine W) CniResult =
        λ bridge r. attach n v6 next_ip retry rounds a bridge r.0 r.1 in
      let (bridge, _, same) =
        deref_ok tim.tenant_store.value.bridge (λ b. allocate >>= next b) m r h in
      let later : ((allocate >>= next bridge) m).0 ≡ returns (ok r) =
        ap (λ z. z.0) (sym same) ∙ h in
      let (given, given_ok, attached) = ok_of_bind allocate (next bridge) m r later in
      let (found, saved) = allocate_on_node_ok (container_of a pod) tim m given given_ok in
      let reported =
        attach_result n v6 next_ip retry rounds a bridge given.0 given.1 (allocate m).1 r
          attached in
      (
        given.1,
        found ∙ ap (λ x. returns (ok x.address.ip, none, given.1)) (sym reported),
        ap (λ z. z.1.tenant_disks) (same ∙ bind_ok allocate (next bridge) m given given_ok)
            ∙ attach-KeepsTenants n v6 next_ip retry rounds a bridge given.0 given.1 (allocate m).1
            ∙ ap (λ z. z.tenant_disks) saved,
      )

  -- Up to the tenant's store: what is left is the part on that store.
  cmd_add_there :
      (a : CmdArgs) (pod tenant : Text) (t : TenantData) (m : Machine W)
      → IsFound retry a.args pod tenant m
      → HoldsTenant tenant (m.tenant_disks tenant) t
      → let tim = tenant_on_disk tenant t m in
        cmd_add n v6 next_ip retry rounds a m ≡ add_to a pod tim (found_machine tenant t pod m)
  unfolding cmd_add
  cmd_add_there a pod tenant t m found h =
      open_found_tenant retry a.args pod tenant t (add_to a) m found h

  -- The address that a `cmdAdd` reports is the allocator's, on the tenant's store as it is on disk.
  pub cmd_add_given :
      (a : CmdArgs) (pod tenant : Text) (t : TenantData) (m : Machine W) (r : CniResult)
      → IsFound retry a.args pod tenant m
      → HoldsTenant tenant (m.tenant_disks tenant) t
      → (cmd_add n v6 next_ip retry rounds a m).0 ≡ returns (ok r)
      → (s : TenantStore) × (allocate_ip v6 next_ip rounds
            (container_of a pod)
            (tenant_on_disk tenant t m)
          ≡ returns (ok r.address.ip, none, s))
  cmd_add_given a pod tenant t m r found h success =
      let step = cmd_add_there a pod tenant t m found h in
      let (s, given, _) =
        add_to_ok a pod (tenant_on_disk tenant t m) (found_machine tenant t pod m) r
          (ap (λ z. z.0) (sym step) ∙ success) in
      (s, given)

  -- The address of a `cmdAdd` that succeeds, and the tenant's store after it.
  pub cmd_add_lem :
      (bytes_next : (ip : Ip) → IsBytes (next_ip ip)) (a : CmdArgs) (pod tenant : Text)
      (t : TenantData) (m : Machine W) (r : CniResult)
      → IsFound retry a.args pod tenant m
      → HoldsTenant tenant (m.tenant_disks tenant) t
      → IsIpv4Subnet v6 t
      → IsUnknown a.container_id t
      → (cmd_add n v6 next_ip retry rounds a m).0 ≡ returns (ok r)
      → (in_subnet v6 next_ip t r.address.ip ≡ true)
        × (length (to4 r.address.ip) ≡ 4)
        × IsBytes r.address.ip
        × (contains_ip v6 r.address.ip t ≡ false)
        × HoldsTenant tenant
            ((cmd_add n v6 next_ip retry rounds a m).1.tenant_disks tenant)
            (with_ip v6 r.address.ip (container_of a pod) t)
  unfolding save_tenant
  cmd_add_lem bytes_next a pod tenant t m r found h sub unknown success =
      let d = m.tenant_disks tenant in
      let tim = tenant_on_disk tenant t m in
      let step = cmd_add_there a pod tenant t m found h in
      let m2 = found_machine tenant t pod m in
      let (s, given, saved) = add_to_ok a pod tim m2 r (ap (λ z. z.0) (sym step) ∙ success) in
      let (_, left, within, free, four, bs) =
        allocate_ip_found v6 next_ip bytes_next rounds (container_of a pod) tim t r.address.ip none
          s (tenant_store_of-IsReady tenant d t h) sub unknown given in
      let kept : (cmd_add n v6 next_ip retry rounds a m).1.tenant_disks tenant ≡ s.disk =
        ap (λ z. z.1.tenant_disks tenant) step
        ∙ ap (λ f. f tenant) saved
        ∙ put_self tenant s.disk m2.tenant_disks in
      let t' = with_ip v6 r.address.ip (container_of a pod) t in
      (
        within,
        four,
        bs,
        free,
        subst (λ z. HoldsTenant tenant z t') (sym (kept ∙ ap (λ x. x.disk) left))
            (refiled-HoldsTenant tenant d t t' h),
      )

  -- A `cmdAdd` that succeeds for a new container: the pod's name is read from the arguments and its tenant
  -- is found, with a retry that makes one call where that succeeds; the tenant's store is there, can be
  -- locked and written, holds data with an IPv4 subnet in which the container has no address, and `NextIP`
  -- gives bytes. Then the address that the plugin reports lies in the subnet and belonged to no container,
  -- and after the call the tenant's store on disk holds the same data with that address given to the
  -- container.
  pub cmd_add_records :
      (bytes_next : (ip : Ip) → IsBytes (next_ip ip)) (a : CmdArgs) (pod tenant : Text)
      (t : TenantData) (m : Machine W) (r : CniResult)
      → IsFound retry a.args pod tenant m
      → HoldsTenant tenant (m.tenant_disks tenant) t
      → IsIpv4Subnet v6 t
      → IsUnknown a.container_id t
      → (cmd_add n v6 next_ip retry rounds a m).0 ≡ returns (ok r)
      → (in_subnet v6 next_ip t r.address.ip ≡ true)
        × (contains_ip v6 r.address.ip t ≡ false)
        × HoldsTenant tenant
            ((cmd_add n v6 next_ip retry rounds a m).1.tenant_disks tenant)
            (with_ip v6 r.address.ip (container_of a pod) t)
  cmd_add_records bytes_next a pod tenant t m r found h sub unknown success =
      let (within, _, _, free, held) =
        cmd_add_lem bytes_next a pod tenant t m r found h sub unknown success in
      (within, free, held)
