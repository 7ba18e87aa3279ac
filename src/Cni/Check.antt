-- ===== src/Cni/Check.antt =====
-- `cmdCheck` after `cmdAdd`.
use tenant_cni.Backend.Veth.{check_veth}
use tenant_cni.Base.{Text, ap, arith, none, ok, refl, returns, some, true, ℕ, ◌∙◌, ◌≡◌}
use tenant_cni.Base.Dict.{lookup}
use tenant_cni.Cni.Add.{cmd_add_lem, container_of}
use tenant_cni.Cni.Commands.{CmdArgs, CniResult, cmd_add, cmd_check}
use tenant_cni.Cni.Tenants.{
  HoldsTenant, IsFound, find_tenant-Keeps_outside, found_machine, open_found_tenant, tenant_on_disk,
  tenant_store_of-IsReady,
}
use tenant_cni.Host.{Cmd, ◌>>=◌, ◌>>◌}
use tenant_cni.Host.Laws.{bind_ok}
use tenant_cni.Host.Netlink.{Netlink}
use tenant_cni.Ipam.Address.{TenantIpam, check_ip}
use tenant_cni.Ipam.Address.Consistency.{IsIpv4Subnet}
use tenant_cni.Ipam.Address.Laws.{IsReady, IsUnknown, load_tenant_data_ready, with_ip}
use tenant_cni.Ipam.Address.Uniqueness.{key_of_id-insert_self}
use tenant_cni.Ipam.Tenant.Subnets.{held}
use tenant_cni.Ipam.TenantStore.{TenantStore, contains_ip, get_ip_by_id, key_of_id}
use tenant_cni.Ipam.Types.{TenantData}
use tenant_cni.Machine.{Machine, on_outside, on_tenant, save_tenant}
use tenant_cni.Net.Addr.{Ipv6Text}
use tenant_cni.Net.Ip.{Ip, ip_equal, ip_text, parse_ip}
use tenant_cni.Net.RoundTrip.{IsBytes, ip_equal-parse_ip}

module _ {W : Type 0} where
  -- Two calls that leave the files alone are one such call.
  on_outside_then :
      (x y : Cmd W (Unit {0})) (m : Machine W)
      → ((on_outside x >> on_outside y) m).0 ≡ ((x >> y) m.outside).0
  unfolding on_outside
  on_outside_then x y m = ground arith

module _ {W : Type 0} (n : Netlink W) (v6 : Ipv6Text) (next_ip : Ip → Ip)
    (retry : Cmd (Machine W) Text → Cmd (Machine W) Text) (rounds : ℕ) where
  -- The check of the interface, for an address.
  abbrev pub check_interface : CmdArgs → Ip → Cmd W (Unit {0})
  check_interface a ip = n.get_ns a.netns >> check_veth n a.netns a.if_name ip

  abbrev pub look_up : CmdArgs → TenantIpam → Cmd (Machine W) (Ip × TenantStore)
  look_up a tim = on_tenant tim.tenant_name (check_ip v6 a.container_id tim)

  abbrev pub check_on : CmdArgs → Text → TenantIpam → Cmd (Machine W) (Unit {0})
  check_on a pod tim = look_up a tim >>= λ r.
      on_outside (n.get_ns a.netns) >> on_outside (check_veth n a.netns a.if_name r.0)

  cmd_check_there :
      (a : CmdArgs) (pod tenant : Text) (t : TenantData) (m : Machine W)
      → IsFound retry a.args pod tenant m
      → HoldsTenant tenant (m.tenant_disks tenant) t
      → cmd_check n v6 next_ip retry rounds a m
        ≡ check_on a pod (tenant_on_disk tenant t m) (found_machine tenant t pod m)
  unfolding cmd_check
  cmd_check_there a pod tenant t m found h =
      open_found_tenant retry a.args pod tenant t (check_on a) m found h

  check_ip_ready :
      (id key : Text) (tim : TenantIpam) (t : TenantData)
      → IsReady t tim.tenant_store
      → key_of_id id t.ips ≡ some key
      → let s = tim.tenant_store in
        check_ip v6 id tim ≡ returns (ok (parse_ip v6 key), record s { value = t })
  unfolding check_ip get_ip_by_id
  check_ip_ready id key tim t r known =
      ground (arith, load_tenant_data_ready t tim.tenant_store r, known)

  -- `cmdCheck` for a container that has an address on file ends as the check of the interface does for
  -- the address that the file's text stands for.
  cmd_check_known :
      (a : CmdArgs) (pod tenant key : Text) (t : TenantData) (m : Machine W)
      → IsFound retry a.args pod tenant m
      → HoldsTenant tenant (m.tenant_disks tenant) t
      → key_of_id a.container_id t.ips ≡ some key
      → (cmd_check n v6 next_ip retry rounds a m).0
        ≡ (check_interface a (parse_ip v6 key) m.outside).0
  unfolding on_tenant save_tenant
  cmd_check_known a pod tenant key t m found h known =
      let d = m.tenant_disks tenant in
      let tim = tenant_on_disk tenant t m in
      let m2 = found_machine tenant t pod m in
      let s = tim.tenant_store in
      let ip = parse_ip v6 key in
      let looked : look_up a tim m2 ≡ (returns (ok (ip, s)), save_tenant s tenant m2) =
        rw (check_ip_ready a.container_id key tim t (tenant_store_of-IsReady tenant d t h) known)
          refl in
      let go : Ip × TenantStore → Cmd (Machine W) (Unit {0}) =
        λ r. on_outside (n.get_ns a.netns) >> on_outside (check_veth n a.netns a.if_name r.0) in
      let step : check_on a pod tim m2 ≡ go (ip, s) (look_up a tim m2).1 =
        bind_ok (look_up a tim) go m2 (ip, s) (ap (λ z. z.0) looked) in
      ap (λ z. z.0)
        (cmd_check_there a pod tenant t m found h ∙ step ∙ ap (λ z. go (ip, s) z.1) looked)
      ∙ on_outside_then (n.get_ns a.netns) (check_veth n a.netns a.if_name ip)
          (save_tenant s tenant m2)
      ∙ ap (λ w. (check_interface a ip w).0) (find_tenant-Keeps_outside pod m)

  -- `cmdAdd` and then `cmdCheck` for one new container, with a retry that makes one call where that
  -- succeeds: the pod's name is read from the arguments and its tenant is found both times; the tenant's
  -- store is there, can be locked and written, holds data with an IPv4 subnet in which the container has
  -- no address, and `NextIP` gives bytes; `cmdAdd` succeeds. Then `cmdCheck` ends as the check of the
  -- container's interface does for an address that equals the one that `cmdAdd` reported.
  pub cmd_check-cmd_add :
      (bytes_next : (ip : Ip) → IsBytes (next_ip ip)) (a : CmdArgs) (pod tenant : Text)
      (t : TenantData) (m : Machine W) (r : CniResult)
      → IsFound retry a.args pod tenant m
      → HoldsTenant tenant (m.tenant_disks tenant) t
      → IsIpv4Subnet v6 t
      → IsUnknown a.container_id t
      → (cmd_add n v6 next_ip retry rounds a m).0 ≡ returns (ok r)
      → IsFound retry a.args pod tenant (cmd_add n v6 next_ip retry rounds a m).1
      → let m1 = (cmd_add n v6 next_ip retry rounds a m).1 in
        (read : Ip) × ((cmd_check n v6 next_ip retry rounds a m1).0
          ≡ (check_interface a read m1.outside).0)
        × (ip_equal read r.address.ip ≡ true)
  unfolding contains_ip
  cmd_check-cmd_add bytes_next a pod tenant t m r found h sub unknown success found_again =
      let (_, four, bs, free, held) =
        cmd_add_lem n v6 next_ip retry rounds bytes_next a pod tenant t m r found h sub unknown
          success in
      let m1 = (cmd_add n v6 next_ip retry rounds a m).1 in
      let ip = r.address.ip in
      let info = container_of n v6 next_ip retry rounds a pod in
      let fresh : lookup (ip_text v6 ip) t.ips ≡ none = ground (arith, free) in
      let known = key_of_id-insert_self (ip_text v6 ip) info t.ips fresh unknown in
      (
        parse_ip v6 (ip_text v6 ip),
        cmd_check_known a pod tenant (ip_text v6 ip) (with_ip v6 ip info t) m1 found_again held
            known,
        ip_equal-parse_ip v6 ip four bs,
      )
