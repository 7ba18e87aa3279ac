-- ===== src/Cni/Commands.antt =====
-- cmd/tenantcni/main.go: the plugin, one command for each operation of the container network
-- interface. `retry` is the function of the go-again package, `next_ip` that of the plugins' ip
-- package; `rounds` bounds the loop of the address allocator.
use tenant_cni.Backend.Bridge.{create_tenant_bridge}
use tenant_cni.Backend.Veth.{check_veth, del_veth, setup_veth}
use tenant_cni.Base.{
  Text, [], err, if◌then◌else◌, is_empty, none, not, ok, panics, returns, runs_on, some,
  tenant_name_not_found, text_eq, ℕ, ◌&&◌, ◌∷◌,
}
use tenant_cni.Base.Dict.{Dict, erase}
use tenant_cni.Cni.Args.{get_regex}
use tenant_cni.Host.{Cmd, crash, deref, fail, pure, ◌>>=◌, ◌>>◌}
use tenant_cni.Host.Netlink.{Netlink}
use tenant_cni.Ipam.Address.{TenantIpam, allocate_ip, check_ip, ip_net, release_ip}
use tenant_cni.Ipam.TenantStore.{TenantStore}
use tenant_cni.Ipam.Types.{Bridge, ContainerNetInfo}
use tenant_cni.Machine.{Machine, on_outside, on_tenant, open_pods, open_tenant, write_pods}
use tenant_cni.Net.Addr.{Ipv6Text, addr_text}
use tenant_cni.Net.Ip.{Ip, IpNet, parse_ip}

-- `skel.CmdArgs`, with the fields that the plugin reads
pub record CmdArgs : Type 0 where
  pub container_id : Text
  pub netns : Text
  pub if_name : Text
  pub args : Text

-- `current.Result`, the part that depends on the call
pub record CniResult : Type 0 where
  pub address : IpNet
  pub gateway : Ip

abbrev pub mtu_default : ℕ
mtu_default = 1500

-- The range over the pods: the tenant of the entry that has the name and a tenant.
unfoldable pub tenant_of_pod : Text → Dict Text → Text
tenant_of_pod pod [] = []
tenant_of_pod pod ((name, tenant) ∷ pods) =
    if text_eq name pod && not (is_empty tenant) then tenant else tenant_of_pod pod pods

module _ {W : Type 0} where
  -- `getTenantPod`
  unfoldable pub get_tenant_pod : Text → Cmd (Machine W) Text
  get_tenant_pod pod = do s ← open_pods fail; pure (tenant_of_pod pod s.value.pods)

  -- `deletePod`
  unfoldable pub delete_pod_entry : Text → Cmd (Machine W) (Unit {0})
  delete_pod_entry pod = do s ← open_pods fail; write_pods (erase pod s.value.pods) s

  -- The function that is retried: no tenant yet is an error.
  unfoldable pub find_tenant : Text → Cmd (Machine W) Text
  find_tenant pod = do
    tenant ← get_tenant_pod pod
    if is_empty tenant then fail tenant_name_not_found else pure tenant

  -- `get_regex`, whose nil slice is read
  unfoldable pub pod_name_of : Text → Cmd (Machine W) Text
  pod_name_of args = deref (get_regex args)

  module _ (n : Netlink W) (v6 : Ipv6Text) (next_ip : Ip → Ip)
      (retry : Cmd (Machine W) Text → Cmd (Machine W) Text) (rounds : ℕ) where
    -- `AllocateIP` on the node: its address, or the error of the search or of the writer.
    unfoldable pub allocate_on_node :
        ContainerNetInfo → TenantIpam → Cmd (Machine W) (Ip × TenantStore)
    allocate_on_node info tim =
        on_tenant tim.tenant_name (elim (allocate_ip v6 next_ip rounds info tim) [
          | returns (err e, _, s) ↦ returns (err e, s)
          | returns (ok ip, none, s) ↦ returns (ok ip, s)
          | returns (ok ip, some e, s) ↦ returns (err e, s)
          | panics ↦ panics
          | runs_on ↦ runs_on
        ])

    -- What `cmdAdd` does with the network once the tenant is known and the address allocated.
    unfoldable pub attach : CmdArgs → Bridge → Ip → TenantStore → Cmd (Machine W) CniResult
    attach a bridge ip s = do
      br ← on_outside (create_tenant_bridge n v6 bridge.name mtu_default bridge.gateway)
      on_outside (n.get_ns a.netns)
      net ← (elim (ip_net v6 ip s.value) [
        | returns net ↦ pure net
        | panics ↦ crash
        | runs_on ↦ crash
      ])
      on_outside (
          setup_veth n a.netns br mtu_default a.if_name net
            (parse_ip v6 (addr_text v6 bridge.gateway)))
      pure (record {
        address = record { ip = ip; mask = 255 ∷ 255 ∷ 255 ∷ 0 ∷ [] };
        gateway = parse_ip v6 (addr_text v6 bridge.gateway);
      })

    -- `cmdAdd`. A tenant that has no bridge is a nil pointer.
    unfoldable pub cmd_add : CmdArgs → Cmd (Machine W) CniResult
    cmd_add a = do
      pod ← pod_name_of a.args
      tenant ← retry (find_tenant pod)
      tim ← open_tenant fail tenant
      bridge ← deref tim.tenant_store.value.bridge
      r ←
          allocate_on_node
            (record { id = a.container_id; if_name = a.if_name; net_ns = a.netns; name = pod }) tim
      attach a bridge r.0 r.1

    -- `cmdDel`
    unfoldable pub cmd_del : CmdArgs → Cmd (Machine W) (Unit {0})
    cmd_del a = do
      pod ← pod_name_of a.args
      tenant ← retry (find_tenant pod)
      tim ← open_tenant fail tenant
      on_tenant tim.tenant_name (elim (release_ip a.container_id tim) [
        | returns (none, s) ↦ returns (ok tt, s)
        | returns (some e, s) ↦ returns (err e, s)
        | panics ↦ panics
        | runs_on ↦ runs_on
      ])
          >>= λ _. do
            on_outside (n.get_ns a.netns)
            delete_pod_entry pod
            on_outside (del_veth n a.netns a.if_name)

    -- `cmdCheck`
    unfoldable pub cmd_check : CmdArgs → Cmd (Machine W) (Unit {0})
    cmd_check a = do
      pod ← pod_name_of a.args
      tenant ← retry (find_tenant pod)
      tim ← open_tenant fail tenant
      r ← on_tenant tim.tenant_name (check_ip v6 a.container_id tim)
      on_outside (n.get_ns a.netns)
      on_outside (check_veth n a.netns a.if_name r.0)
