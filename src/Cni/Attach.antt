-- ===== src/Cni/Attach.antt =====
-- What `cmdAdd` does with the network: it leaves the tenants' files alone.
use tenant_cni.Backend.Bridge.{create_tenant_bridge}
use tenant_cni.Backend.Veth.{setup_veth}
use tenant_cni.Base.{Text, [], arith, ok, panics, refl, returns, runs_on, ℕ, ◌∷◌, ◌≡◌}
use tenant_cni.Cni.Commands.{CmdArgs, CniResult, attach, mtu_default}
use tenant_cni.Cni.Tenants.{Keeps, Keeps-bind, KeepsTenants, on_outside-KeepsTenants}
use tenant_cni.Host.{Cmd, crash, pure, ◌>>=◌, ◌>>◌}
use tenant_cni.Host.Laws.{ok_of_bind}
use tenant_cni.Host.Netlink.{Link, Netlink}
use tenant_cni.Ipam.Address.{ip_net}
use tenant_cni.Ipam.TenantStore.{TenantStore}
use tenant_cni.Ipam.Types.{Bridge}
use tenant_cni.Machine.{Machine, on_outside}
use tenant_cni.Net.Addr.{Ipv6Text, addr_text}
use tenant_cni.Net.Ip.{Ip, IpNet, parse_ip}

module _ {W : Type 0} (n : Netlink W) (v6 : Ipv6Text) (next_ip : Ip → Ip)
    (retry : Cmd (Machine W) Text → Cmd (Machine W) Text) (rounds : ℕ) where
  -- The calls of `attach` from the last one on.
  abbrev pub result_of : Bridge → Ip → CniResult
  result_of bridge ip = record {
    address = record { ip = ip; mask = 255 ∷ 255 ∷ 255 ∷ 0 ∷ [] };
    gateway = parse_ip v6 (addr_text v6 bridge.gateway);
  }

  abbrev plug : CmdArgs → Bridge → Ip → Link → IpNet → Cmd (Machine W) CniResult
  plug a bridge ip br net =
      on_outside (
        setup_veth n a.netns br mtu_default a.if_name net
          (parse_ip v6 (addr_text v6 bridge.gateway)))
      >> pure (result_of bridge ip)

  abbrev net_of : Ip → TenantStore → Cmd (Machine W) IpNet
  net_of ip s = elim (ip_net v6 ip s.value) [
    | returns net ↦ pure net
    | panics ↦ crash
    | runs_on ↦ crash
  ]

  abbrev enter : CmdArgs → Bridge → Ip → TenantStore → Link → Cmd (Machine W) CniResult
  enter a bridge ip s br = on_outside (n.get_ns a.netns) >> (net_of ip s >>= plug a bridge ip br)

  net_of-Keeps :
      {X : Type 0} (part : Machine W → X) (ip : Ip) (s : TenantStore) → Keeps part (net_of ip s)
  net_of-Keeps part ip s m = ground arith

  -- A part of the machine that no call on the outside changes.
  module _ {X : Type 0} (part : Machine W → X)
      (outside : (A : Type 0) (c : Cmd W A) → Keeps part (on_outside c)) where
    enter-Keeps :
        (a : CmdArgs) (bridge : Bridge) (ip : Ip) (s : TenantStore) (br : Link)
        → Keeps part (enter a bridge ip s br)
    enter-Keeps a bridge ip s br =
        let gateway = parse_ip v6 (addr_text v6 bridge.gateway) in
        let setup : IpNet → Cmd W (Unit {0}) =
          λ net. setup_veth n a.netns br mtu_default a.if_name net gateway in
        Keeps-bind part (on_outside (n.get_ns a.netns)) (λ _. net_of ip s >>= plug a bridge ip br)
          (outside _ (n.get_ns a.netns))
          (λ _. Keeps-bind part (net_of ip s) (plug a bridge ip br) (net_of-Keeps part ip s) (λ net.
            Keeps-bind part (on_outside (setup net)) (λ _. pure (result_of bridge ip))
              (outside _ (setup net)) (λ _ _. refl)))

    pub attach-Keeps :
        (a : CmdArgs) (bridge : Bridge) (ip : Ip) (s : TenantStore)
        → Keeps part (attach n v6 next_ip retry rounds a bridge ip s)
    unfolding attach
    attach-Keeps a bridge ip s =
        let create = create_tenant_bridge n v6 bridge.name mtu_default bridge.gateway in
        Keeps-bind part (on_outside create) (enter a bridge ip s) (outside _ create)
          (enter-Keeps a bridge ip s)

  pub attach-KeepsTenants :
      (a : CmdArgs) (bridge : Bridge) (ip : Ip) (s : TenantStore)
      → KeepsTenants (attach n v6 next_ip retry rounds a bridge ip s)
  attach-KeepsTenants = attach-Keeps (λ m. m.tenant_disks) (λ _ c. on_outside-KeepsTenants c)

  -- The address that is reported is the one that was allocated.
  pub attach_result :
      (a : CmdArgs) (bridge : Bridge) (ip : Ip) (s : TenantStore) (m : Machine W) (r : CniResult)
      → (attach n v6 next_ip retry rounds a bridge ip s m).0 ≡ returns (ok r)
      → r ≡ result_of bridge ip
  unfolding attach
  attach_result a bridge ip s m r h =
      let create = create_tenant_bridge n v6 bridge.name mtu_default bridge.gateway in
      let (br, _, entered) = ok_of_bind (on_outside create) (enter a bridge ip s) m r h in
      let m1 = (on_outside create m).1 in
      let (_, _, read) =
        ok_of_bind (on_outside (n.get_ns a.netns)) (λ _. net_of ip s >>= plug a bridge ip br) m1 r
          entered in
      let m2 = (on_outside (n.get_ns a.netns) m1).1 in
      let (net, _, plugged) = ok_of_bind (net_of ip s) (plug a bridge ip br) m2 r read in
      let m3 = (net_of ip s m2).1 in
      let set = on_outside (
        setup_veth n a.netns br mtu_default a.if_name net
          (parse_ip v6 (addr_text v6 bridge.gateway))) in
      let (_, _, done) = ok_of_bind set (λ _. pure (result_of bridge ip)) m3 r plugged in
      ground (arith, done)
