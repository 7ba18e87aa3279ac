-- ===== src/Backend/Bridge.antt =====
-- pkg/network/backend/bridge.go, the bridges.
use tenant_cni.Base.{Result, Text, already_exists, bad_cidr, bytes, err, none, ok, some, ℕ, ◌++◌}
use tenant_cni.Host.{Cmd, attempt, fail, from_result, pure, ◌>>=◌, ◌>>◌}
use tenant_cni.Host.Netlink.{Device, Link, Netlink, bridge_device}
use tenant_cni.Net.Addr.{Addr, Ipv6Text, addr_text}
use tenant_cni.Net.Ip.{IpNet, parse_cidr}

module _ {W : Type 0} (n : Netlink W) (v6 : Ipv6Text) where
  -- The address and the mask that the source reads from the gateway's text with `/24` behind it.
  unfoldable pub gateway_net : Addr → Result IpNet
  gateway_net gateway = elim (parse_cidr v6 (addr_text v6 gateway ++ bytes "/24")) [
    | none ↦ err bad_cidr
    | some (ip, net) ↦ ok (record { ip = ip; mask = net.mask })
  ]

  -- An interface that is there already is no error.
  abbrev pub add_device : Device → Cmd W (Unit {0})
  add_device d = attempt (n.link_add d) >>= λ r. elim r [
    | ok _ ↦ pure tt
    | err already_exists ↦ pure tt
    | err e ↦ fail e
  ]

  -- `CreateTenantBridge`. A device of the name is taken as it is.
  unfoldable pub create_tenant_bridge : Text → ℕ → Addr → Cmd W Link
  create_tenant_bridge name mtu gateway = attempt (n.link_by_name name) >>= λ found. elim found [
    | ok link ↦ pure link
    | err _ ↦ do
      add_device (bridge_device name mtu)
      dev ← n.link_by_name name
      net ← from_result (gateway_net gateway)
      n.addr_add dev net
      n.link_set_up dev
      pure dev
  ]

  -- `DeleteTenantBridge`
  unfoldable pub delete_tenant_bridge : Text → Cmd W (Unit {0})
  delete_tenant_bridge name = do link ← n.link_by_name name; n.link_del link
