-- ===== src/Backend/Vxlan.antt =====
-- pkg/network/backend/vxlan.go, the VXLAN devices. (`NewHardwareAddr` is in Ipam/Hardware.)
use tenant_cni.Base.{
  Bool, List, Result, Text, [], bad_cidr, bytes, err, if◌then◌else◌, link_not_found,
  no_default_route, no_local_address, none, not_vxlan, ok, some, text_eq, true, ℕ, ◌&&◌, ◌-◌, ◌==◌,
  ◌∷◌,
}
use tenant_cni.Host.{Cmd, attempt, crash, fail, from_result, pure, ◌>>=◌, ◌>>◌}
use tenant_cni.Host.Netlink.{
  Device, Iface, Link, Netlink, Route, device_name, vxlan_device, vxlan_link,
}
use tenant_cni.Net.Addr.{Ipv6Text}
use tenant_cni.Net.Decimal.{ℤ}
use tenant_cni.Net.Ip.{IpNet, ip_text, parse_cidr}

abbrev pub vxlan_port : ℕ
vxlan_port = 8472

abbrev pub encap_overhead : ℕ
encap_overhead = 50

module _ {W : Type 0} (n : Netlink W) (v6 : Ipv6Text) (parse_mac : Text → Result (List ℕ)) where
  -- Whether a route is a default route: it has no destination, or `0.0.0.0/0`.
  abbrev pub is_default : Route → Bool
  is_default r = elim r.dst [
    | none ↦ true
    | some net ↦
        text_eq (ip_text v6 net.ip) (bytes "0.0.0.0") && text_eq net.mask (0 ∷ 0 ∷ 0 ∷ 0 ∷ [])
  ]

  -- The loop of `getDefaultGatewayInterface` over the routes.
  unfoldable pub default_interface : List Route → Cmd W Iface
  default_interface [] = fail no_default_route
  default_interface (r ∷ routes) =
      let rest = default_interface routes in
      if is_default r
      then if r.link_index == 0 then fail no_default_route else n.interface_by_index r.link_index
      else rest

  -- `getDefaultGatewayInterface`
  unfoldable pub get_default_gateway_interface : Cmd W Iface
  get_default_gateway_interface = do routes ← n.route_list; default_interface routes

  -- A link that `LinkByName` found, as a VXLAN device
  abbrev pub as_vxlan : Link → Cmd W Link
  as_vxlan link = elim link.kind [ vxlan_link ↦ pure link | _ ↦ fail not_vxlan ]

  -- `ensureVxlan`: an existing VXLAN device is taken as it is; the cast of a new one panics if it is
  -- none.
  unfoldable pub ensure_vxlan : Device → Cmd W Link
  ensure_vxlan d = attempt (n.link_by_name (device_name d)) >>= λ found. elim found [
    | ok link ↦ as_vxlan link
    | err link_not_found ↦ do
      n.link_add d
      link ← n.link_by_name (device_name d)
      elim link.kind [ vxlan_link ↦ pure link | _ ↦ crash ]
    | err e ↦ fail e
  ]

  -- `newVxlanDevice`, with `gateway.MTU - encapOverhead` where the MTU is at least the overhead
  unfoldable pub new_vxlan_device : Text → ℤ → Text → Cmd W Link
  new_vxlan_device vtep_name vni vtep_mac = do
    mac ← from_result (parse_mac vtep_mac)
    gateway ← get_default_gateway_interface
    addrs ← n.addr_list gateway.index
    elim addrs [
      | [] ↦ fail no_local_address
      | first ∷ _ ↦ ensure_vxlan (
          vxlan_device vtep_name mac (gateway.mtu - encap_overhead) vni gateway.index first.ip
            vxlan_port)
    ]

  abbrev network_of : Text → Cmd W IpNet
  network_of cidr = elim (parse_cidr v6 cidr) [ none ↦ fail bad_cidr | some (_, net) ↦ pure net ]

  -- An address is added only where the device has none.
  abbrev add_first : Link → IpNet → List IpNet → Cmd W (Unit {0})
  add_first link net [] =
      n.addr_add link (record { ip = net.ip; mask = 255 ∷ 255 ∷ 255 ∷ 255 ∷ [] })
  add_first link net (_ ∷ _) = pure tt

  -- `InitVxlanDevice`
  unfoldable pub init_vxlan_device : Text → Text → ℤ → Text → Cmd W Link
  init_vxlan_device cidr vtep_name vni vtep_mac = do
    link ← new_vxlan_device vtep_name vni vtep_mac
    net ← network_of cidr
    addrs ← n.addr_list link.index
    add_first link net addrs
    n.link_set_up link
    pure link

  -- `DeleteVxLANDevice`
  unfoldable pub delete_vxlan_device : Text → Cmd W (Unit {0})
  delete_vxlan_device vtep_name = do link ← n.link_by_name vtep_name; n.link_del link
