-- ===== src/Routing/Routes.antt =====
-- pkg/network/routing/routes.go
use tenant_cni.Base.{List, [], false, some, true, ℕ, ◌∷◌}
use tenant_cni.Host.{Cmd, ignore, pure, ◌>>◌}
use tenant_cni.Host.Netlink.{Neigh, Netlink, Route}
use tenant_cni.Net.Ip.{Ip, IpNet}

module _ {W : Type 0} (n : Netlink W) where
  -- The entry of `AddARP` and `DelARP`.
  abbrev pub arp_entry : ℕ → Ip → List ℕ → Neigh
  arp_entry vtep ip mac = record {
    link_index = vtep;
    af_bridge = false;
    permanent = true;
    ntf_self = false;
    rtn_unicast = true;
    ip = ip;
    hardware_addr = mac;
  }

  -- The entry of `AddFDB` and `DelFDB`.
  abbrev pub fdb_entry : ℕ → Ip → List ℕ → Neigh
  fdb_entry vtep ip mac = record {
    link_index = vtep;
    af_bridge = true;
    permanent = true;
    ntf_self = true;
    rtn_unicast = false;
    ip = ip;
    hardware_addr = mac;
  }

  unfoldable pub add_arp : ℕ → Ip → List ℕ → Cmd W (Unit {0})
  add_arp vtep ip mac = n.neigh_set (arp_entry vtep ip mac)

  unfoldable pub del_arp : ℕ → Ip → List ℕ → Cmd W (Unit {0})
  del_arp vtep ip mac = n.neigh_del (arp_entry vtep ip mac)

  unfoldable pub add_fdb : ℕ → Ip → List ℕ → Cmd W (Unit {0})
  add_fdb vtep ip mac = n.neigh_set (fdb_entry vtep ip mac)

  unfoldable pub del_fdb : ℕ → Ip → List ℕ → Cmd W (Unit {0})
  del_fdb vtep ip mac = n.neigh_del (fdb_entry vtep ip mac)

  -- The route to the remote VTEP alone.
  abbrev pub vtep_route : ℕ → Ip → Route
  vtep_route vtep ip = record {
    link_index = vtep;
    dst = some (record { ip = ip; mask = 255 ∷ 255 ∷ 255 ∷ 255 ∷ [] });
    gw = [];
    onlink = true;
  }

  -- The route to the remote tenant's subnet, over the remote VTEP.
  abbrev pub tenant_route : ℕ → IpNet → Ip → Route
  tenant_route vtep cidr ip = record { link_index = vtep; dst = some cidr; gw = ip; onlink = true }

  -- `AddRoutes`: the outcomes of the three calls are dropped.
  unfoldable pub add_routes : ℕ → IpNet → Ip → Cmd W (Unit {0})
  add_routes vtep cidr ip = do
    ignore (n.route_add (vtep_route vtep ip))
    ignore (n.route_add (tenant_route vtep cidr ip))
    ignore (n.route_del (vtep_route vtep ip))
    pure tt

  -- `CheckARP`
  unfoldable pub check_arp : ℕ → Cmd W (List Neigh)
  check_arp vtep = n.neigh_list vtep
