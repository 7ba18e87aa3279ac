-- ===== src/Host/Netlink.antt =====
-- The netlink package, the network namespaces and the veth helpers of the containernetworking plugins,
-- as the program calls them.
use tenant_cni.Base.{Bool, List, Option, Text, ℕ}
use tenant_cni.Host.{Cmd, attempt, from_result, ignore, ◌>>=◌, ◌>>◌}
use tenant_cni.Net.Decimal.{ℤ}
use tenant_cni.Net.Ip.{Ip, IpNet}

pub data LinkKind : Type 0 where
  bridge_link : LinkKind
  vxlan_link : LinkKind
  other_link : LinkKind

-- `netlink.Link`: a device of the node, with the attributes that the program reads.
pub record Link : Type 0 where
  pub name : Text
  pub index : ℕ
  pub kind : LinkKind

-- What `LinkAdd` is given: a `netlink.Bridge` or a `netlink.Vxlan`.
pub data Device : Type 0 where
  bridge_device : (name : Text) (mtu : ℕ) → Device
  vxlan_device :
      (name : Text) (hardware_addr : List ℕ) (mtu : ℕ) (vxlan_id : ℤ) (vtep_dev_index : ℕ)
      (src_addr : Ip) (port : ℕ)
      → Device

abbrev pub device_name : Device → Text
device_name (bridge_device name _) = name
device_name (vxlan_device name _ _ _ _ _ _) = name

-- `netlink.Neigh`, with the flags that the program sets.
pub record Neigh : Type 0 where
  pub link_index : ℕ
  pub af_bridge : Bool
  pub permanent : Bool
  pub ntf_self : Bool
  pub rtn_unicast : Bool
  pub ip : Ip
  pub hardware_addr : List ℕ

-- `netlink.Route`. A destination of none is nil.
pub record Route : Type 0 where
  pub link_index : ℕ
  pub dst : Option IpNet
  pub gw : Ip
  pub onlink : Bool

-- `net.Interface`
pub record Iface : Type 0 where
  pub index : ℕ
  pub mtu : ℕ

pub record Netlink (W : Type 0) : Type 0 where
  pub link_by_name : Text → Cmd W Link
  pub link_add : Device → Cmd W (Unit {0})
  pub link_del : Link → Cmd W (Unit {0})
  pub link_set_up : Link → Cmd W (Unit {0})
  pub link_set_master : Link → Link → Cmd W (Unit {0})
  pub addr_add : Link → IpNet → Cmd W (Unit {0})
  pub addr_list : ℕ → Cmd W (List IpNet)
  pub neigh_set : Neigh → Cmd W (Unit {0})
  pub neigh_del : Neigh → Cmd W (Unit {0})
  pub neigh_list : ℕ → Cmd W (List Neigh)
  pub route_add : Route → Cmd W (Unit {0})
  pub route_del : Route → Cmd W (Unit {0})
  pub route_list : Cmd W (List Route)
  pub interface_by_index : ℕ → Cmd W Iface
  -- `ns.GetNS` of a path; `NetNS.Do` enters the namespace, runs its argument and leaves.
  pub get_ns : Text → Cmd W (Unit {0})
  pub enter_ns : Text → Cmd W (Unit {0})
  pub leave_ns : Cmd W (Unit {0})
  -- `ip.SetupVeth`: the names of the host's end and the container's end
  pub setup_veth : Text → ℕ → Cmd W (Text × Text)
  -- `ip.AddDefaultRoute`
  pub add_default_route : Ip → Link → Cmd W (Unit {0})

-- `NetNS.Do`: the outcome of the body, once the namespace has been left
abbrev pub in_ns : {W A : Type 0} → Netlink W → Text → Cmd W A → Cmd W A
in_ns n path body = do n.enter_ns path; result ← attempt body; ignore n.leave_ns; from_result result
