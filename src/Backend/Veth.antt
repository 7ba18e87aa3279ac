-- ===== src/Backend/Veth.antt =====
-- pkg/network/backend/bridge.go, the veth pairs of the pods.
use tenant_cni.Base.{
  Bool, List, Text, [], address_missing, err, false, if◌then◌else◌, not_found, ok, ℕ, ◌||◌, ◌∷◌,
}
use tenant_cni.Host.{Cmd, attempt, fail, pure, ◌>>=◌, ◌>>◌}
use tenant_cni.Host.Netlink.{Link, Netlink, in_ns}
use tenant_cni.Net.Ip.{Ip, IpNet, ip_equal}

module _ {W : Type 0} (n : Netlink W) where
  -- The part of `SetupVeth` that runs inside the pod's namespace: the name of the host's end.
  unfoldable pub setup_inside : ℕ → Text → IpNet → Ip → Cmd W Text
  setup_inside mtu if_name pod_ip gateway = do
    ends ← n.setup_veth if_name mtu
    con_link ← n.link_by_name ends.1
    n.addr_add con_link pod_ip
    n.link_set_up con_link
    n.add_default_route gateway con_link
    pure ends.0

  -- `SetupVeth`
  unfoldable pub setup_veth : Text → Link → ℕ → Text → IpNet → Ip → Cmd W (Unit {0})
  setup_veth netns br mtu if_name pod_ip gateway = do
    host_name ← in_ns n netns (setup_inside mtu if_name pod_ip gateway)
    host_veth ← n.link_by_name host_name
    n.link_set_master host_veth br

  -- `DelVeth`. An interface that is not there is no error where the error says that a file does not
  -- exist.
  unfoldable pub del_veth : Text → Text → Cmd W (Unit {0})
  del_veth netns if_name = in_ns n netns (
      attempt (n.link_by_name if_name) >>= λ found. elim found [
        | ok link ↦ n.link_del link
        | err not_found ↦ pure tt
        | err e ↦ fail e
      ])

  -- Whether one of the addresses is the pod's.
  abbrev pub has_address : Ip → List IpNet → Bool
  has_address ip [] = false
  has_address ip (net ∷ nets) = ip_equal net.ip ip || has_address ip nets

  -- `CheckVeth`
  unfoldable pub check_veth : Text → Text → Ip → Cmd W (Unit {0})
  check_veth netns if_name ip = in_ns n netns (do
    link ← n.link_by_name if_name
    ips ← n.addr_list link.index
    if has_address ip ips then pure tt else fail address_missing)
