-- ===== src/System/Exclusive.antt =====
-- The addresses of one tenant's pods, from the tenant's addition on.
use tenant_cni.Base.{List, Result, Text, [], arith, none, refl, some, ℕ, ◌≡◌}
use tenant_cni.Cni.Tenants.{HoldsTenant}
use tenant_cni.Controller.Events.{Client}
use tenant_cni.Host.{Cmd}
use tenant_cni.Host.Iptables.{Iptables}
use tenant_cni.Host.Netlink.{Netlink}
use tenant_cni.Ipam.Address.Consistency.{IsIpv4Subnet}
use tenant_cni.Ipam.Address.Refinement.{IsAddressOf}
use tenant_cni.Ipam.Address.Search.{after}
use tenant_cni.Ipam.Address.View.{leases}
use tenant_cni.Ipam.Leases.{IsExclusive}
use tenant_cni.Ipam.Store.{Disk}
use tenant_cni.Ipam.TenantStore.{key_of_id}
use tenant_cni.Ipam.Types.{TenantData}
use tenant_cni.K8s.{Environment}
use tenant_cni.Machine.{IsApart, Machine}
use tenant_cni.Net.Addr.{Ipv6Text}
use tenant_cni.Net.Ip.{Ip}
use tenant_cni.Net.RoundTrip.{IsBytes}
use tenant_cni.System.Events.{AllSpare, Events, Events-IsServed}
use tenant_cni.System.Served.{IsServed, OnlyRuns, Watch, watched}
use tenant_cni.System.Serves.{IsServedOn}

-- A file that has given out no address.
pub new-IsServed :
    (v6 : Ipv6Text) (name : Text) (d : Disk TenantData) (t : TenantData)
    → HoldsTenant name d t
    → IsIpv4Subnet v6 t
    → t.ips ≡ []
    → IsServed v6 (record { cidr = t.tenant_cidr; lease = none }) name d
unfolding key_of_id
new-IsServed v6 name d t h sub none_given = record {
  content = t;
  held = h;
  consistent = record {
    keys_once = rw (none_given) tt;
    ids_once = rw (none_given) tt;
    readable = rw (none_given) tt;
  };
  subnet = sub;
  same_cidr = refl;
  exclusive = record {
    one_holder = λ a b addr p q. absurd (ground (arith, p, none_given));
    allowed = λ a addr p. absurd (ground (arith, p, none_given));
  };
  lease_kept = tt;
}

module _ {W : Type 0} (v6 : Ipv6Text) (next_ip : Ip → Ip)
    (bytes_next : (ip : Ip) → IsBytes (next_ip ip)) (c : Client W) (n : Netlink W) (t : Iptables W)
    (env : Environment) (parse_mac : Text → Result (List ℕ))
    (retry : Cmd (Machine W) Text → Cmd (Machine W) Text) (only_runs : OnlyRuns retry)
    (rounds : ℕ) where
  -- From a file that serves its pods, watched or not, to the leases at the end.
  pub kept_from :
      (cidr name : Text) (m1 m2 : Machine W) (u : TenantData) (id addr : Text)
      → IsServedOn v6 (record { cidr = cidr; lease = none }) name m1
      → HoldsTenant name (m1.tenant_disks name) u
      → leases u id ≡ some addr
      → (after : Events v6 next_ip c n t env parse_mac retry rounds name m1 m2)
      → AllSpare v6 next_ip c n t env parse_mac retry rounds id after
      → (z : TenantData) × HoldsTenant name (m2.tenant_disks name) z
        × (z.tenant_cidr ≡ cidr)
        × (leases z id ≡ some addr)
        × IsExclusive (IsAddressOf v6 cidr) (leases z)
  kept_from cidr name m1 m2 u id addr g1 h given after spared =
      let watch : Watch = record { cidr = cidr; lease = some (id, addr) } in
      let g2 =
        Events-IsServed v6 next_ip c n t env parse_mac retry rounds bytes_next only_runs watch name
          after spared (watched v6 cidr name (m1.tenant_disks name) u id addr g1 h given) in
      (g2.content, g2.held, g2.same_cidr, g2.lease_kept, g2.exclusive)

  -- On a node where a tenant's file is there, can be locked and written, and holds data with an IPv4
  -- subnet and no address given out, and where the tenant's store, that of the node's name and the pods'
  -- are three: take any sequence of commands of the plugin for any pods, of locked parts of such commands
  -- in processes that opened the tenant's store at any time before, of handlers of the informers, of
  -- updates of any tenant, of additions and deletions of other tenants, and of starts of the daemon, each
  -- however it ends, with a `NextIP` that gives bytes and a retry that does nothing but call its function.
  -- If a container has an address after it, then after any further such sequence in which neither a
  -- deletion nor a release of that container occurs, the container has the same address still: it was
  -- given to no other container, however many came. The tenant's file is there, can be locked and written,
  -- and holds data with the same subnet, to which each address that is given out belongs, and no two
  -- containers have one.
  pub Events-IsExclusive :
      (name : Text) (x : TenantData) (m m1 m2 : Machine W) (u : TenantData) (id addr : Text)
      → IsApart env.my_node_name name
      → HoldsTenant name (m.tenant_disks name) x
      → IsIpv4Subnet v6 x
      → x.ips ≡ []
      → Events v6 next_ip c n t env parse_mac retry rounds name m m1
      → HoldsTenant name (m1.tenant_disks name) u
      → leases u id ≡ some addr
      → (after : Events v6 next_ip c n t env parse_mac retry rounds name m1 m2)
      → AllSpare v6 next_ip c n t env parse_mac retry rounds id after
      → (z : TenantData) × HoldsTenant name (m2.tenant_disks name) z
        × (z.tenant_cidr ≡ x.tenant_cidr)
        × (leases z id ≡ some addr)
        × IsExclusive (IsAddressOf v6 x.tenant_cidr) (leases z)
  Events-IsExclusive name x m m1 m2 u id addr _ h sub none_given before h1 given after spared =
      let watch : Watch = record { cidr = x.tenant_cidr; lease = none } in
      let g1 =
        Events-IsServed v6 next_ip c n t env parse_mac retry rounds bytes_next only_runs watch name
          before tt (new-IsServed v6 name (m.tenant_disks name) x h sub none_given) in
      kept_from x.tenant_cidr name m1 m2 u id addr g1 h1 given after spared
