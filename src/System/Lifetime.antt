-- ===== src/System/Lifetime.antt =====
-- One tenant on a node from `addTenant` to `deleteTenant`.
use mathlib.Core.Path.{subst}
use tenant_cni.Api.{Tenant}
use tenant_cni.Base.{
  List, Result, Text, [], ap, none, ok, refl, returns, some, ℕ, ◌++◌, ◌<◌, ◌∙◌, ◌∷◌, ◌≡◌,
}
use tenant_cni.Base.Dict.{NodupKeys, erase-insert_new, insert-NodupKeys, lookup, lookup-insert_self}
use tenant_cni.Cni.Tenants.{HoldsTenant}
use tenant_cni.Controller.Add.{add_on_node}
use tenant_cni.Controller.Delete.{delete_on_node}
use tenant_cni.Controller.Events.{Client}
use tenant_cni.Host.{Cmd, reads}
use tenant_cni.Host.Iptables.{Iptables}
use tenant_cni.Host.Netlink.{Netlink}
use tenant_cni.Ipam.Address.Refinement.{IsAddressOf}
use tenant_cni.Ipam.Address.Search.{after}
use tenant_cni.Ipam.Address.View.{leases}
use tenant_cni.Ipam.Leases.{IsExclusive}
use tenant_cni.Ipam.Provision.{IsPrepared}
use tenant_cni.Ipam.Serving.{fresh-IsIpv4Subnet, fresh-ips}
use tenant_cni.Ipam.Store.{absent, missing}
use tenant_cni.Ipam.Tenant.{read_prefix, tenant_data_of, vtep_mac_text}
use tenant_cni.Ipam.Tenant.OnDisk.{Holds}
use tenant_cni.Ipam.Tenant.Subnets.{held, taken}
use tenant_cni.Ipam.Types.{NodeData, TenantData}
use tenant_cni.K8s.{Environment}
use tenant_cni.Machine.{IsApart, Machine}
use tenant_cni.Net.Addr.{Ipv6Text, ipv4, prefix, prefix_text}
use tenant_cni.Net.Ip.{Ip}
use tenant_cni.Net.RoundTrip.{IsBytes}
use tenant_cni.System.Added.{add_on_node_records, first_data}
use tenant_cni.System.Deleted.{delete_on_node_there}
use tenant_cni.System.Events.{AllSpare, Events, Events-IsServed}
use tenant_cni.System.Exclusive.{kept_from, new-IsServed}
use tenant_cni.System.Served.{OnlyRuns}

module _ {W : Type 0} (c : Client W) (n : Netlink W) (t : Iptables W) (env : Environment)
    (v6 : Ipv6Text) (parse_mac : Text → Result (List ℕ)) where
  -- `addTenant` and then `deleteTenant` for one tenant on its node, where the node's store is there,
  -- can be locked and written, and holds data that names each tenant once, and not this one, and whose
  -- first available subnet is an IPv4 one of 24 bits in the standard text; where the tenant's directory
  -- and lock are there and can be written, and the directory's entries can be listed and removed; where
  -- the tenant's store, the node's and the pods' are three; and where `deleteTenant` succeeds. After
  -- the addition, however it ended, the tenant's file holds the data of a new tenant with that subnet.
  -- After the deletion the node's store holds what it held before the addition, with that subnet behind
  -- the other available ones, and the tenant's directory and file are gone.
  pub delete_on_node-add_on_node :
      (namespace key node : Text) (tenant : Tenant) (rand : Result (List ℕ)) (v : NodeData)
      (m : Machine W) (x : Text) (rest : List Text) (a : ℕ) (names : List Text)
      → IsApart node tenant.spec.name
      → Holds node (m.node_disks node) v
      → NodupKeys v.tenant_list
      → lookup tenant.spec.name v.tenant_list ≡ none
      → v.available_list ≡ x ∷ rest
      → read_prefix v6 x ≡ prefix (ipv4 a) 24
      → prefix_text v6 (prefix (ipv4 a) 24) ≡ x
      → IsPrepared (m.tenant_disks tenant.spec.name)
      → c.read_dir tenant.spec.name ≡ ok names
      → ((y : Text) → c.remove_all tenant.spec.name y ≡ none)
      → let m1 = (add_on_node c n t env v6 parse_mac namespace key tenant rand node m).1 in
        let deleted = delete_on_node c n env v6 parse_mac node tenant.spec.name m1 in
        deleted.0 ≡ returns (ok tt)
        → HoldsTenant tenant.spec.name
            (m1.tenant_disks tenant.spec.name)
            (first_data c n t env v6 parse_mac tenant rand a)
          × Holds node (deleted.1.node_disks node) (record v { available_list = rest ++ (x ∷ []) })
          × ((deleted.1.tenant_disks tenant.spec.name).entry ≡ missing)
          × ((deleted.1.tenant_disks tenant.spec.name).file ≡ absent)
  delete_on_node-add_on_node namespace key node tenant rand v m x rest a names _ h nodup fresh e
        is_net text p listed removes success =
      let name = tenant.spec.name in
      let m1 = (add_on_node c n t env v6 parse_mac namespace key tenant rand node m).1 in
      let (h1, held) =
        add_on_node_records c n t env v6 parse_mac namespace key node tenant rand v m x rest a h e
          is_net p in
      let net = read_prefix v6 x in
      let (h2, no_entry, no_file) =
        delete_on_node_there c n env v6 parse_mac node name (taken v6 name x rest v) net m1 names h1
          (insert-NodupKeys name net v.tenant_list nodup)
          (lookup-insert_self name net v.tenant_list) listed removes success in
      let node_disk = (delete_on_node c n env v6 parse_mac node name m1).1.node_disks node in
      let text_x : prefix_text v6 net ≡ x = ap (prefix_text v6) is_net ∙ text in
      (
        held,
        subst (Holds node node_disk)
            (rw (text_x, erase-insert_new name net v.tenant_list fresh) refl) h2,
        no_entry,
        no_file,
      )

  module _ (next_ip : Ip → Ip) (bytes_next : (ip : Ip) → IsBytes (next_ip ip))
      (retry : Cmd (Machine W) Text → Cmd (Machine W) Text) (only_runs : OnlyRuns retry)
      (rounds : ℕ) where
    -- Where `addTenant` has added a tenant, however that ended, on a node whose store is there, holds
    -- data and can be locked and written, with an IPv4 subnet of 24 bits first among the available
    -- ones, where the tenant's directory and lock are there and can be written, whatever its file
    -- held, and where the tenant's store, those of the node's names and the pods' are different ones: take
    -- any sequence of commands of the plugin for any pods, of locked parts of such commands in processes
    -- that opened the tenant's store at any time before, of handlers of the informers, of updates of any
    -- tenant, of additions and deletions of other tenants, and of starts of the daemon, each however it
    -- ends, with a `NextIP` that gives bytes and a retry that does nothing but call its function. If a
    -- container has an address after it, then after any further such sequence in which neither a deletion
    -- nor a release of that container occurs, the container has the same address still: it was given to
    -- no other container, however many came. The tenant's file is there, can be locked and written, each
    -- address that is given out is one of that subnet's, and no two containers have one.
    pub Events-add_on_node :
        (namespace key node : Text) (tenant : Tenant) (rand : Result (List ℕ)) (v : NodeData)
        (m m2 m3 : Machine W) (x : Text) (rest : List Text) (a : ℕ) (u : TenantData)
        (id addr : Text)
        → IsApart node tenant.spec.name
        → IsApart env.my_node_name tenant.spec.name
        → Holds node (m.node_disks node) v
        → v.available_list ≡ x ∷ rest
        → read_prefix v6 x ≡ prefix (ipv4 a) 24
        → a < 4294967296
        → IsPrepared (m.tenant_disks tenant.spec.name)
        → let m1 = (add_on_node c n t env v6 parse_mac namespace key tenant rand node m).1 in
          Events v6 next_ip c n t env parse_mac retry rounds tenant.spec.name m1 m2
          → HoldsTenant tenant.spec.name (m2.tenant_disks tenant.spec.name) u
          → leases u id ≡ some addr
          → (after : Events v6 next_ip c n t env parse_mac retry rounds tenant.spec.name m2 m3)
          → AllSpare v6 next_ip c n t env parse_mac retry rounds id after
          → (z : TenantData) × HoldsTenant tenant.spec.name (m3.tenant_disks tenant.spec.name) z
            × (z.tenant_cidr ≡ prefix_text v6 (prefix (ipv4 a) 24))
            × (leases z id ≡ some addr)
            × IsExclusive (IsAddressOf v6 (prefix_text v6 (prefix (ipv4 a) 24))) (leases z)
    unfolding tenant_data_of
    Events-add_on_node namespace key node tenant rand v m m2 m3 x rest a u id addr _ _ h e reads
          small p before h2 given after spared =
        let name = tenant.spec.name in
        let cidr = prefix_text v6 (prefix (ipv4 a) 24) in
        let m1 = (add_on_node c n t env v6 parse_mac namespace key tenant rand node m).1 in
        let (_, held) =
          add_on_node_records c n t env v6 parse_mac namespace key node tenant rand v m x rest a h e
            reads p in
        let served =
          new-IsServed v6 name (m1.tenant_disks name)
            (first_data c n t env v6 parse_mac tenant rand a) held
            (fresh-IsIpv4Subnet v6 name (vtep_mac_text rand) tenant.spec.vni
              tenant.spec.subnet_prefix a small)
            (fresh-ips v6 name (vtep_mac_text rand) tenant.spec.vni tenant.spec.subnet_prefix a) in
        let g =
          Events-IsServed v6 next_ip c n t env parse_mac retry rounds bytes_next only_runs
            (record { cidr = cidr; lease = none }) name before tt served in
        kept_from v6 next_ip bytes_next c n t env parse_mac retry only_runs rounds cidr name m2 m3 u
          id addr g h2 given after spared
