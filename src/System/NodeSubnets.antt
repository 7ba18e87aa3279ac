-- ===== src/System/NodeSubnets.antt =====
-- The subnets of a node on its disk, through the additions and deletions of its tenants.
use mathlib.Core.List.Perm
use mathlib.Core.List.{Mem, Perm, mem-append_right, mem-cons_self}
use mathlib.Core.Path.{subst}
use tenant_cni.Api.{Tenant}
use tenant_cni.Base.{
  List, Option-cases, Result, Text, [], ap, inl, inr, map, none, refl, some, sym, ℕ, ◌∙◌, ◌∷◌, ◌≡◌,
}
use tenant_cni.Base.Dict.{NodupKeys, erase-NodupKeys, insert-NodupKeys, lookup}
use tenant_cni.Controller.Add.{add_on_node, allocate_on_node}
use tenant_cni.Controller.Conserves.{held-erase, return_subnets-Perm}
use tenant_cni.Controller.Delete.{remove_store, return_subnets}
use tenant_cni.Controller.Events.{Client}
use tenant_cni.Controller.Release.{on_disk, open_node_bind, release_subnet-Holds}
use tenant_cni.Controller.Subnets.{return_subnets_absent, return_subnets_lem}
use tenant_cni.Host.{Cmd, ◌>>=◌}
use tenant_cni.Host.Iptables.{Iptables}
use tenant_cni.Host.Laws.{bind_cases}
use tenant_cni.Host.Netlink.{Netlink}
use tenant_cni.Ipam.NodeStore.{NodeStore}
use tenant_cni.Ipam.Store.{Disk}
use tenant_cni.Ipam.Tenant.{NodeIpam, allocate_tenant, read_prefix}
use tenant_cni.Ipam.Tenant.OnDisk.{
  Holds, allocate_tenant-disk, allocate_tenant-disk_none, rewritten-Holds,
}
use tenant_cni.Ipam.Tenant.Subnets.{subnets, taken, taken-perm}
use tenant_cni.Ipam.TenantStore.{delete_tenant_store}
use tenant_cni.Ipam.Types.{NodeData}
use tenant_cni.K8s.{Environment}
use tenant_cni.Machine.{Machine, put, put_self, save_node}
use tenant_cni.Net.Addr.{Ipv6Text, Prefix, prefix_text}
use tenant_cni.System.Added.{afterwards, afterwards-Keeps_nodes}
use tenant_cni.System.Deleted.{give_back}

-- A prefix that is read back from its text.
abbrev pub ReadsBack : Ipv6Text → Prefix → Type 0
ReadsBack v6 p = read_prefix v6 (prefix_text v6 p) ≡ p

-- The node's store holds data, which names each tenant once and has the subnets, available or held.
pub record HasSubnets (v6 : Ipv6Text) (node : Text) (all : List Prefix) (d : Disk NodeData)
    : Type 0 where
  pub content : NodeData
  pub held_there : Holds node d content
  pub names_once : NodupKeys content.tenant_list
  pub same_subnets : Perm (subnets v6 content) all

-- The subnet that a tenant holds is one of the node's.
mem-subnets :
    (v6 : Ipv6Text) (name : Text) (p : Prefix) (v : NodeData)
    → lookup name v.tenant_list ≡ some p
    → Mem p (subnets v6 v)
mem-subnets v6 name p v found =
    mem-append_right (map (read_prefix v6) v.available_list)
      ((Perm.mem_iff (held-erase name p v.tenant_list found)).1 mem-cons_self)

module _ {W : Type 0} (c : Client W) (n : Netlink W) (t : Iptables W) (env : Environment)
    (v6 : Ipv6Text) (parse_mac : Text → Result (List ℕ)) where
  -- The node's file after `addTenant`, however that ends, is what `AllocateTenant` leaves.
  add_on_node-node_disks :
      (namespace key node : Text) (tenant : Tenant) (rand : Result (List ℕ)) (v : NodeData)
      (m : Machine W)
      → Holds node (m.node_disks node) v
      → (add_on_node c n t env v6 parse_mac namespace key tenant rand node m).1.node_disks node
        ≡ (allocate_tenant v6 tenant.spec.name tenant.spec.vni tenant.spec.subnet_prefix rand
            (on_disk node v m)
            (m.tenant_disks tenant.spec.name)).1.disk
  unfolding add_on_node allocate_on_node save_node
  add_on_node-node_disks namespace key node tenant rand v m h =
      let nim = on_disk node v m in
      let m1 = save_node nim.node_store node m in
      let take : NodeIpam → Cmd (Machine W) NodeStore =
        allocate_on_node c n t env v6 parse_mac tenant rand node in
      let last = afterwards c n t env v6 parse_mac namespace key tenant node in
      let rest_keeps : ((take nim >>= last) m1).1.node_disks ≡ (take nim m1).1.node_disks =
        elim (bind_cases (take nim) last m1) [
          | inl (s, same) ↦
              ap (λ z. z.1.node_disks) same
              ∙ afterwards-Keeps_nodes c n t env v6 parse_mac namespace key tenant node s
                  (take nim m1).1
          | inr same ↦ ap (λ z. z.node_disks) same
        ] in
      ap (λ z. z.1.node_disks node) (open_node_bind node v (λ z. take z >>= last) m h)
      ∙ ap (λ f. f node) rest_keeps
      ∙ put_self node _ m1.node_disks

  pub add_on_node-HasSubnets :
      (namespace key node : Text) (tenant : Tenant) (rand : Result (List ℕ)) (all : List Prefix)
      (m : Machine W) (g : HasSubnets v6 node all (m.node_disks node))
      → lookup tenant.spec.name g.content.tenant_list ≡ none
      → HasSubnets v6 node all
          ((add_on_node c n t env v6 parse_mac namespace key tenant rand node m).1.node_disks node)
  add_on_node-HasSubnets namespace key node tenant rand all m g fresh =
      from_list g.content.available_list refl
    where
      ends :
          (add_on_node c n t env v6 parse_mac namespace key tenant rand node m).1.node_disks node
          ≡ (allocate_tenant v6 tenant.spec.name tenant.spec.vni tenant.spec.subnet_prefix rand
              (on_disk node g.content m)
              (m.tenant_disks tenant.spec.name)).1.disk
      ends = add_on_node-node_disks namespace key node tenant rand g.content m g.held_there

      from_list :
          (avail : List Text)
          → g.content.available_list ≡ avail
          → HasSubnets v6 node all (
              (add_on_node c n t env v6 parse_mac namespace key tenant rand node m).1.node_disks
                node)
      from_list [] e =
          let spec = tenant.spec in
          let same =
            allocate_tenant-disk_none v6 spec.name spec.vni spec.subnet_prefix rand node
              (m.node_disks node) g.content (m.tenant_disks spec.name) g.held_there e in
          subst (HasSubnets v6 node all) (sym (ends ∙ same)) g
      from_list (x ∷ rest) e =
          let spec = tenant.spec in
          let v = g.content in
          let d = m.node_disks node in
          let after = taken v6 spec.name x rest v in
          let same =
            allocate_tenant-disk v6 spec.name spec.vni spec.subnet_prefix rand node d v
              (m.tenant_disks spec.name) g.held_there x rest e in
          subst (HasSubnets v6 node all) (sym (ends ∙ same)) (record {
            content = after;
            held_there = rewritten-Holds node d v after g.held_there;
            names_once = insert-NodupKeys spec.name (read_prefix v6 x) v.tenant_list g.names_once;
            same_subnets = Perm.trans (taken-perm v6 spec.name x rest v e fresh) g.same_subnets;
          })

  pub give_back-HasSubnets :
      (node name : Text) (all : List Prefix) (m : Machine W)
      → ((p : Prefix) → Mem p all → ReadsBack v6 p)
      → HasSubnets v6 node all (m.node_disks node)
      → HasSubnets v6 node all ((give_back c n env v6 parse_mac node name m).1.node_disks node)
  unfolding remove_store
  give_back-HasSubnets node name all m text g =
      let v = g.content in
      let d = m.tenant_disks name in
      let gone = (delete_tenant_store name (c.read_dir name) (c.remove_all name) d).1 in
      let m0 : Machine W = record m { tenant_disks = put name gone m.tenant_disks } in
      let left = return_subnets v6 name v.tenant_list v in
      let h = release_subnet-Holds c n env v6 parse_mac node name v m0 g.held_there in
      elim (Option-cases (lookup name v.tenant_list)) [
        | inl absent_name ↦
            let same = return_subnets_absent v6 name v.tenant_list v absent_name in
            record {
              content = left;
              held_there = h;
              names_once = subst (λ z. NodupKeys z.tenant_list) (sym same) g.names_once;
              same_subnets = subst (λ z. Perm (subnets v6 z) all) (sym same) g.same_subnets;
            }
        | inr (p, found) ↦
            let back = text p ((Perm.mem_iff g.same_subnets).0 (mem-subnets v6 name p v found)) in
            let same = return_subnets_lem v6 name v.tenant_list p v g.names_once found in
            record {
              content = left;
              held_there = h;
              names_once =
                  subst (λ z. NodupKeys z.tenant_list) (sym same)
                    (erase-NodupKeys name v.tenant_list g.names_once);
              same_subnets =
                  Perm.trans (return_subnets-Perm v6 name p v back g.names_once found)
                    g.same_subnets;
            }
      ]
