-- ===== src/Controller/Release.antt =====
-- The commands of `addTenant` and `deleteTenant` on the node's file.
use mathlib.Core.Path.{subst}
use tenant_cni.Api.{Tenant}
use tenant_cni.Base.{
  Error, List, Option, Result, Text, ap, bytes, ok, panics, refl, returns, runs_on, some, sym, ℕ,
  ◌++◌, ◌∙◌, ◌≡◌,
}
use tenant_cni.Base.Dict.{NodupKeys, lookup}
use tenant_cni.Controller.Add.{allocate_on_node}
use tenant_cni.Controller.Delete.{release_subnet, return_subnets}
use tenant_cni.Controller.Events.{Client}
use tenant_cni.Controller.Subnets.{return_subnets_lem, with_returned}
use tenant_cni.Host.{Cmd, modifies, ◌>>=◌}
use tenant_cni.Host.Iptables.{Iptables}
use tenant_cni.Host.Laws.{bind_ok}
use tenant_cni.Host.Netlink.{Netlink}
use tenant_cni.Ipam.NodeStore.{
  NodeStore, default_store_dir, empty_node, new_node_store, store_node_data,
}
use tenant_cni.Ipam.Store.{Disk, join, new_store_there, opened}
use tenant_cni.Ipam.Tenant.{NodeIpam, allocate_tenant, new_node_ipam}
use tenant_cni.Ipam.Tenant.OnDisk.{
  Holds, load_node_data_there, node_store_of, rewritten, rewritten-Holds, store_node_data_there,
}
use tenant_cni.Ipam.Types.{NodeData, TenantData}
use tenant_cni.K8s.{Environment}
use tenant_cni.Machine.{Machine, open_node, put, put_self, save_node}
use tenant_cni.Net.Addr.{Ipv6Text, Prefix}

module _ {W : Type 0} where
  abbrev pub on_disk : Text → NodeData → Machine W → NodeIpam
  on_disk name v m = record {
    node_name = name;
    node_store = node_store_of name (m.node_disks name) v;
  }

  open_node_there :
      (name : Text) (v : NodeData) (m : Machine W)
      → Holds name (m.node_disks name) v
      → open_node name m
        ≡ (returns (ok (on_disk name v m)), save_node (on_disk name v m).node_store name m)
  unfolding open_node new_node_store new_node_ipam
  open_node_there name v m h =
      let dir = join default_store_dir name in
      let file = join dir (name ++ bytes ".json") in
      let s = opened dir file empty_node (m.node_disks name) in
      let made : new_node_store default_store_dir name (m.node_disks name)
          ≡ (ok s, m.node_disks name) =
        new_store_there dir file empty_node (m.node_disks name) h.there in
      rw (made, load_node_data_there s v h.file, open_node) refl

  -- The node's store after a command that opens it and goes on.
  pub open_node_bind :
      {A : Type 0} (name : Text) (v : NodeData) (f : NodeIpam → Cmd (Machine W) A) (m : Machine W)
      → Holds name (m.node_disks name) v
      → (open_node name >>= f) m
        ≡ f (on_disk name v m) (save_node (on_disk name v m).node_store name m)
  open_node_bind name v f m h =
      let opens = open_node_there name v m h in
      bind_ok (open_node name) f m (on_disk name v m) (ap (λ z. z.0) opens)
      ∙ ap (λ z. f (on_disk name v m) z.1) opens

module _ {W : Type 0} (c : Client W) (n : Netlink W) (env : Environment) (v6 : Ipv6Text)
    (parse_mac : Text → Result (List ℕ)) where
  -- The node's store on disk once its subnets have been returned.
  pub release_subnet-Holds :
      (node tenant_name : Text) (v : NodeData) (m : Machine W)
      → Holds node (m.node_disks node) v
      → Holds node
          ((release_subnet c n env v6 parse_mac node tenant_name m).1.node_disks node)
          (return_subnets v6 tenant_name v.tenant_list v)
  unfolding release_subnet save_node
  release_subnet-Holds node tenant_name v m h =
      let d = m.node_disks node in
      let s = node_store_of node d v in
      let gone : NodeData = return_subnets v6 tenant_name v.tenant_list v in
      let m1 = save_node s node m in
      let go : NodeIpam → Cmd (Machine W) (Unit {0}) = λ nim. modifies (λ z.
        let old = nim.node_store in
        save_node
          (store_node_data (record old {
            value = return_subnets v6 tenant_name old.value.tenant_list old.value;
          })).1
          node z) in
      let step : release_subnet c n env v6 parse_mac node tenant_name m ≡ go (on_disk node v m) m1 =
        open_node_bind node v go m h in
      let stored = store_node_data_there (record s { value = gone }) h.openable h.writable in
      let kept : (release_subnet c n env v6 parse_mac node tenant_name m).1.node_disks node
          ≡ rewritten d gone =
        ap (λ z. z.1.node_disks node) step
        ∙ ap (λ z. put node z.1.disk m1.node_disks node) stored
        ∙ put_self node (rewritten d gone) m1.node_disks in
      subst (λ z. Holds node z gone) (sym kept) (rewritten-Holds node d v gone h)

  pub release_subnet_there :
      (node tenant_name : Text) (v : NodeData) (network : Prefix) (m : Machine W)
      → Holds node (m.node_disks node) v
      → NodupKeys v.tenant_list
      → lookup tenant_name v.tenant_list ≡ some network
      → Holds node
          ((release_subnet c n env v6 parse_mac node tenant_name m).1.node_disks node)
          (with_returned v6 tenant_name network v)
  release_subnet_there node tenant_name v network m h nodup found =
      subst
        (Holds node ((release_subnet c n env v6 parse_mac node tenant_name m).1.node_disks node))
        (return_subnets_lem v6 tenant_name v.tenant_list network v nodup found)
        (release_subnet-Holds node tenant_name v m h)

module _ {W : Type 0} (c : Client W) (n : Netlink W) (t : Iptables W) (env : Environment)
    (v6 : Ipv6Text) (parse_mac : Text → Result (List ℕ)) where
  -- `AllocateTenant` without a panic: the node's file and the tenant's file are what it left.
  pub allocate_on_node_returns :
      (tenant : Tenant) (rand : Result (List ℕ)) (node : Text) (nim : NodeIpam) (m : Machine W)
      (failed : Option Error) (s : NodeStore) (disk : Disk TenantData)
      → allocate_tenant v6 tenant.spec.name tenant.spec.vni tenant.spec.subnet_prefix rand nim
          (m.tenant_disks tenant.spec.name)
        ≡ (returns failed, s, disk)
      → allocate_on_node c n t env v6 parse_mac tenant rand node nim m ≡ (
        returns (ok s),
        record (save_node s node m) { tenant_disks = put tenant.spec.name disk m.tenant_disks },
      )
  unfolding allocate_on_node
  allocate_on_node_returns tenant rand node nim m failed s disk ran =
      ap
        (λ z. (
          elim z.0 [ returns _ ↦ returns (ok z.1) | panics ↦ panics | runs_on ↦ runs_on ],
          record (save_node z.1 node m) { tenant_disks = put tenant.spec.name z.2 m.tenant_disks },
        ))
        ran
