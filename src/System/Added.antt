-- ===== src/System/Added.antt =====
-- `addTenant` on a node of the tenant: what it leaves in the node's file and in the tenant's file.
use mathlib.Core.Path.{subst}
use tenant_cni.Api.{Tenant}
use tenant_cni.Base.{
  List, Result, Text, ap, inl, inr, none, ok, refl, returns, sym, ℕ, ◌∙◌, ◌∷◌, ◌≡◌,
}
use tenant_cni.Cni.Tenants.{HoldsTenant, Keeps, Keeps-bind}
use tenant_cni.Controller.Add.{add_on_node, allocate_on_node, finish}
use tenant_cni.Controller.Events.{Client}
use tenant_cni.Controller.Release.{allocate_on_node_returns, on_disk, open_node_bind}
use tenant_cni.Host.{Cmd, crash, reads, ◌>>=◌}
use tenant_cni.Host.Iptables.{Iptables}
use tenant_cni.Host.Laws.{bind_cases, bind_ok}
use tenant_cni.Host.Netlink.{Netlink}
use tenant_cni.Ipam.Address.{TenantIpam}
use tenant_cni.Ipam.NodeStore.{NodeStore}
use tenant_cni.Ipam.Provision.{IsPrepared, fresh_tenant}
use tenant_cni.Ipam.Store.{Disk}
use tenant_cni.Ipam.Tenant.{NodeIpam, read_prefix, tenant_data_of, vtep_mac_text}
use tenant_cni.Ipam.Tenant.OnDisk.{
  Holds, allocate_tenant_there, new_tenant, node_store_of, rewritten, rewritten-Holds,
}
use tenant_cni.Ipam.Tenant.Records.{IsWritable, written_disk}
use tenant_cni.Ipam.Tenant.Subnets.{taken}
use tenant_cni.Ipam.TenantStore.{empty_tenant}
use tenant_cni.Ipam.Types.{NodeData, TenantData}
use tenant_cni.K8s.{Environment}
use tenant_cni.Machine.{Machine, on_outside, open_tenant, put, put_self, save_node}
use tenant_cni.Net.Addr.{Ipv6Text, Prefix, ipv4, prefix}
use tenant_cni.System.Prepared.{
  open_tenant-Keeps_nodes, open_tenant-disk, prepared-IsWritable, written-HoldsTenant,
}

module _ {W : Type 0} (c : Client W) (n : Netlink W) (t : Iptables W) (env : Environment)
    (v6 : Ipv6Text) (parse_mac : Text → Result (List ℕ)) where
  -- What `addTenant` does on the node once the subnet is taken.
  abbrev pub afterwards : Text → Text → Tenant → Text → NodeStore → Cmd (Machine W) (Unit {0})
  afterwards namespace key tenant node s = open_tenant (λ _. crash) tenant.object_name >>= λ tim.
      on_outside (finish c n t env v6 parse_mac namespace key tenant node s.value tim)

  -- The node's store and the tenant's file once the subnet is taken.
  abbrev pub taken_store : Text → Text → NodeData → Text → List Text → Machine W → NodeStore
  taken_store node name v x rest m =
      let s = node_store_of node (m.node_disks node) v in
      let after = taken v6 name x rest v in
      record s { value = after; disk = rewritten s.disk after }

  abbrev pub taken_machine :
      Text → Tenant → Result (List ℕ) → NodeData → Text → List Text → Machine W → Machine W
  taken_machine node tenant rand v x rest m =
      let spec = tenant.spec in
      let written =
        written_disk (new_tenant v6 spec.name spec.vni spec.subnet_prefix rand x)
          (m.tenant_disks spec.name) in
      let opened = save_node (on_disk node v m).node_store node m in
      record (save_node (taken_store node spec.name v x rest m) node opened) {
        tenant_disks = put spec.name written m.tenant_disks;
      }

  pub add_on_node_there :
      (namespace key node : Text) (tenant : Tenant) (rand : Result (List ℕ)) (v : NodeData)
      (m : Machine W) (x : Text) (rest : List Text)
      → Holds node (m.node_disks node) v
      → v.available_list ≡ x ∷ rest
      → IsWritable (m.tenant_disks tenant.spec.name)
      → add_on_node c n t env v6 parse_mac namespace key tenant rand node m
        ≡ afterwards namespace key tenant node
            (taken_store node tenant.spec.name v x rest m)
            (taken_machine node tenant rand v x rest m)
  unfolding add_on_node save_node
  add_on_node_there namespace key node tenant rand v m x rest h e w =
      let spec = tenant.spec in
      let take : NodeIpam → Cmd (Machine W) NodeStore =
        allocate_on_node c n t env v6 parse_mac tenant rand node in
      let last = afterwards namespace key tenant node in
      let s = node_store_of node (m.node_disks node) v in
      let m1 = save_node s node m in
      let ran =
        allocate_tenant_there v6 spec.name spec.vni spec.subnet_prefix rand node s v
          (m.tenant_disks spec.name) x rest h.lockable h.file h.openable h.writable e w in
      let took : take (on_disk node v m) m1 ≡ (
        returns (ok (taken_store node spec.name v x rest m)),
        taken_machine node tenant rand v x rest m,
      ) =
        allocate_on_node_returns c n t env v6 parse_mac tenant rand node (on_disk node v m) m1 none
          (taken_store node spec.name v x rest m)
          (written_disk (new_tenant v6 spec.name spec.vni spec.subnet_prefix rand x)
            (m.tenant_disks spec.name))
          ran in
      open_node_bind node v (λ nim. take nim >>= last) m h
      ∙ bind_ok (take (on_disk node v m)) last m1 (taken_store node spec.name v x rest m)
          (ap (λ z. z.0) took)
      ∙ ap (λ z. last (taken_store node spec.name v x rest m) z.1) took

  pub afterwards-Keeps_nodes :
      (namespace key : Text) (tenant : Tenant) (node : Text) (s : NodeStore)
      → Keeps (λ m. m.node_disks) (afterwards namespace key tenant node s)
  unfolding on_outside
  afterwards-Keeps_nodes namespace key tenant node s =
      Keeps-bind (λ m. m.node_disks) (open_tenant (λ _. crash) tenant.object_name)
        (λ tim. on_outside (finish c n t env v6 parse_mac namespace key tenant node s.value tim))
        (open_tenant-Keeps_nodes tenant.object_name) (λ _ _. refl)

  -- The data with which a tenant starts on a node.
  abbrev pub first_data : Tenant → Result (List ℕ) → ℕ → TenantData
  first_data tenant rand a =
      let spec = tenant.spec in
      fresh_tenant v6 spec.name (vtep_mac_text rand) spec.vni spec.subnet_prefix a

  -- What follows leaves the tenant's file as it is.
  afterwards-tenant_disks :
      (namespace key : Text) (tenant : Tenant) (node : Text) (s : NodeStore) (name : Text)
      (x : TenantData) (m : Machine W)
      → HoldsTenant name (m.tenant_disks name) x
      → (afterwards namespace key tenant node s m).1.tenant_disks name ≡ m.tenant_disks name
  unfolding on_outside
  afterwards-tenant_disks namespace key tenant node s name x m h =
      let open_it = open_tenant {W = W} (λ _. crash) tenant.object_name in
      let last : TenantIpam → Cmd (Machine W) (Unit {0}) =
        λ tim. on_outside (finish c n t env v6 parse_mac namespace key tenant node s.value tim) in
      let opened : (open_it m).1.tenant_disks name ≡ m.tenant_disks name =
        open_tenant-disk tenant.object_name name x m h in
      elim (bind_cases open_it last m) [
        | inl (tim, same) ↦ ap (λ z. z.1.tenant_disks name) same ∙ opened
        | inr same ↦ ap (λ z. z.tenant_disks name) same ∙ opened
      ]

  taken-HoldsTenant :
      (node : Text) (tenant : Tenant) (rand : Result (List ℕ)) (v : NodeData) (m : Machine W)
      (x : Text) (rest : List Text) (a : ℕ)
      → read_prefix v6 x ≡ prefix (ipv4 a) 24
      → IsPrepared (m.tenant_disks tenant.spec.name)
      → HoldsTenant tenant.spec.name
          ((taken_machine node tenant rand v x rest m).tenant_disks tenant.spec.name)
          (first_data tenant rand a)
  taken-HoldsTenant node tenant rand v m x rest a reads p =
      let spec = tenant.spec in
      let d = m.tenant_disks spec.name in
      let made : Prefix → TenantData = λ z.
        tenant_data_of v6 spec.name spec.vni spec.subnet_prefix z (vtep_mac_text rand)
          empty_tenant in
      let written : Disk TenantData = written_disk (made (read_prefix v6 x)) d in
      let held : HoldsTenant spec.name written (made (read_prefix v6 x)) =
        written-HoldsTenant spec.name d (made (read_prefix v6 x)) p in
      subst
        (λ z.
          HoldsTenant spec.name ((taken_machine node tenant rand v x rest m).tenant_disks spec.name)
            (made z))
        reads
        (subst (λ z. HoldsTenant spec.name z (made (read_prefix v6 x)))
          (sym (put_self spec.name written m.tenant_disks)) held)

  -- The node's store on disk after `addTenant`.
  pub add_on_node-Holds :
      (namespace key node : Text) (tenant : Tenant) (rand : Result (List ℕ)) (v : NodeData)
      (m : Machine W) (x : Text) (rest : List Text)
      → Holds node (m.node_disks node) v
      → v.available_list ≡ x ∷ rest
      → IsWritable (m.tenant_disks tenant.spec.name)
      → Holds node
          ((add_on_node c n t env v6 parse_mac namespace key tenant rand node m).1.node_disks node)
          (taken v6 tenant.spec.name x rest v)
  unfolding save_node
  add_on_node-Holds namespace key node tenant rand v m x rest h e w =
      let name = tenant.spec.name in
      let d = m.node_disks node in
      let after = taken v6 name x rest v in
      let s = taken_store node name v x rest m in
      let m1 = taken_machine node tenant rand v x rest m in
      let kept : (add_on_node c n t env v6 parse_mac namespace key tenant rand node m).1.node_disks
            node
          ≡ rewritten d after =
        ap (λ z. z.1.node_disks node)
          (add_on_node_there namespace key node tenant rand v m x rest h e w)
        ∙ ap (λ f. f node) (afterwards-Keeps_nodes namespace key tenant node s m1)
        ∙ put_self node (rewritten d after)
            (save_node (on_disk node v m).node_store node m).node_disks in
      subst (λ z. Holds node z after) (sym kept) (rewritten-Holds node d v after h)

  -- The node's file names the tenant with its subnet, and the tenant's file holds a new tenant's data.
  pub add_on_node_records :
      (namespace key node : Text) (tenant : Tenant) (rand : Result (List ℕ)) (v : NodeData)
      (m : Machine W) (x : Text) (rest : List Text) (a : ℕ)
      → Holds node (m.node_disks node) v
      → v.available_list ≡ x ∷ rest
      → read_prefix v6 x ≡ prefix (ipv4 a) 24
      → IsPrepared (m.tenant_disks tenant.spec.name)
      → let m1 = (add_on_node c n t env v6 parse_mac namespace key tenant rand node m).1 in
        Holds node (m1.node_disks node) (taken v6 tenant.spec.name x rest v)
        × HoldsTenant tenant.spec.name (m1.tenant_disks tenant.spec.name) (first_data tenant rand a)
  add_on_node_records namespace key node tenant rand v m x rest a h e reads p =
      let name = tenant.spec.name in
      let s = taken_store node name v x rest m in
      let m1 = taken_machine node tenant rand v x rest m in
      let w = prepared-IsWritable (m.tenant_disks name) p in
      let first = first_data tenant rand a in
      let held = taken-HoldsTenant node tenant rand v m x rest a reads p in
      let left : (add_on_node c n t env v6 parse_mac namespace key tenant rand node
              m).1.tenant_disks
            name
          ≡ m1.tenant_disks name =
        ap (λ z. z.1.tenant_disks name)
          (add_on_node_there namespace key node tenant rand v m x rest h e w)
        ∙ afterwards-tenant_disks namespace key tenant node s name first m1 held in
      (
        add_on_node-Holds namespace key node tenant rand v m x rest h e w,
        subst (λ z. HoldsTenant name z first) (sym left) held,
      )
