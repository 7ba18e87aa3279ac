-- ===== src/System/Deleted.antt =====
-- `deleteTenant` on a node of the tenant: what it leaves in the node's file and in the tenant's directory.
use mathlib.Core.Path.{subst}
use tenant_cni.Backend.Bridge.{delete_tenant_bridge}
use tenant_cni.Backend.Vxlan.{delete_vxlan_device}
use tenant_cni.Base.{
  List, Option, Result, Text, ap, arith, none, ok, refl, returns, some, sym, ℕ, ◌∙◌, ◌≡◌,
}
use tenant_cni.Base.Dict.{NodupKeys, lookup}
use tenant_cni.Cni.Tenants.{Keeps}
use tenant_cni.Controller.Delete.{
  delete_listed, delete_on_node, pods_of_tenant, release_subnet, remove_store,
}
use tenant_cni.Controller.Events.{Client}
use tenant_cni.Controller.Release.{release_subnet_there}
use tenant_cni.Controller.Subnets.{with_returned}
use tenant_cni.Controller.Update.{same_nodes}
use tenant_cni.Host.{Cmd, crash, deref, ignore, ◌>>=◌, ◌>>◌}
use tenant_cni.Host.Laws.{bind_ok, ignore_state, ok_of_bind}
use tenant_cni.Host.Netlink.{Netlink}
use tenant_cni.Ipam.Address.{TenantIpam}
use tenant_cni.Ipam.PodStore.{PodStore}
use tenant_cni.Ipam.Removal.{delete_tenant_store_all}
use tenant_cni.Ipam.Store.{absent, missing}
use tenant_cni.Ipam.Tenant.OnDisk.{Holds}
use tenant_cni.Ipam.TenantStore.{delete_tenant_store}
use tenant_cni.Ipam.Types.{Bridge, NodeData, Vxlan}
use tenant_cni.K8s.{Environment}
use tenant_cni.Machine.{Machine, on_outside, open_pods, open_tenant, put, put_self, save_pods}
use tenant_cni.Net.Addr.{Ipv6Text, Prefix}
use tenant_cni.System.Delete.{release_subnet-KeepsTenants, unbridge}
use tenant_cni.System.Opening.{crash-GivesUp, open_tenant_named}
use tenant_cni.System.Prepared.{open_tenant-Keeps_nodes}

module _ {W : Type 0} where
  -- A command that does what its last part does, on a machine with the same nodes' files.
  abbrev EndsIn : Cmd (Machine W) (Unit {0}) → Cmd (Machine W) (Unit {0}) → Machine W → Type 0
  EndsIn last whole m = (m1 : Machine W) × (m1.node_disks ≡ m.node_disks) × (whole m ≡ last m1)

  EndsIn-bind :
      {A : Type 0} (last : Cmd (Machine W) (Unit {0})) (x : Cmd (Machine W) A)
      (f : A → Cmd (Machine W) (Unit {0})) (m : Machine W)
      → Keeps (λ z. z.node_disks) x
      → ((x >>= f) m).0 ≡ returns (ok tt)
      → ((a : A) (m' : Machine W)
          → x m ≡ (returns (ok a), m')
          → (f a m').0 ≡ returns (ok tt)
          → EndsIn last (f a) m')
      → EndsIn last (x >>= f) m
  EndsIn-bind last x f m k success go =
      let (a, gives, later) = ok_of_bind x f m tt success in
      let (m1, e, same) = go a (x m).1 (ap (λ o. (o, (x m).1)) gives) later in
      (m1, e ∙ k m, bind_ok x f m a gives ∙ same)

  deref_kept : {A : Type 0} (o : Option A) → Keeps (λ m. m.node_disks) (deref {S = Machine W} o)
  deref_kept none m = refl
  deref_kept (some a) m = refl

  outside_kept : {A : Type 0} (x : Cmd W A) → Keeps (λ m. m.node_disks) (on_outside x)
  unfolding on_outside
  outside_kept x m = refl

  ignored_kept : {A : Type 0} (x : Cmd W A) → Keeps (λ m. m.node_disks) (ignore (on_outside x))
  ignored_kept x m = ap (λ z. z.node_disks) (ignore_state (on_outside x) m) ∙ outside_kept x m

  open_pods_kept : Keeps (λ m. m.node_disks) (open_pods {W = W} (λ _. crash))
  unfolding open_pods save_pods
  open_pods_kept m = ground arith

module _ {W : Type 0} (c : Client W) (n : Netlink W) (env : Environment) (v6 : Ipv6Text)
    (parse_mac : Text → Result (List ℕ)) where
  -- The last two calls of `deleteTenant`.
  abbrev pub give_back : Text → Text → Cmd (Machine W) (Unit {0})
  give_back node name =
      remove_store c n env v6 parse_mac name >> release_subnet c n env v6 parse_mac node name

  give_back_there :
      (node name : Text) (v : NodeData) (network : Prefix) (m : Machine W) (names : List Text)
      → Holds node (m.node_disks node) v
      → NodupKeys v.tenant_list
      → lookup name v.tenant_list ≡ some network
      → c.read_dir name ≡ ok names
      → ((x : Text) → c.remove_all name x ≡ none)
      → let m1 = (give_back node name m).1 in
        Holds node (m1.node_disks node) (with_returned v6 name network v)
        × ((m1.tenant_disks name).entry ≡ missing)
        × ((m1.tenant_disks name).file ≡ absent)
  unfolding remove_store
  give_back_there node name v network m names h nodup found listed removes =
      let d = m.tenant_disks name in
      let gone = (delete_tenant_store name (c.read_dir name) (c.remove_all name) d).1 in
      let m0 : Machine W = record m { tenant_disks = put name gone m.tenant_disks } in
      let (no_entry, no_file) = delete_tenant_store_all name names (c.remove_all name) d removes in
      let left : (give_back node name m).1.tenant_disks name
          ≡ (delete_tenant_store name (ok names) (c.remove_all name) d).1 =
        ap (λ f. f name) (release_subnet-KeepsTenants c n env v6 parse_mac node name m0)
        ∙ put_self name gone m.tenant_disks
        ∙ ap (λ r. (delete_tenant_store name r (c.remove_all name) d).1) listed in
      (
        release_subnet_there c n env v6 parse_mac node name v network m0 h nodup found,
        ap (λ z. z.entry) left ∙ no_entry,
        ap (λ z. z.file) left ∙ no_file,
      )

  -- What `deleteTenant` does once the tenant's store is open.
  abbrev take_down : Text → TenantIpam → Cmd (Machine W) (Unit {0})
  take_down node tim = deref tim.tenant_store.value.bridge >>= λ bridge.
      deref tim.tenant_store.value.vxlan >>= unbridge c n env v6 parse_mac node bridge tim

  unbridge_end :
      (node : Text) (bridge : Bridge) (tim : TenantIpam) (vxlan : Vxlan) (m : Machine W)
      → (unbridge c n env v6 parse_mac node bridge tim vxlan m).0 ≡ returns (ok tt)
      → EndsIn
          (give_back node tim.tenant_name)
          (unbridge c n env v6 parse_mac node bridge tim vxlan)
          m
  unbridge_end node bridge tim vxlan m success =
      let off = delete_tenant_bridge n v6 bridge.name in
      let off_vxlan = delete_vxlan_device n v6 parse_mac vxlan.vtep_name in
      let last = give_back node tim.tenant_name in
      EndsIn-bind last (ignore (on_outside off)) (λ _. ignore (on_outside off_vxlan) >> last) m
        (ignored_kept off) success
        (λ _ m1 _ ok1.
          EndsIn-bind last (ignore (on_outside off_vxlan)) (λ _. last) m1 (ignored_kept off_vxlan)
            ok1 (λ _ m2 _ _. (m2, refl, refl)))

  take_down_end :
      (node : Text) (tim : TenantIpam) (m : Machine W)
      → (take_down node tim m).0 ≡ returns (ok tt)
      → EndsIn (give_back node tim.tenant_name) (take_down node tim) m
  take_down_end node tim m success =
      let v = tim.tenant_store.value in
      let last = give_back node tim.tenant_name in
      let go : Bridge → Vxlan → Cmd (Machine W) (Unit {0}) =
        λ bridge. unbridge c n env v6 parse_mac node bridge tim in
      EndsIn-bind last (deref v.bridge) (λ bridge. deref v.vxlan >>= go bridge) m
        (deref_kept v.bridge) success
        (λ bridge m1 _ ok1.
          EndsIn-bind last (deref v.vxlan) (go bridge) m1 (deref_kept v.vxlan) ok1
            (λ vxlan m2 _ ok2. unbridge_end node bridge tim vxlan m2 ok2))

  -- A `deleteTenant` that succeeds on the node comes to its last two calls with the nodes' files as they
  -- were.
  pub delete_on_node_end :
      (node name : Text) (m : Machine W)
      → (delete_on_node c n env v6 parse_mac node name m).0 ≡ returns (ok tt)
      → (m1 : Machine W) × (m1.node_disks ≡ m.node_disks)
        × (delete_on_node c n env v6 parse_mac node name m ≡ give_back node name m1)
  unfolding delete_on_node
  delete_on_node_end node name m success =
      let go = take_down node in
      let listed : PodStore → Cmd W (Unit {0}) =
        λ s. delete_listed c n env v6 parse_mac (pods_of_tenant name s.value.pods) in
      let after_pods : Cmd (Machine W) (Unit {0}) = open_tenant (λ _. crash) name >>= go in
      let last = give_back node name in
      EndsIn-bind last (open_pods (λ _. crash)) (λ s. on_outside (listed s) >>= λ _. after_pods) m
        open_pods_kept success
        (λ s m1 _ ok1.
          EndsIn-bind last (on_outside (listed s)) (λ _. after_pods) m1 (outside_kept (listed s))
            ok1
            (λ _ m2 _ ok2.
              EndsIn-bind last (open_tenant (λ _. crash) name) go m2 (open_tenant-Keeps_nodes name)
                ok2
                (λ tim m3 opens ok3.
                  subst (λ x. EndsIn (give_back node x) (go tim) m3)
                    (open_tenant_named (λ _. crash) name m2 tim crash-GivesUp (ap (λ z. z.0) opens))
                    (take_down_end node tim m3 ok3))))

  pub delete_on_node_there :
      (node name : Text) (v : NodeData) (network : Prefix) (m : Machine W) (names : List Text)
      → Holds node (m.node_disks node) v
      → NodupKeys v.tenant_list
      → lookup name v.tenant_list ≡ some network
      → c.read_dir name ≡ ok names
      → ((x : Text) → c.remove_all name x ≡ none)
      → (delete_on_node c n env v6 parse_mac node name m).0 ≡ returns (ok tt)
      → let m1 = (delete_on_node c n env v6 parse_mac node name m).1 in
        Holds node (m1.node_disks node) (with_returned v6 name network v)
        × ((m1.tenant_disks name).entry ≡ missing)
        × ((m1.tenant_disks name).file ≡ absent)
  delete_on_node_there node name v network m names h nodup found listed removes success =
      let (m1, same_nodes, same) = delete_on_node_end node name m success in
      let h1 : Holds node (m1.node_disks node) v =
        subst (λ f. Holds node (f node) v) (sym same_nodes) h in
      subst
        (λ z.
          Holds node (z.1.node_disks node) (with_returned v6 name network v)
          × ((z.1.tenant_disks name).entry ≡ missing)
          × ((z.1.tenant_disks name).file ≡ absent))
        (sym same) (give_back_there node name v network m1 names h1 nodup found listed removes)
