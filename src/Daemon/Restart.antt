-- ===== src/Daemon/Restart.antt =====
-- What the daemon's start leaves in the node's store.
use tenant_cni.Base.{List, Text, [], ap, arith, bytes, ok, refl, true, ℕ, ◌++◌, ◌∙◌, ◌≡◌, ◌≢◌}
use tenant_cni.Daemon.{init_node, init_store}
use tenant_cni.Ipam.NodeStore.{
  NodeStore, add_available_tenant_list, add_node_cidr, add_node_ip, default_store_dir, empty_node,
  new_node_store, store_node_data,
}
use tenant_cni.Ipam.Store.{
  Disk, holds, join, json, missing, new_store_there, opened, store_value, write_file,
}
use tenant_cni.Ipam.Tenant.{list_subnets}
use tenant_cni.Ipam.Types.{NodeData}
use tenant_cni.K8s.{Environment, Kube}
use tenant_cni.Machine.{Machine, put_self, save_node}

init_store-file :
    (split : Text → ℕ → List Text) (node_ip node_cidr : Text) (s : NodeStore)
    → s.disk.opens ≡ true
    → s.disk.writes ≡ true
    → s.value ≡ empty_node
    → (init_store split node_ip node_cidr s).disk.file
      ≡ holds (
          json (record {
            node_ip = node_ip;
            node_cidr = node_cidr;
            available_list = list_subnets split node_cidr 24;
            tenant_list = [];
          }))
unfolding init_store add_node_ip add_node_cidr add_available_tenant_list store_node_data store_value
    write_file
init_store-file split node_ip node_cidr s o w e = ground (arith, o, w, e)

new_node_store_there :
    (name : Text) (d : Disk NodeData)
    → d.entry ≢ missing
    → (s : NodeStore) × (new_node_store default_store_dir name d ≡ (ok s, d))
      × (s.disk ≡ d)
      × (s.value ≡ empty_node)
unfolding new_node_store
new_node_store_there name d e =
    let dir = join default_store_dir name in
    let file = join dir (name ++ bytes ".json") in
    (opened dir file empty_node d, new_store_there dir file empty_node d e, refl, refl)

-- On a node whose store is there and can be written, the start of the daemon leaves a store without
-- tenants, in which every subnet of the node is available, whatever the store held before.
pub init_node_forgets :
    {W : Type 0} (split : Text → ℕ → List Text) (k : Kube W) (env : Environment)
    (node_name node_ip node_cidr : Text) (m : Machine W)
    → (m.node_disks node_name).entry ≢ missing
    → (m.node_disks node_name).opens ≡ true
    → (m.node_disks node_name).writes ≡ true
    → ((init_node k env split node_name node_ip node_cidr m).1.node_disks node_name).file
      ≡ holds (
          json (record {
            node_ip = node_ip;
            node_cidr = node_cidr;
            available_list = list_subnets split node_cidr 24;
            tenant_list = [];
          }))
unfolding init_node save_node
init_node_forgets split k env node_name node_ip node_cidr m e o w =
    let (s, made, on_disk, empty) = new_node_store_there node_name (m.node_disks node_name) e in
    let complete = init_store split node_ip node_cidr s in
    let kept : (init_node k env split node_name node_ip node_cidr m).1.node_disks node_name
        ≡ complete.disk =
      rw (made, init_node) (put_self node_name complete.disk m.node_disks) in
    ap (λ d. d.file) kept
    ∙ init_store-file split node_ip node_cidr s (ap (λ d. d.opens) on_disk ∙ o)
        (ap (λ d. d.writes) on_disk ∙ w) empty
