-- ===== src/System/FirstPod.antt =====
-- The first pod of a tenant on a node: `addTenant`, `handlePodAdd` and `cmdAdd` one after another.
use mathlib.Core.Path.{subst}
use tenant_cni.Api.{Tenant}
use tenant_cni.Base.{
  List, Result, Text, [], ap, arith, false, ok, refl, returns, some, sym, true, ℕ, ◌%◌, ◌+◌, ◌/◌,
  ◌<◌, ◌∙◌, ◌∷◌, ◌≡◌,
}
use tenant_cni.Cni.Add.{cmd_add_given, cmd_add_records, container_of}
use tenant_cni.Cni.Args.{get_regex}
use tenant_cni.Cni.Commands.{CmdArgs, CniResult, cmd_add}
use tenant_cni.Cni.PodTenant.{find_tenant-handle_pod_add}
use tenant_cni.Cni.Tenants.{
  HoldsTenant, IsFound, Keeps, Keeps-bind, RetriesOnce, tenant_on_disk, tenant_store_of-IsReady,
}
use tenant_cni.Controller.Add.{add_on_node, finish}
use tenant_cni.Controller.Events.{Client, handle_pod_add, tenant_of_annotation}
use tenant_cni.Host.{Cmd, crash, reads}
use tenant_cni.Host.Iptables.{Iptables}
use tenant_cni.Host.Netlink.{Netlink}
use tenant_cni.Ipam.Address.{TenantIpam, new_tenant_ipam}
use tenant_cni.Ipam.Address.Laws.{with_ip}
use tenant_cni.Ipam.Address.Next.{AddsOne, allocate_ip_next}
use tenant_cni.Ipam.Provision.{
  IsPrepared, fresh-IsUnknown, fresh-bridge, fresh-cidr, fresh-contains_ip, fresh-last_ip,
}
use tenant_cni.Ipam.Serving.{fresh-IsIpv4Subnet}
use tenant_cni.Ipam.Tenant.{bridge_name, read_prefix, tenant_data_of, vtep_mac_text}
use tenant_cni.Ipam.Tenant.OnDisk.{Holds}
use tenant_cni.Ipam.Tenant.Subnets.{held}
use tenant_cni.Ipam.Types.{Bridge, NodeData}
use tenant_cni.K8s.{Environment, Pod}
use tenant_cni.Machine.{Machine, on_outside, open_tenant, save_node, save_tenant}
use tenant_cni.Net.Addr.{Ipv6Text, addr_next, ipv4, prefix}
use tenant_cni.Net.Ip.{Ip, as16, to4}
use tenant_cni.Net.RoundTrip.{IsBytes}
use tenant_cni.System.Added.{
  add_on_node_records, add_on_node_there, first_data, taken_machine, taken_store,
}
use tenant_cni.System.Prepared.{prepared-IsWritable}
use tenant_cni.System.Stores.{handle_pod_add-KeepsTenants}

module _ {W : Type 0} (c : Client W) (n : Netlink W) (t : Iptables W) (env : Environment)
    (v6 : Ipv6Text) (parse_mac : Text → Result (List ℕ)) where
  -- `addTenant` on the node leaves the pod store alone.
  open_tenant-Keeps_pods :
      (name : Text) → Keeps (λ m. m.pod_disk) (open_tenant {W = W} (λ _. crash) name)
  unfolding open_tenant save_tenant new_tenant_ipam
  open_tenant-Keeps_pods name m = ground arith

  add_on_node-pod_disk :
      (namespace key node : Text) (tenant : Tenant) (rand : Result (List ℕ)) (v : NodeData)
      (m : Machine W) (x : Text) (rest : List Text)
      → Holds node (m.node_disks node) v
      → v.available_list ≡ x ∷ rest
      → IsPrepared (m.tenant_disks tenant.spec.name)
      → (add_on_node c n t env v6 parse_mac namespace key tenant rand node m).1.pod_disk
        ≡ m.pod_disk
  unfolding on_outside save_node
  add_on_node-pod_disk namespace key node tenant rand v m x rest h e p =
      let s = taken_store c n t env v6 parse_mac node tenant.spec.name v x rest m in
      let last : TenantIpam → Cmd (Machine W) (Unit {0}) =
        λ tim. on_outside (finish c n t env v6 parse_mac namespace key tenant node s.value tim) in
      ap (λ z. z.1.pod_disk)
        (add_on_node_there c n t env v6 parse_mac namespace key node tenant rand v m x rest h e
          (prepared-IsWritable (m.tenant_disks tenant.spec.name) p))
      ∙ Keeps-bind (λ z. z.pod_disk) (open_tenant (λ _. crash) tenant.object_name) last
          (open_tenant-Keeps_pods tenant.object_name) (λ _ _. refl)
          (taken_machine c n t env v6 parse_mac node tenant rand v x rest m)

  module _ (next_ip : Ip → Ip) (bytes_next : (ip : Ip) → IsBytes (next_ip ip))
      (adds_one : AddsOne next_ip) (retry : Cmd (Machine W) Text → Cmd (Machine W) Text)
      (retries_once : RetriesOnce retry) (rounds : ℕ) (enough : 0 < rounds) where
    -- The first address of a tenant that holds the data with which it starts.
    first_address :
        (tenant : Tenant) (rand : Result (List ℕ)) (w : ℕ) (a : CmdArgs) (pod : Text)
        (m : Machine W) (r : CniResult)
        → w + 255 < 4294967296
        → w % 256 ≡ 0
        → IsFound retry a.args pod tenant.spec.name m
        → HoldsTenant tenant.spec.name
            (m.tenant_disks tenant.spec.name)
            (first_data c n t env v6 parse_mac tenant rand w)
        → (cmd_add n v6 next_ip retry rounds a m).0 ≡ returns (ok r)
        → to4 r.address.ip ≡ (w / 16777216 % 256) ∷ (w / 65536 % 256) ∷ (w / 256 % 256) ∷ 2 ∷ []
    first_address tenant rand w a pod m r small aligned found h success =
        let spec = tenant.spec in
        let name = spec.name in
        let mac = vtep_mac_text rand in
        let first = first_data c n t env v6 parse_mac tenant rand w in
        let tim = tenant_on_disk name first m in
        let info = container_of n v6 next_ip retry rounds a pod in
        let b : Bridge = record { name = bridge_name name; gateway = addr_next (ipv4 w) } in
        let ip = next_ip (as16 (ipv4 (w + 1))) in
        let (s, given) =
          cmd_add_given n v6 next_ip retry rounds a pod name first m r found h success in
        let (computed, four) =
          allocate_ip_next v6 next_ip adds_one w (omega arith) aligned rounds info tim first b 1
            (tenant_store_of-IsReady name (m.tenant_disks name) first h)
            (fresh-bridge v6 name mac spec.vni spec.subnet_prefix w)
            (fresh-IsUnknown v6 name mac info.id spec.vni spec.subnet_prefix w)
            (fresh-cidr v6 name mac spec.vni spec.subnet_prefix w (omega arith))
            (fresh-last_ip v6 name mac spec.vni spec.subnet_prefix w (omega arith)) (omega arith)
            (fresh-contains_ip v6 name mac spec.vni spec.subnet_prefix w ip) enough in
        let same : r.address.ip ≡ ip = ground (arith, given, computed) in ap to4 same ∙ four

    -- The first pod of a tenant: `addTenant`, however it ends, on a node whose store is there, holds
    -- data and can be locked and written, with an IPv4 subnet of 24 bits that ends in a zero byte first
    -- among the available ones, where the tenant's directory and lock are there and can be written;
    -- then `handlePodAdd`, which returns, for a pod that has a network of its own and whose annotation
    -- names the tenant, where the pod store can be written; then `cmdAdd`, which succeeds, for that
    -- pod's name, with a retry that makes one call where that succeeds, one round or more, and a
    -- `NextIP` that gives bytes and adds one to the last byte of an IPv4 address where that is below
    -- 255. The plugin reports the subnet's address with the last byte 2, and the tenant's file holds
    -- the data of a new tenant with that address given to the container.
    pub cmd_add-add_on_node :
        (namespace key node : Text) (tenant : Tenant) (rand : Result (List ℕ)) (v : NodeData)
        (m : Machine W) (x : Text) (rest : List Text) (w : ℕ) (pod : Pod) (a : CmdArgs)
        (r : CniResult)
        → Holds node (m.node_disks node) v
        → v.available_list ≡ x ∷ rest
        → read_prefix v6 x ≡ prefix (ipv4 w) 24
        → w + 255 < 4294967296
        → w % 256 ≡ 0
        → IsPrepared (m.tenant_disks tenant.spec.name)
        → m.pod_disk.opens ≡ true
        → m.pod_disk.writes ≡ true
        → pod.host_network ≡ false
        → tenant_of_annotation pod ≡ tenant.spec.name
        → get_regex a.args ≡ some pod.name
        → let m1 = (add_on_node c n t env v6 parse_mac namespace key tenant rand node m).1 in
          (handle_pod_add pod m1).0 ≡ returns (ok tt)
          → let m2 = (handle_pod_add pod m1).1 in
            (cmd_add n v6 next_ip retry rounds a m2).0 ≡ returns (ok r)
            → (to4 r.address.ip
                ≡ (w / 16777216 % 256) ∷ (w / 65536 % 256) ∷ (w / 256 % 256) ∷ 2 ∷ [])
              × HoldsTenant tenant.spec.name
                  ((cmd_add n v6 next_ip retry rounds a m2).1.tenant_disks tenant.spec.name)
                  (with_ip v6 r.address.ip
                    (container_of n v6 next_ip retry rounds a pod.name)
                    (first_data c n t env v6 parse_mac tenant rand w))
    unfolding tenant_data_of
    cmd_add-add_on_node namespace key node tenant rand v m x rest w pod a r h e reads small aligned
          p o wr guest annotated named handled success =
        let spec = tenant.spec in
        let name = spec.name in
        let mac = vtep_mac_text rand in
        let first = first_data c n t env v6 parse_mac tenant rand w in
        let m1 = (add_on_node c n t env v6 parse_mac namespace key tenant rand node m).1 in
        let m2 = (handle_pod_add pod m1).1 in
        let (_, held) =
          add_on_node_records c n t env v6 parse_mac namespace key node tenant rand v m x rest w h e
            reads p in
        let pods : m1.pod_disk ≡ m.pod_disk =
          add_on_node-pod_disk namespace key node tenant rand v m x rest h e p in
        let held2 : HoldsTenant name (m2.tenant_disks name) first =
          subst (λ f. HoldsTenant name (f name) first) (sym (handle_pod_add-KeepsTenants pod m1))
            held in
        let finds =
          find_tenant-handle_pod_add pod m1 guest (ap (λ d. d.opens) pods ∙ o)
            (ap (λ d. d.writes) pods ∙ wr) handled in
        let found : IsFound retry a.args pod.name name m2 = record {
          retries_once = retries_once;
          reads_name = named;
          finds = finds ∙ ap (λ z. returns (ok z)) annotated;
        } in
        let (_, _, left) =
          cmd_add_records n v6 next_ip retry rounds bytes_next a pod.name name first m2 r found
            held2 (fresh-IsIpv4Subnet v6 name mac spec.vni spec.subnet_prefix w (omega arith))
            (fresh-IsUnknown v6 name mac a.container_id spec.vni spec.subnet_prefix w) success in
        (first_address tenant rand w a pod.name m2 r small aligned found held2 success, left)
