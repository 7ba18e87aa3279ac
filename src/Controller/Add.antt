-- ===== src/Controller/Add.antt =====
-- pkg/controller/add.go
use tenant_cni.Api.{Node, Tenant, TenantSpec}
use tenant_cni.Backend.Vxlan.{init_vxlan_device}
use tenant_cni.Base.{
  List, Option, Result, Text, [], err, if◌then◌else◌, length, ltb, none, not, ok, panics, returns,
  runs_on, some, suc, text_eq, zero, ℕ, ◌&&◌, ◌∷◌,
}
use tenant_cni.Base.Dict.{Dict}
use tenant_cni.Controller.Events.{Client, default_tenant, event_add, exists_node, refresh_tenant}
use tenant_cni.Host.{Cmd, attempt, crash, deref, from_result, ignore, pure, ◌>>=◌, ◌>>◌}
use tenant_cni.Host.Iptables.{Iptables}
use tenant_cni.Host.Netlink.{Netlink}
use tenant_cni.Ipam.Address.{TenantIpam}
use tenant_cni.Ipam.NodeStore.{NodeStore}
use tenant_cni.Ipam.Tenant.{NodeIpam, allocate_tenant}
use tenant_cni.Ipam.Types.{NodeData, TenantData, Vxlan}
use tenant_cni.K8s.{
  Environment, get_current_node, get_current_node_name, get_kube_client_set,
  store_tenant_annotation_node,
}
use tenant_cni.Machine.{Machine, on_outside, open_node, open_tenant, put, save_node}
use tenant_cni.Net.Addr.{Ipv6Text, Prefix, prefix_text}
use tenant_cni.Routing.Rules.{allow_forwarding_tenant, block_tenant_to_tenant_traffic}

-- The node's values are written at the index that the loop has found, in a tenant that was read anew:
-- an index out of its range panics.
unfoldable pub set_node : ℕ → Text → Text → Text → List Node → Option (List Node)
set_node i node_ip vtep_ip vtep_mac [] = none
set_node zero node_ip vtep_ip vtep_mac (x ∷ xs) =
    some (record x { node_ip = node_ip; vtep_ip = vtep_ip; vtep_mac = vtep_mac } ∷ xs)
set_node (suc i) node_ip vtep_ip vtep_mac (x ∷ xs) = elim (set_node i node_ip vtep_ip vtep_mac xs) [
  | none ↦ none
  | some ys ↦ some (x ∷ ys)
]

module _ {W : Type 0} (c : Client W) (n : Netlink W) (t : Iptables W) (env : Environment)
    (v6 : Ipv6Text) (parse_mac : Text → Result (List ℕ)) where
  -- `AllocateTenant` on the node: its outcome is dropped, its panic is not.
  unfoldable pub allocate_on_node :
      Tenant → Result (List ℕ) → Text → NodeIpam → Cmd (Machine W) NodeStore
  allocate_on_node tenant rand node_name nim m =
      let spec = tenant.spec in
      let (o, s, disk) =
        allocate_tenant v6 spec.name spec.vni spec.subnet_prefix rand nim
          (m.tenant_disks spec.name) in
      (
        elim o [ returns _ ↦ returns (ok s) | panics ↦ panics | runs_on ↦ runs_on ],
        record (save_node s node_name m) { tenant_disks = put spec.name disk m.tenant_disks },
      )

  -- One try to publish the node's values: the tenant that was sent. A tenant without a VXLAN device on
  -- file is a nil pointer.
  unfoldable pub publish_once : Text → Text → ℕ → Text → Option Vxlan → Cmd W Tenant
  publish_once namespace name index node_ip device = do
    tenant ← refresh_tenant c namespace name
    let spec : TenantSpec = tenant.spec
    vxlan ← deref device
    nodes ← deref (set_node index node_ip vxlan.vtep_ip vxlan.vtep_mac spec.nodes)
    let sent : Tenant = record tenant { spec = record spec { nodes = nodes } }
    c.kube.update_tenant namespace sent
    pure sent

  -- The loop over the nodes of the tenant, which publishes at each entry of this node: the tenant that
  -- was sent last.
  unfoldable pub publish :
      Text → Text → Text → Text → Option Vxlan → ℕ → List Node → Tenant → Cmd W Tenant
  publish namespace name node_name node_ip device index [] latest = pure latest
  publish namespace name node_name node_ip device index (element ∷ rest) latest =
      let later = publish namespace name node_name node_ip device (suc index) rest in
      if text_eq element.name node_name
      then c.retry_on_conflict (publish_once namespace name index node_ip device) >>= later
      else later latest

  -- A tenant of several nodes gets a VXLAN device; the name of one that failed is read all the same.
  unfoldable pub connect_nodes : TenantData → ℕ → Cmd W (Unit {0})
  connect_nodes v nodes =
      let device : Cmd W (Unit {0}) = elim v.vxlan [
        | none ↦ crash
        | some vxlan ↦
            attempt (
              init_vxlan_device n v6 parse_mac v.tenant_cidr vxlan.vtep_name vxlan.vni
                vxlan.vtep_mac)
            >>= λ r. elim r [ ok _ ↦ pure tt | err _ ↦ crash ]
      ] in
      if ltb 1 nodes then device else pure tt

  -- The label on the node; a node that could not be had is a nil pointer. The clientset that was asked
  -- for at the start is taken to be there.
  unfoldable pub label_node : Text → Tenant → Cmd W Tenant
  label_node node_name tenant = attempt (get_current_node c.kube env node_name) >>= λ r. elim r [
    | err _ ↦ crash
    | ok node ↦ store_tenant_annotation_node c.kube env node tenant.object_name >> pure tenant
  ]

  -- The loop over the node's tenants: traffic to each other tenant but the default one is blocked.
  unfoldable pub block_others : Text → Text → Dict Prefix → Cmd W (Unit {0})
  block_others tenant_name cidr [] = pure tt
  block_others tenant_name cidr ((other, network) ∷ rest) =
      let later = block_others tenant_name cidr rest in
      if not (text_eq other tenant_name) && not (text_eq other default_tenant)
      then ignore (block_tenant_to_tenant_traffic t cidr (prefix_text v6 network)) >> later
      else later

  -- The firewall's part of `addTenant`.
  unfoldable pub separate : Text → Text → Dict Prefix → Cmd W (Unit {0})
  separate tenant_name cidr tenants = do
    ignore (allow_forwarding_tenant t cidr)
    block_others tenant_name cidr tenants

  -- What follows in `addTenant` once the stores are read.
  unfoldable pub finish : Text → Text → Tenant → Text → NodeData → TenantIpam → Cmd W (Unit {0})
  finish namespace name tenant node_name s tim = do
    let v : TenantData = tim.tenant_store.value
    let spec : TenantSpec = tenant.spec
    sent ← publish namespace name node_name s.node_ip v.vxlan 0 spec.nodes tenant
    connect_nodes v (length sent.spec.nodes)
    c.retry_on_conflict (label_node node_name tenant) >>= λ _. pure tt
    separate tim.tenant_name v.tenant_cidr s.tenant_list
    c.record_event sent event_add

  -- What `addTenant` does on a node of the tenant.
  unfoldable pub add_on_node :
      Text → Text → Tenant → Result (List ℕ) → Text → Cmd (Machine W) (Unit {0})
  add_on_node namespace name tenant rand node_name = do
    nim ← open_node node_name
    s ← allocate_on_node tenant rand node_name nim
    tim ← open_tenant (λ _. crash) tenant.object_name
    on_outside (finish namespace name tenant node_name s.value tim)

  -- `addTenant`. The errors of the lister and of the node's name are logged: a tenant that was not
  -- found is a nil pointer, a name that was not found is empty.
  unfoldable pub add_tenant : Result (List ℕ) → Text → Cmd (Machine W) (Unit {0})
  add_tenant rand key = do
    parts ← from_result (c.split_key key)
    found ← attempt (on_outside (refresh_tenant c parts.0 parts.1))
    clientset ← on_outside (get_kube_client_set c.kube env)
    named ← attempt (on_outside (get_current_node_name c.kube env clientset))
    let node_name : Text = (elim named [ ok name ↦ name | err _ ↦ [] ])
    elim found [
      | err _ ↦ crash
      | ok tenant ↦
          if exists_node tenant.spec.nodes node_name
          then add_on_node parts.0 parts.1 tenant rand node_name
          else pure tt
    ]
