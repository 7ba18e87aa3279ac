-- ===== src/Daemon.antt =====
-- cmd/tenantcnid/main.go up to the start of the controller, and pkg/crd/register.go. `log.Fatalf` ends the
-- process: it is a panic here.
pub mod Restart
pub mod Main
use tenant_cni.Api.{Node, Tenant}
use tenant_cni.Base.{
  Bool, List, Option, Result, Text, [], already_exists, bytes, err, false, if◌then◌else◌, none, ok,
  panics, returns, some, true, ℕ, ◌∷◌,
}
use tenant_cni.Base.Dict.{Dict, lookup}
use tenant_cni.Controller.Events.{default_tenant}
use tenant_cni.Crd.{tenant_crd}
use tenant_cni.Host.{Cmd, attempt, crash, deref, ignore, pure, ◌>>=◌, ◌>>◌}
use tenant_cni.Ipam.Address.Laws.{with_ip}
use tenant_cni.Ipam.NodeStore.{
  NodeStore, add_available_tenant_list, add_node_cidr, add_node_ip, default_store_dir,
  new_node_store,
}
use tenant_cni.Ipam.Tenant.{list_subnets}
use tenant_cni.Ipam.Tenant.Subnets.{subnets}
use tenant_cni.K8s.{
  Environment, Kube, KubeNode, get_config_map, get_current_node_ip, get_current_node_name,
  get_kube_client_set, get_node_cidr, get_nodes, init_kube_config,
}
use tenant_cni.Machine.{Machine, on_outside, put, save_node}
use tenant_cni.Net.Decimal.{pos}
use tenant_cni.Routing.Rules.{enable_ip_forwarding}

-- Every node of the cluster, by its name alone.
unfoldable pub nodes_of : List KubeNode → List Node
nodes_of [] = []
nodes_of (node ∷ nodes) =
    record { name = node.name; vtep_mac = []; vtep_ip = []; node_ip = [] } ∷ nodes_of nodes

abbrev pub default_tenant_of : List KubeNode → Tenant
default_tenant_of nodes = record {
  object_name = default_tenant;
  spec = record {
    name = default_tenant;
    vni = pos 1;
    subnet_prefix = pos 24;
    nodes = nodes_of nodes;
  };
}

-- The node store of the daemon's start: it is made and not loaded, and written three times.
unfoldable pub init_store : (Text → ℕ → List Text) → Text → Text → NodeStore → NodeStore
init_store subnets node_ip node_cidr s =
    let (_, with_ip) = add_node_ip node_ip s in
    let (_, with_cidr) = add_node_cidr node_cidr with_ip in
    let (_, complete) = add_available_tenant_list (list_subnets subnets node_cidr 24) with_cidr in
    complete

module _ {W : Type 0} (k : Kube W) (env : Environment) (subnets : Text → ℕ → List Text) where
  -- `RegisterTenantCRD`. A definition that is there already is no error.
  unfoldable pub register_tenant_crd : Bool → Cmd W (Unit {0})
  register_tenant_crd configured = attempt (k.connect_extensions configured) >>= λ connected.
      elim connected [
        | err _ ↦ crash
        | ok _ ↦ attempt (k.create_definition tenant_crd) >>= λ r. elim r [
          | ok _ ↦ pure tt
          | err already_exists ↦ pure tt
          | err _ ↦ crash
        ]
      ]

  -- `RegisterDefaultTenant`
  unfoldable pub register_default_tenant : List KubeNode → Cmd W (Unit {0})
  register_default_tenant nodes =
      attempt (k.create_tenant (bytes "default") (default_tenant_of nodes)) >>= λ r. elim r [
        | ok _ ↦ pure tt
        | err already_exists ↦ pure tt
        | err _ ↦ crash
      ]

  -- A store that cannot be made is a nil pointer.
  unfoldable pub init_node : Text → Text → Text → Cmd (Machine W) (Unit {0})
  init_node node_name node_ip node_cidr m =
      let (made, d) = new_node_store default_store_dir node_name (m.node_disks node_name) in
      elim made [
        | err e ↦ (panics, record m { node_disks = put node_name d m.node_disks })
        | ok s ↦ (returns (ok tt), save_node (init_store subnets node_ip node_cidr s) node_name m)
      ]

-- What `main` does with the config map. `unmarshal` is `json.Unmarshal` into a pointer: an error leaves the
-- empty value that is there, and `null` makes the pointer nil, which is then read.
unfoldable pub read_pod_cidr : (Text → Result (Option Text)) → Dict Text → Option Text
read_pod_cidr unmarshal config =
    let text : Text = elim (lookup (bytes "net-conf.json") config) [ some s ↦ s | none ↦ [] ] in
    elim (unmarshal text) [ err _ ↦ some [] | ok cidr ↦ cidr ]

module _ {W : Type 0} (k : Kube W) (env : Environment) (subnets : Text → ℕ → List Text)
    (unmarshal : Text → Result (Option Text)) (run : List Text → Cmd W (Unit {0})) where
  -- The part of `main` behind the default tenant: the config map, whose range of addresses is only
  -- logged, and the forwarding. A config map that could not be had is a nil pointer.
  unfoldable pub configure : Cmd W (Unit {0})
  configure = do
    found ← attempt (get_config_map k env (bytes "default") (bytes "tenantcni-config"))
    config ← deref (elim found [ ok config ↦ some config | err _ ↦ none ])
    deref (read_pod_cidr unmarshal config) >>= λ _. ignore (enable_ip_forwarding run)

  -- `main` up to the start of the controller. The errors are logged; a list of nodes, a clientset or a
  -- tenants' client that could not be had is a nil pointer.
  unfoldable pub start : (Text → Text) → Cmd (Machine W) (Unit {0})
  start flag_value = do
    made ← attempt (on_outside (init_kube_config k env flag_value))
    let configured : Bool = (elim made [ ok _ ↦ true | err _ ↦ false ])
    on_outside (register_tenant_crd k env subnets configured)
    clientset ← on_outside (get_kube_client_set k env)
    named ← attempt (on_outside (get_current_node_name k env clientset))
    let node_name : Text = (elim named [ ok name ↦ name | err _ ↦ [] ])
    listed ← attempt (if clientset then on_outside (get_nodes k env) else crash)
    nodes ← deref (elim listed [ ok nodes ↦ some nodes | err _ ↦ none ])
    found ← attempt (on_outside (get_current_node_ip k env node_name))
    let node_ip : Text = (elim found [ ok ip ↦ ip | err _ ↦ [] ])
    init_node k env subnets node_name node_ip (get_node_cidr node_name nodes [])
    connected ← attempt (on_outside (k.connect_tenants configured))
    deref (elim connected [ ok _ ↦ some tt | err _ ↦ none ])
    on_outside (register_default_tenant k env subnets nodes)
    on_outside configure
