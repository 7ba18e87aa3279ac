-- ===== src/System/Start.antt =====
-- The daemon's start on a node where a tenant's file serves its pods: it does so afterwards, however the
-- start ends.
use tenant_cni.Base.{
  Bool, List, Option, Result, Text, [], err, false, if◌then◌else◌, none, ok, some, true, ℕ,
}
use tenant_cni.Daemon.{configure, init_node, register_default_tenant, register_tenant_crd, start}
use tenant_cni.Host.{Cmd, attempt, crash, deref, ◌>>=◌}
use tenant_cni.K8s.{
  Environment, Kube, KubeNode, get_current_node_ip, get_current_node_name, get_kube_client_set,
  get_node_cidr, get_nodes, init_kube_config,
}
use tenant_cni.Machine.{Machine, on_outside}
use tenant_cni.Net.Addr.{Ipv6Text}
use tenant_cni.System.Served.{Watch}
use tenant_cni.System.Serves.{
  KeepsTenants-Serves, Serves, Serves-bind, asked-Serves, attempt-Serves, if_Serves,
  on_outside-Serves, told-Serves,
}
use tenant_cni.System.Stores.{init_node-KeepsTenants}

module _ {W : Type 0} (v6 : Ipv6Text) (watch : Watch) (name : Text) (k : Kube W) (env : Environment)
    (subnets : Text → ℕ → List Text) (unmarshal : Text → Result (Option Text))
    (run : List Text → Cmd W (Unit {0})) where
  -- The last part: the client for the tenants, the default tenant and the config map.
  abbrev configure_cluster : List KubeNode → Result (Unit {0}) → Cmd (Machine W) (Unit {0})
  configure_cluster nodes connected =
      deref (elim connected [ ok _ ↦ some tt | err _ ↦ none ]) >>= λ _.
      on_outside (register_default_tenant k env subnets nodes) >>= λ _.
      on_outside (configure k env subnets unmarshal run)

  configure_cluster-Serves :
      (nodes : List KubeNode) (connected : Result (Unit {0}))
      → Serves v6 watch name (configure_cluster nodes connected)
  configure_cluster-Serves nodes (err e) = λ m g. g
  configure_cluster-Serves nodes (ok tt) =
      told-Serves v6 watch name (register_default_tenant k env subnets nodes)
        (λ _. on_outside (configure k env subnets unmarshal run))
        (λ _. on_outside-Serves v6 watch name (configure k env subnets unmarshal run))

  -- The part on the node's own store.
  abbrev set_up_node : Bool → Text → List KubeNode → Result Text → Cmd (Machine W) (Unit {0})
  set_up_node configured node_name nodes found =
      let node_ip : Text = (elim found [ ok ip ↦ ip | err _ ↦ [] ]) in
      init_node k env subnets node_name node_ip (get_node_cidr node_name nodes []) >>= λ _.
      attempt (on_outside (k.connect_tenants configured)) >>= configure_cluster nodes

  set_up_node-Serves :
      (configured : Bool) (node_name : Text) (nodes : List KubeNode) (found : Result Text)
      → Serves v6 watch name (set_up_node configured node_name nodes found)
  set_up_node-Serves configured node_name nodes found =
      let node_ip : Text = (elim found [ ok ip ↦ ip | err _ ↦ [] ]) in
      let node_cidr = get_node_cidr node_name nodes [] in
      let set = init_node k env subnets node_name node_ip node_cidr in
      Serves-bind v6 watch name set
        (λ _. attempt (on_outside (k.connect_tenants configured)) >>= configure_cluster nodes)
        (KeepsTenants-Serves v6 watch name set
          (init_node-KeepsTenants k env subnets node_name node_ip node_cidr))
        (λ _.
          asked-Serves v6 watch name (k.connect_tenants configured) (configure_cluster nodes)
            (configure_cluster-Serves nodes))

  abbrev with_nodes : Bool → Text → Result (List KubeNode) → Cmd (Machine W) (Unit {0})
  with_nodes configured node_name listed =
      deref (elim listed [ ok nodes ↦ some nodes | err _ ↦ none ]) >>= λ nodes.
      attempt (on_outside (get_current_node_ip k env node_name))
      >>= set_up_node configured node_name nodes

  with_nodes-Serves :
      (configured : Bool) (node_name : Text) (listed : Result (List KubeNode))
      → Serves v6 watch name (with_nodes configured node_name listed)
  with_nodes-Serves configured node_name (err e) = λ m g. g
  with_nodes-Serves configured node_name (ok nodes) =
      asked-Serves v6 watch name (get_current_node_ip k env node_name)
        (set_up_node configured node_name nodes) (set_up_node-Serves configured node_name nodes)

  abbrev with_name : Bool → Bool → Result Text → Cmd (Machine W) (Unit {0})
  with_name configured clientset named =
      let node_name : Text = (elim named [ ok name ↦ name | err _ ↦ [] ]) in
      attempt (if clientset then on_outside (get_nodes k env) else crash)
      >>= with_nodes configured node_name

  with_name-Serves :
      (configured clientset : Bool) (named : Result Text)
      → Serves v6 watch name (with_name configured clientset named)
  with_name-Serves configured clientset named =
      let node_name : Text = (elim named [ ok name ↦ name | err _ ↦ [] ]) in
      let list : Cmd (Machine W) (List KubeNode) =
        if clientset then on_outside (get_nodes k env) else crash in
      Serves-bind v6 watch name (attempt list) (with_nodes configured node_name)
        (attempt-Serves v6 watch name list (
          if_Serves v6 watch name clientset (on_outside (get_nodes k env)) crash
            (on_outside-Serves v6 watch name (get_nodes k env)) (λ m g. g)))
        (with_nodes-Serves configured node_name)

  abbrev with_config : Result (Unit {0}) → Cmd (Machine W) (Unit {0})
  with_config made =
      let configured : Bool = (elim made [ ok _ ↦ true | err _ ↦ false ]) in
      on_outside (register_tenant_crd k env subnets configured) >>= λ _.
      on_outside (get_kube_client_set k env) >>= λ clientset.
      attempt (on_outside (get_current_node_name k env clientset))
      >>= with_name configured clientset

  with_config-Serves : (made : Result (Unit {0})) → Serves v6 watch name (with_config made)
  with_config-Serves made =
      let configured : Bool = (elim made [ ok _ ↦ true | err _ ↦ false ]) in
      let named : Bool → Cmd (Machine W) (Unit {0}) = λ clientset.
        attempt (on_outside (get_current_node_name k env clientset))
        >>= with_name configured clientset in
      told-Serves v6 watch name (register_tenant_crd k env subnets configured)
        (λ _. on_outside (get_kube_client_set k env) >>= named)
        (λ _. told-Serves v6 watch name (get_kube_client_set k env) named (λ clientset.
          asked-Serves v6 watch name (get_current_node_name k env clientset)
            (with_name configured clientset) (with_name-Serves configured clientset)))

  pub start-Serves :
      (flag_value : Text → Text)
      → Serves v6 watch name (start k env subnets unmarshal run flag_value)
  unfolding start
  start-Serves flag_value =
      asked-Serves v6 watch name (init_kube_config k env flag_value) with_config with_config-Serves
