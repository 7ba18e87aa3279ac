-- ===== src/K8s.antt =====
-- pkg/k8s/kube.go. The API server is the record `Kube`: what the clientsets and the lister do.
use tenant_cni.Api.{Tenant}
use tenant_cni.Base.{
  Bool, List, Option, Text, [], bytes, environment_not_set, err, false, if◌then◌else◌, is_empty,
  node_name_not_set, none, ok, pod_unavailable, some, text_eq, true, ◌++◌, ◌||◌, ◌∷◌,
}
use tenant_cni.Base.Dict.{Dict, insert}
use tenant_cni.Crd.{ResourceDefinition}
use tenant_cni.Host.{Cmd, attempt, crash, deref, fail, pure, ◌>>=◌}

pub record NodeAddress : Type 0 where
  pub kind : Text
  pub address : Text

-- `v1.Node`
pub record KubeNode : Type 0 where
  pub name : Text
  pub pod_cidr : Text
  pub addresses : List NodeAddress
  pub labels : Option (Dict Text)

-- `v1.Pod`
pub record Pod : Type 0 where
  pub name : Text
  pub namespace : Text
  pub node_name : Text
  pub host_network : Bool
  pub annotations : Dict Text

pub record Kube (W : Type 0) : Type 0 where
  -- `InClusterConfig` and `NewForConfig`
  pub connect : Cmd W (Unit {0})
  pub get_pod : (namespace : Text) (name : Text) → Cmd W Pod
  pub list_pods : Cmd W (List Pod)
  pub delete_pod : (namespace : Text) (name : Text) → Cmd W (Unit {0})
  pub get_node : Text → Cmd W KubeNode
  pub list_nodes : Cmd W (List KubeNode)
  pub update_node : KubeNode → Cmd W (Unit {0})
  -- the lister's `Tenants(namespace).Get(name)`, and the client's `Update` and `Create`
  pub get_tenant : (namespace : Text) (name : Text) → Cmd W Tenant
  pub update_tenant : (namespace : Text) → Tenant → Cmd W (Unit {0})
  pub create_tenant : (namespace : Text) → Tenant → Cmd W (Unit {0})
  -- `BuildConfigFromFlags` with a file's path, and `InClusterConfig`
  pub build_config : Text → Cmd W (Unit {0})
  pub in_cluster_config : Cmd W (Unit {0})
  -- `NewForConfig` of the tenants' client and of the extensions' client, which get a configuration or nil,
  -- and the latter's `Create`
  pub connect_tenants : (configured : Bool) → Cmd W (Unit {0})
  pub connect_extensions : (configured : Bool) → Cmd W (Unit {0})
  pub create_definition : ResourceDefinition → Cmd W (Unit {0})
  -- the data of a config map
  pub config_map : (namespace : Text) (name : Text) → Cmd W (Dict Text)

-- `os.Getenv`, empty where a variable is not set, and `homedir.HomeDir`
pub record Environment : Type 0 where
  pub my_node_name : Text
  pub my_pod_name : Text
  pub my_pod_namespace : Text
  pub my_node_ip : Text
  pub home_dir : Text

abbrev pub tenant_node_annotation_key : Text
tenant_node_annotation_key = bytes "jovik31.dev.tenantcni"

-- `GetNodeCIDR`: the loop goes on after a match.
unfoldable pub get_node_cidr : Text → List KubeNode → Text → Text
get_node_cidr current_node_name [] found = found
get_node_cidr current_node_name (node ∷ nodes) found =
    get_node_cidr current_node_name nodes
      (if text_eq current_node_name node.name then node.pod_cidr else found)

-- The loop of `GetCurrentNodeIP` over the addresses.
unfoldable pub internal_ip : List NodeAddress → Text → Text
internal_ip [] found = found
internal_ip (a ∷ rest) found =
    internal_ip rest (if text_eq a.kind (bytes "InternalIP") then a.address else found)

-- The label that `StoreTenantAnnotationNode` writes.
unfoldable pub annotate_node : KubeNode → Text → Option KubeNode
annotate_node node tenant_name = elim node.labels [
  | none ↦ none
  | some labels ↦
      let key = tenant_node_annotation_key ++ (b'.' ∷ tenant_name) in
      some (record node { labels = some (insert key (bytes "Enabled") labels) })
]

module _ {W : Type 0} (k : Kube W) (env : Environment) where
  -- `InitKubeConfig`. `flag_value` is the value that the flag has after `flag.Parse`, for its default.
  unfoldable pub init_kube_config : (Text → Text) → Cmd W (Unit {0})
  init_kube_config flag_value =
      let default = if is_empty env.home_dir then [] else env.home_dir ++ bytes "/.kube/config" in
      attempt (k.build_config (flag_value default)) >>= λ r. elim r [
        | ok _ ↦ pure tt
        | err _ ↦ k.in_cluster_config
      ]

  -- `GetKubeClientSet`: whether there is a clientset; an error leaves a nil one.
  unfoldable pub get_kube_client_set : Cmd W Bool
  get_kube_client_set = attempt k.connect >>= λ r. elim r [ ok _ ↦ pure true | err _ ↦ pure false ]

  -- `GetCurrentNodeName`. The name that the fallback finds is checked, and the variable is returned.
  unfoldable pub get_current_node_name : Bool → Cmd W Text
  get_current_node_name clientset =
      let by_pod : Cmd W Text = attempt (k.get_pod env.my_pod_namespace env.my_pod_name) >>= λ r.
      elim r [
        | err e ↦ fail pod_unavailable
        | ok pod ↦ if is_empty pod.node_name then fail node_name_not_set else pure env.my_node_name
      ] in
      let fallback : Cmd W Text = if clientset then by_pod else crash in
      if is_empty env.my_node_name
      then if is_empty env.my_pod_name || is_empty env.my_pod_namespace
        then fail environment_not_set
        else fallback
      else pure env.my_node_name

  -- `GetCurrentNodeIP`
  unfoldable pub get_current_node_ip : Text → Cmd W Text
  get_current_node_ip current_node_name =
      let of_node : Cmd W Text =
        k.get_node current_node_name >>= λ node. pure (internal_ip node.addresses []) in
      if is_empty env.my_node_ip then of_node else pure env.my_node_ip

  -- `GetNodes`, `GetCurrentNode` and `GetConfigMap`, which log their errors.
  unfoldable pub get_nodes : Cmd W (List KubeNode)
  get_nodes = k.list_nodes

  unfoldable pub get_current_node : Text → Cmd W KubeNode
  get_current_node current_node_name = k.get_node current_node_name

  unfoldable pub get_config_map : Text → Text → Cmd W (Dict Text)
  get_config_map namespace name = k.config_map namespace name

  -- `StoreTenantAnnotationNode`. Labels that are nil panic where they are written.
  unfoldable pub store_tenant_annotation_node : KubeNode → Text → Cmd W (Unit {0})
  store_tenant_annotation_node node tenant_name =
      deref (annotate_node node tenant_name) >>= k.update_node
