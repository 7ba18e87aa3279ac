-- ===== src/Controller/Membership.antt =====
-- `existsNode` and `GetCurrentNodeName`: whether this node is part of a tenant.
use tenant_cni.Api.{Node}
use tenant_cni.Base.{Bool, List, Text, [], arith, ok, returns, sym, text_dec, true, ◌↔◌, ◌∷◌, ◌≡◌}
use tenant_cni.Controller.Events.{exists_node}
use tenant_cni.K8s.{Environment, Kube, get_current_node_name}

-- `existsNode` holds exactly where one of the tenant's nodes has the name.
pub data HasNode (node_name : Text) : List Node → Type 0 where
  at_front :
      (node : Node) (nodes : List Node) → node.name ≡ node_name → HasNode node_name (node ∷ nodes)
  behind :
      (node : Node) (nodes : List Node) → HasNode node_name nodes → HasNode node_name (node ∷ nodes)

HasNode-of_exists :
    (node_name : Text) (nodes : List Node)
    → exists_node nodes node_name ≡ true
    → HasNode node_name nodes
unfolding exists_node
HasNode-of_exists node_name [] h = absurd (ground (arith, h))
HasNode-of_exists node_name (node ∷ nodes) h = elim (text_dec node_name node.name) [
  | yes same ↦ at_front node nodes (sym same)
  | no other ↦ behind node nodes (HasNode-of_exists node_name nodes (ground (arith, other, h)))
]

exists_of_HasNode :
    (node_name : Text) (nodes : List Node)
    → HasNode node_name nodes
    → exists_node nodes node_name ≡ true
unfolding exists_node
exists_of_HasNode node_name [] h = elim h [ ]
exists_of_HasNode node_name (node ∷ nodes) (at_front _ _ e) = ground (arith, e)
exists_of_HasNode node_name (node ∷ nodes) (behind _ _ h) =
    ground (arith, exists_of_HasNode node_name nodes h)

-- `existsNode` answers true exactly where one of the nodes has the name.
pub exists_node_iff :
    (node_name : Text) (nodes : List Node)
    → (exists_node nodes node_name ≡ true) ↔ HasNode node_name nodes
exists_node_iff node_name nodes =
    (HasNode-of_exists node_name nodes, exists_of_HasNode node_name nodes)

-- A name that `GetCurrentNodeName` returns without an error is the variable MY_NODE_NAME, with a
-- clientset or without, also where that variable is empty and the pod was asked.
pub get_current_node_name_variable :
    {W : Type 0} (k : Kube W) (env : Environment) (clientset : Bool) (w : W) (name : Text)
    → (get_current_node_name k env clientset w).0 ≡ returns (ok name)
    → name ≡ env.my_node_name
unfolding get_current_node_name
get_current_node_name_variable k env clientset w name h = ground (arith, h)
