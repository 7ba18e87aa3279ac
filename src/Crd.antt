-- ===== src/Crd.antt =====
-- The custom resource's definition of pkg/crd/register.go, and a tenant's JSON form by the tags of
-- pkg/apis/jovik31.dev/v1alpha1/types.go.
pub mod Conformance
use tenant_cni.Api.{Node, Tenant, TenantSpec}
use tenant_cni.Base.{Bool, List, Text, [], bytes, if◌then◌else◌, is_empty, true, ◌++◌, ◌∷◌}
use tenant_cni.Net.Decimal.{ℤ}

-- `apixv1.JSONSchemaProps`, with the fields that the program sets. A list of the properties stands for
-- the map.
mutual
  pub data Schema : Type 0 where
    schema : (kind : Text) (properties : Properties) (items : Items) (required : List Text) → Schema

  pub data Properties : Type 0 where
    no_property : Properties
    property : (name : Text) (value : Schema) (rest : Properties) → Properties

  -- A schema for the items or none.
  pub data Items : Type 0 where
    no_items : Items
    items_of : Schema → Items

-- `apixv1.CustomResourceDefinition`, with the fields that the program sets.
pub record ResourceDefinition : Type 0 where
  pub name : Text
  pub scope : Text
  pub group : Text
  pub kind : Text
  pub singular : Text
  pub plural : Text
  pub short_names : List Text
  pub version : Text
  pub served : Bool
  pub storage : Bool
  pub open_api_schema : Schema

abbrev pub api_group : Text
api_group = bytes "jovik31.dev"

abbrev pub api_version : Text
api_version = bytes "v1alpha1"

-- A schema of a scalar type.
abbrev pub scalar : Text → Schema
scalar kind = schema kind no_property no_items []

abbrev pub node_schema : Schema
node_schema =
    schema (bytes "object")
      (property (bytes "name") (scalar (bytes "string")) (
        property (bytes "vtepMac") (scalar (bytes "string")) (
          property (bytes "vtepIp") (scalar (bytes "string"))
            (property (bytes "nodeIP") (scalar (bytes "string")) no_property))))
      no_items []

abbrev pub spec_schema : Schema
spec_schema =
    schema (bytes "object")
      (property (bytes "name") (scalar (bytes "string")) (
        property (bytes "vni") (scalar (bytes "integer")) (
          property (bytes "prefix") (scalar (bytes "integer")) (
            property (bytes "nodes") (schema (bytes "array") no_property (items_of node_schema) [])
              no_property))))
      no_items (bytes "name" ∷ bytes "vni" ∷ bytes "prefix" ∷ bytes "nodes" ∷ [])

abbrev pub tenant_schema : Schema
tenant_schema =
    schema (bytes "object") (property (bytes "spec") spec_schema no_property) no_items
      (bytes "spec" ∷ [])

-- The object that `RegisterTenantCRD` sends.
abbrev pub tenant_crd : ResourceDefinition
tenant_crd = record {
  name = bytes "tenants." ++ api_group;
  scope = bytes "Namespaced";
  group = api_group;
  kind = bytes "Tenant";
  singular = bytes "tenant";
  plural = bytes "tenants";
  short_names = bytes "tnt" ∷ [];
  version = api_version;
  served = true;
  storage = true;
  open_api_schema = tenant_schema;
}

-- A JSON value of the kinds that a tenant has.
mutual
  pub data Json : Type 0 where
    json_string : Text → Json
    json_integer : ℤ → Json
    json_array : JsonItems → Json
    json_object : JsonFields → Json

  pub data JsonItems : Type 0 where
    no_item : JsonItems
    item : Json → JsonItems → JsonItems

  pub data JsonFields : Type 0 where
    no_field : JsonFields
    field : Text → Json → JsonFields → JsonFields

-- A field with the tag `omitempty`, in front of the others.
unfoldable pub text_field : Text → Text → JsonFields → JsonFields
text_field name value rest = if is_empty value then rest else field name (json_string value) rest

-- `Node` by its tags.
unfoldable pub node_json : Node → Json
unfolding text_field
node_json n = json_object (
    field (bytes "name") (json_string n.name) (
      text_field (bytes "vtepMac") n.vtep_mac
        (text_field (bytes "vtepIp") n.vtep_ip (text_field (bytes "nodeIP") n.node_ip no_field))))

unfoldable pub nodes_json : List Node → JsonItems
nodes_json [] = no_item
nodes_json (n ∷ ns) = item (node_json n) (nodes_json ns)

-- `TenantSpec` by its tags. A list of nodes is an array: the program makes no nil slice of them.
unfoldable pub spec_json : TenantSpec → Json
spec_json s = json_object (
    field (bytes "name") (json_string s.name) (
      field (bytes "vni") (json_integer s.vni) (
        field (bytes "prefix") (json_integer s.subnet_prefix)
          (field (bytes "nodes") (json_array (nodes_json s.nodes)) no_field))))

-- `Tenant` by its tags, less the metadata, which no schema of the program describes.
unfoldable pub tenant_json : Tenant → Json
unfolding spec_json
tenant_json t = json_object (field (bytes "spec") (spec_json t.spec) no_field)
