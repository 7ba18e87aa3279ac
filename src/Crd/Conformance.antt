-- ===== src/Crd/Conformance.antt =====
-- The tenants that the program writes are of the form that it registers.
use tenant_cni.Base.{
  Bool, List, Text, [], bytes, false, if◌then◌else◌, text_eq, true, ◌&&◌, ◌||◌, ◌∷◌,
}
use tenant_cni.Crd.{
  Items, Json, JsonFields, JsonItems, Properties, Schema, field, item, items_of, json_array,
  json_integer, json_object, json_string, no_field, no_item, no_items, no_property, property,
  schema,
}

-- The schema of a property.
find_property : Text → Properties → Items
find_property name no_property = no_items
find_property name (property key value rest) =
    let later = find_property name rest in if text_eq name key then items_of value else later

has_field : Text → JsonFields → Bool
has_field name no_field = false
has_field name (field key _ rest) = text_eq name key || has_field name rest

has_all : List Text → JsonFields → Bool
has_all [] fields = true
has_all (name ∷ names) fields = has_field name fields && has_all names fields

-- A value of the schema's type: an array's items are of the items' schema; an object has every required
-- field, and each of its fields is a declared one, of the property's schema.
unfoldable mutual
  unfolding find_property has_field has_all

  pub conforms : Json → Schema → Bool
  conforms (json_string _) (schema kind _ _ _) = text_eq kind (bytes "string")
  conforms (json_integer _) (schema kind _ _ _) = text_eq kind (bytes "integer")
  conforms (json_array xs) (schema kind _ items _) =
      text_eq kind (bytes "array") && all_conform xs items
  conforms (json_object fields) (schema kind properties _ required) =
      text_eq kind (bytes "object") && fields_conform fields properties && has_all required fields

  all_conform : JsonItems → Items → Bool
  all_conform no_item items = true
  all_conform (item x xs) no_items = false
  all_conform (item x xs) (items_of s) = conforms x s && all_conform xs (items_of s)

  fields_conform : JsonFields → Properties → Bool
  fields_conform no_field properties = true
  fields_conform (field name value rest) properties =
      (elim (find_property name properties) [ no_items ↦ false | items_of s ↦ conforms value s ])
      && fields_conform rest properties
