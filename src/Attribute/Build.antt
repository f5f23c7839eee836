-- ===== src/Attribute/Build.antt =====
-- services/attributes/__init__.py: how an attribute is put together.
use pyadcs_connector.Text.{Text, codes}
use pyadcs_connector.Prelude.{Bool, List, [], ◌∷◌}
use pyadcs_connector.Json.{Value, Fields, bool, str, arr, obj, end, field, of_list}

-- A dictionary display; its keys are distinct where the connector writes one.
abbrev pub fields_of : List (Text × Value) → Fields
fields_of [] = end
fields_of ((k, v) ∷ kvs) = field k v (fields_of kvs)

abbrev pub dict : List (Text × Value) → Value
dict kvs = obj (fields_of kvs)

abbrev pub list : List Value → Value
list vs = arr (of_list vs)

unfoldable pub build_attribute :
    Text → Text → Text → Value → Text → Value → Value → Value → Value → Value
build_attribute name uuid attribute_type content_type description properties content callback
      constraints =
    dict (
      (codes "name", str name)
      ∷ (codes "uuid", str uuid)
      ∷ (codes "type", str attribute_type)
      ∷ (codes "contentType", content_type)
      ∷ (codes "description", str description)
      ∷ (codes "properties", properties)
      ∷ (codes "content", content)
      ∷ (codes "attributeCallback", callback)
      ∷ (codes "constraints", constraints)
      ∷ [])

-- The label, then read-only, required, list, visible and multi-select.
unfoldable pub get_data_attribute_properties : Text → Bool → Bool → Bool → Bool → Bool → Value
get_data_attribute_properties label is_read_only is_required is_list is_visible is_multi_select =
    dict (
      (codes "label", str label)
      ∷ (codes "readOnly", bool is_read_only)
      ∷ (codes "required", bool is_required)
      ∷ (codes "list", bool is_list)
      ∷ (codes "visible", bool is_visible)
      ∷ (codes "multiSelect", bool is_multi_select)
      ∷ [])

unfoldable pub get_info_attribute_properties : Text → Bool → Value → Value
get_info_attribute_properties label is_visible group =
    dict (
      (codes "label", str label) ∷ (codes "visible", bool is_visible) ∷ (codes "group", group) ∷ [])

unfoldable pub get_metadata_attribute_properties : Text → Bool → Value → Bool → Value
get_metadata_attribute_properties label is_visible group is_global = dict (
    (codes "label", str label)
    ∷ (codes "visible", bool is_visible)
    ∷ (codes "group", group)
    ∷ (codes "global", bool is_global)
    ∷ [])
