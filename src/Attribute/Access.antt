-- ===== src/Attribute/Access.antt =====
-- utils/attribute_definition_utils.py: reading and merging the attributes of a request.
pub mod Merge
use pyadcs_connector.Text.{Text, codes}
use pyadcs_connector.Prelude.{
  List, ltb, if◌then◌else◌, Result, ◌>>=◌, traverse, Bool, false, not, [], ◌∷◌, ok, err,
  attribute_error, Option, none, some, true, type_error, ◌>>◌,
}
use pyadcs_connector.Json.{
  Value, null, str, arr, obj, end, get, get_item, set_item, get_first, truthy, len, iterate,
  is_text,
}

-- `attribute.get("name") == attribute_name`
unfoldable pub is_named : Text → Value → Result Bool
is_named attribute_name attribute = do
  name ← get attribute (codes "name") null
  ok (is_text name attribute_name)

-- `contents and len(contents) > 0`
unfoldable pub has_contents : Value → Result Bool
has_contents contents =
    let size : Result Bool = (do n ← len contents; ok (ltb 0 n)) in
    if truthy contents then size else ok false

-- The loop of `get_attribute_value`. An attribute of the name that has no content is passed over.
unfoldable pub find_value : Text → List Value → Result Value
find_value attribute_name [] = ok (str [])
find_value attribute_name (attribute ∷ attributes) =
    let rest = find_value attribute_name attributes in
    do
      named ← is_named attribute_name attribute
      if not named then rest else do
        contents ← get attribute (codes "content") (obj end)
        filled ← has_contents contents
        if not filled then rest else do first ← get_first contents; get first (codes "data") null

unfoldable pub get_attribute_value : Text → Value → Result Value
unfolding find_value
get_attribute_value attribute_name attributes = do
  each ← iterate attributes
  find_value attribute_name each

abbrev data_of : Value → Result Value
data_of value = get value (codes "data") null

-- The loop of `get_attribute_value_list`.
unfoldable pub find_values : Text → List Value → Result (List Value)
find_values attribute_name [] = ok []
find_values attribute_name (attribute ∷ attributes) =
    let rest = find_values attribute_name attributes in
    do
      named ← is_named attribute_name attribute
      if not named then rest else do
        contents ← get attribute (codes "content") (obj end)
        filled ← has_contents contents
        if not filled then rest else do values ← iterate contents; traverse data_of values

unfoldable pub get_attribute_value_list : Text → Value → Result (List Value)
unfolding find_values
get_attribute_value_list attribute_name attributes = do
  each ← iterate attributes
  find_values attribute_name each

-- The loop of `set_attribute_value`: a dictionary has no method `set`, so the attribute of the
-- name raises whatever the value.
unfoldable pub set_value : Text → Value → List Value → Result Bool
set_value attribute_name value [] = ok false
set_value attribute_name value (attribute ∷ attributes) =
    let rest = set_value attribute_name value attributes in
    do named ← is_named attribute_name attribute; if named then err attribute_error else rest

-- The loop of `get_attribute_content`.
unfoldable pub find_content : Text → List Value → Result Value
find_content attribute_name [] = ok (str [])
find_content attribute_name (attribute ∷ attributes) =
    let rest = find_content attribute_name attributes in
    do
      named ← is_named attribute_name attribute
      if named then get attribute (codes "content") (obj end) else rest

abbrev hashable : Value → Bool
hashable (arr vs) = false
hashable (obj fs) = false
hashable _ = true

-- The dictionary comprehension over `val["name"]`, as its list of entries.
unfoldable pub by_name : List Value → Result (List (Value × Value))
by_name [] = ok []
by_name (v ∷ vs) =
    let later = by_name vs in
    do
      name ← get_item v (codes "name")
      if not (hashable name) then err type_error else do rest ← later; ok ((name, v) ∷ rest)

-- Equality of keys, of which the one on the right is a text.
unfoldable pub same_key : Value → Value → Bool
same_key k (str t) = is_text k t
same_key k _ = false

-- The entry of a key: the last one that was put there.
unfoldable pub last_named : Value → List (Value × Value) → Option Value
last_named name [] = none
last_named name ((k, v) ∷ kvs) =
    let rest = last_named name kvs in
    elim rest [ some w ↦ some w | none ↦ if same_key k name then some v else none ]

abbrev put_content : Value → Value → Result (List Value) → Result (List Value)
put_content attribute corresponding rest = do
  content ← get_item corresponding (codes "content")
  attribute' ← set_item attribute (codes "content") content
  merged ← rest
  ok (attribute' ∷ merged)

abbrev merge_found : Option Value → Value → Result (List Value) → Result (List Value)
merge_found none attribute rest = rest
merge_found (some corresponding) attribute rest = put_content attribute corresponding rest

-- The loop of `merge_attributes` over the offered attributes, whose names are texts.
unfoldable pub merge_each : List (Value × Value) → List Value → Result (List Value)
merge_each request [] = ok []
merge_each request (attribute ∷ attributes) =
    let rest = merge_each request attributes in
    do
      name ← get_item attribute (codes "name")
      merge_found (last_named name request) attribute rest

unfoldable pub merge_attributes : Value → List Value → Result (List Value)
unfolding by_name merge_each
merge_attributes request_attributes original_attributes = do
  each ← iterate request_attributes
  request_attributes_by_name ← by_name each
  merge_each request_attributes_by_name original_attributes
