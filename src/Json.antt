-- ===== src/Json.antt =====
-- The values that `json.loads` gives, with the operations of Python's dynamic types on them that
-- the connector uses. Object keys are texts; fractional numbers are left out.
use pyadcs_connector.Prelude.{
  ℕ, Bool, true, false, not, List, [], ◌∷◌, Option, none, some, Result, ok, err, attribute_error,
  key_error, index_error, type_error, length, is_empty, if◌then◌else◌, ℤ, is_zero,
}
use pyadcs_connector.Text.{Text, text_eq}

mutual
  pub data Value : Type 0 where
    null : Value
    bool : Bool → Value
    int : ℤ → Value
    str : Text → Value
    arr : Items → Value
    obj : Fields → Value

  pub data Items : Type 0 where
    nil : Items
    cons : Value → Items → Items

  pub data Fields : Type 0 where
    end : Fields
    field : Text → Value → Fields → Fields

abbrev pub items : Items → List Value
items nil = []
items (cons v vs) = v ∷ items vs

abbrev pub of_list : List Value → Items
of_list [] = nil
of_list (v ∷ vs) = cons v (of_list vs)

abbrev pub keys : Fields → List Value
keys end = []
keys (field k v fs) = str k ∷ keys fs

unfoldable pub lookup : Text → Fields → Option Value
lookup k end = none
lookup k (field j v fs) = if text_eq j k then some v else lookup k fs

-- `d[key] = value` on a dictionary: a key that is there keeps its place.
unfoldable pub store : Text → Value → Fields → Fields
store k v end = field k v end
store k v (field j w fs) = if text_eq j k then field k v fs else field j w (store k v fs)

abbrev or_default : Value → Option Value → Value
or_default d none = d
or_default d (some v) = v

abbrev pub or_key_error : Option Value → Result Value
or_key_error none = err key_error
or_key_error (some v) = ok v

-- `value.get(key, default)`
unfoldable pub get : Value → Text → Value → Result Value
get (obj fs) k d = ok (or_default d (lookup k fs))
get _ k d = err attribute_error

-- `value[key]` for a text `key`
unfoldable pub get_item : Value → Text → Result Value
get_item (obj fs) k = or_key_error (lookup k fs)
get_item _ k = err type_error

-- `value[key] = new` for a text `key`
unfoldable pub set_item : Value → Text → Value → Result Value
set_item (obj fs) k v = ok (obj (store k v fs))
set_item _ k v = err type_error

-- `value[0]`
unfoldable pub get_first : Value → Result Value
get_first (arr nil) = err index_error
get_first (arr (cons v vs)) = ok v
get_first (str []) = err index_error
get_first (str (c ∷ cs)) = ok (str (c ∷ []))
get_first (obj fs) = err key_error
get_first _ = err type_error

-- `bool(value)`
unfoldable pub truthy : Value → Bool
truthy null = false
truthy (bool b) = b
truthy (int n) = not (is_zero n)
truthy (str s) = not (is_empty s)
truthy (arr nil) = false
truthy (arr (cons v vs)) = true
truthy (obj end) = false
truthy (obj (field k v fs)) = true

-- `len(value)`
unfoldable pub len : Value → Result ℕ
len (str s) = ok (length s)
len (arr vs) = ok (length (items vs))
len (obj fs) = ok (length (keys fs))
len _ = err type_error

abbrev characters : Text → List Value
characters [] = []
characters (c ∷ cs) = str (c ∷ []) ∷ characters cs

-- `for x in value`
unfoldable pub iterate : Value → Result (List Value)
iterate (arr vs) = ok (items vs)
iterate (obj fs) = ok (keys fs)
iterate (str s) = ok (characters s)
iterate _ = err type_error

-- `value == text`
unfoldable pub is_text : Value → Text → Bool
is_text (str s) t = text_eq s t
is_text _ t = false
