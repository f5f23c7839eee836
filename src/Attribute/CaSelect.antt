-- ===== src/Attribute/CaSelect.antt =====
-- utils/ca_select_method.py: the ways to choose a CA.
use pyadcs_connector.Text.{Text, codes, text_eq}
use pyadcs_connector.Prelude.{List, if◌then◌else◌, ◌≡◌, refl, [], ◌∷◌, map}
use pyadcs_connector.Json.{Value, str}
use pyadcs_connector.Attribute.Build.{dict, list}

pub data CaSelectMethod : Type 0 where
  search_method configstring : CaSelectMethod

unfoldable pub method : CaSelectMethod → Text
method search_method = codes "search"
method configstring = codes "configstring"

unfoldable pub description : CaSelectMethod → Text
description search_method = codes "Search for all available CAs"
description configstring = codes "Use the ConfigString to select existing CA"

-- An unknown method is taken for a search.
unfoldable pub from_string : Text → CaSelectMethod
from_string m =
    if text_eq m (codes "search")
    then search_method
    else if text_eq m (codes "configstring")
    then configstring
    else search_method

-- The members, in the order of their declaration.
abbrev pub members : List CaSelectMethod
members = search_method ∷ configstring ∷ []

abbrev pub method_content : CaSelectMethod → Value
method_content m =
    dict ((codes "reference", str (description m)) ∷ (codes "data", str (method m)) ∷ [])

-- The content of the attributes that offer the methods.
abbrev pub ca_select_method_content : Value
ca_select_method_content = list (map method_content members)

-- Each member is found by its own method.
pub from_string-method : (m : CaSelectMethod) → from_string (method m) ≡ m
unfolding from_string method text_eq
from_string-method search_method = refl
from_string-method configstring = refl
