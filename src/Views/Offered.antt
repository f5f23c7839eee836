-- ===== src/Views/Offered.antt =====
-- What the callbacks offer for an RA profile is what the certificate operations read.
use pyadcs_connector.Prelude.{
  List, [], ◌∷◌, ok, ◌≡◌, refl, map, Option, none, some, if◌then◌else◌, Bool-cases, inl, inr, ap,
}
use pyadcs_connector.Text.{Text, codes, text_eq}
use pyadcs_connector.Json.{
  Value, null, items, of_list, str, get, get_item, get_first, is_text, lookup, truthy, len, iterate,
}
use pyadcs_connector.Dump.{AuthorityData, TemplateData}
use pyadcs_connector.Dump.Dicts.{to_dict, from_dict, authority_to_dict, authority_from_dict}
use pyadcs_connector.Attribute.Build.{dict, list}
use pyadcs_connector.Attribute.Access.{get_attribute_value, find_value, is_named, has_contents}
use pyadcs_connector.Attribute.CaSelect.{search_method, method, method_content}
use pyadcs_connector.Attribute.Raprofile.{
  template_content, raprofile_select_ca_method_attribute_name, raprofile_ca_name_attribute_name,
  raprofile_template_name_attribute_name,
}
use pyadcs_connector.Authority.{authority_content}
use pyadcs_connector.Db.Rows.{some-injective}
use pyadcs_connector.Certificates.Requests.{raprofile_value, get_ca_from_attributes, template_of}

-- An attribute of a request, with one of the contents that were offered for it.
abbrev pub chosen : Text → Value → Value
chosen name content = dict ((codes "name", str name) ∷ (codes "content", list (content ∷ [])) ∷ [])

abbrev chosen_of : Text × Value → Value
chosen_of (name, content) = chosen name content

-- The attributes of a request, by their names.
abbrev pub attributes_of : List (Text × Value) → List Value
attributes_of choices = map chosen_of choices

-- The content of the first choice of a name.
abbrev pub choice : Text → List (Text × Value) → Option Value
choice name [] = none
choice name ((n, content) ∷ choices) = if text_eq n name then some content else choice name choices

-- A choice among others is read, whatever stands before and behind it.
find_value-choice :
    (name : Text) (choices : List (Text × Value)) (content : Value)
    → choice name choices ≡ some content
    → find_value name (attributes_of choices) ≡ get content (codes "data") null
unfolding find_value is_named has_contents get get_first is_text lookup truthy len text_eq
find_value-choice name [] content h = absurd (cc h)
find_value-choice name ((n, c) ∷ choices) content h = elim (Bool-cases (text_eq n name)) [
  | inl e ↦
      let same : c ≡ content = some-injective (rw e at h) in
      rw e (ap (λ v. get v (codes "data") null) same)
  | inr e ↦ rw e (find_value-choice name choices content (rw e at h))
]

items-of_list : (vs : List Value) → items (of_list vs) ≡ vs
items-of_list [] = refl
items-of_list (v ∷ vs) = ap (◌∷◌ v) (items-of_list vs)

value-choice :
    (request_dto : Value) (choices : List (Text × Value)) (name : Text) (content : Value)
    → get_item request_dto (codes "raProfileAttributes") ≡ ok (list (attributes_of choices))
    → choice name choices ≡ some content
    → raprofile_value request_dto name ≡ get content (codes "data") null
unfolding get_attribute_value iterate
value-choice request_dto choices name content has h =
    rw (has, items-of_list (attributes_of choices)) (find_value-choice name choices content h)

-- A request whose RA profile chose the search, with the contents that the callbacks offer for a CA
-- and for a template, is read as that CA and that template. Each attribute has a name and one
-- content; of attributes of one name the first counts, their order is free, and there may be
-- others among them and anything else in the request.
pub searched-reads :
    (ca : AuthorityData) (template : TemplateData) (request_dto : Value)
    (choices : List (Text × Value))
    → get_item request_dto (codes "raProfileAttributes") ≡ ok (list (attributes_of choices))
    → choice raprofile_select_ca_method_attribute_name choices ≡ some (method_content search_method)
    → choice raprofile_ca_name_attribute_name choices ≡ some (authority_content ca)
    → choice raprofile_template_name_attribute_name choices ≡ some (template_content template)
    → (get_ca_from_attributes request_dto ≡ ok ca) × (template_of request_dto ≡ ok template)
unfolding get_ca_from_attributes template_of get lookup is_text text_eq method to_dict from_dict
    authority_to_dict authority_from_dict get_item
searched-reads ca template request_dto choices has by_search by_ca by_template = (
  rw
      (
        value-choice request_dto choices _ _ has by_search,
        value-choice request_dto choices _ _ has by_ca,
      )
      refl,
  rw (value-choice request_dto choices _ _ has by_template) refl,
)
