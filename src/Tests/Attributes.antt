-- ===== src/Tests/Attributes.antt =====
-- A request that fills in one of two offered attributes.
use pyadcs_connector.Prelude.{List, [], ◌∷◌, String}
use pyadcs_connector.Text.{codes}
use pyadcs_connector.Json.{Value, str, arr, obj, field, end, of_list}

abbrev attribute : String → String → Value
attribute name content = obj (
    field (codes "name") (str (codes name))
      (field (codes "content") (arr (of_list (str (codes content) ∷ []))) end))

abbrev sent : Value
sent = arr (of_list (attribute "port" "5986" ∷ attribute "other" "x" ∷ []))

-- An offered attribute has its own description, which a request does not repeat.
abbrev described : String → String → Value
described name content = obj (
    field (codes "name") (str (codes name)) (
      field (codes "content") (arr (of_list (str (codes content) ∷ [])))
        (field (codes "description") (str (codes "offered")) end)))

abbrev offered : List Value
offered = described "address" "" ∷ described "port" "5985" ∷ []
