-- ===== src/Routes/Segments.antt =====
-- Routes as lists of segments, and the methods of requests.
use pyadcs_connector.Prelude.{
  List, [], ◌∷◌, map, Bool, true, false, not, ◌&&◌, is_empty, if◌then◌else◌,
}
use pyadcs_connector.Text.{Text, text_eq, split, starts_with}

pub data Method : Type 0 where
  get_method post_method delete_method : Method

unfoldable pub same_method : Method → Method → Bool
same_method get_method get_method = true
same_method post_method post_method = true
same_method delete_method delete_method = true
same_method _ _ = false

-- A part of a route between two slashes.
pub data Segment : Type 0 where
  literal : Text → Segment
  variable : Segment

-- `opening` begins a variable: `<` in a route of Django's, and `{` in an advertised one.
abbrev pub segment : Text → Text → Segment
segment opening part = if starts_with opening part then variable else literal part

unfoldable pub segments : Text → Text → List Segment
segments opening route = map (segment opening) (split b'/' route)

-- A path in its parts, none of which has a slash: a variable stands for any part but the empty one.
unfoldable pub matches : List Segment → List Text → Bool
matches [] [] = true
matches (literal l ∷ ps) (s ∷ ss) = text_eq l s && matches ps ss
matches (variable ∷ ps) (s ∷ ss) = not (is_empty s) && matches ps ss
matches _ _ = false
