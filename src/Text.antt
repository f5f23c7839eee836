-- ===== src/Text.antt =====
-- Python's `str`, as the list of its code points, with the methods that the connector calls.
pub mod Laws
pub mod Order
pub mod Lines
pub mod Utf8
pub mod SplitLines
use Prim.Native.Char.{code}
use pyadcs_connector.Prelude.{
  ℕ, zero, suc, ◌-◌, Bool, true, false, ◌&&◌, ◌||◌, List, [], ◌∷◌, ◌++◌, Option, none, some, String,
  ltb, leb, ◌==◌, if◌then◌else◌, length, is_empty,
}

abbrev pub Text : Type 0
Text = List ℕ

-- A text literal.
abbrev pub codes : String → Text
codes String.[] = []
codes (String.◌∷◌ c s) = code c ∷ codes s

-- `a == b`
unfoldable pub text_eq : Text → Text → Bool
text_eq [] [] = true
text_eq (x ∷ a) (y ∷ b) = x == y && text_eq a b
text_eq _ _ = false

-- `a < b`: lexicographic by code points
unfoldable pub text_lt : Text → Text → Bool
text_lt a [] = false
text_lt [] (y ∷ b) = true
text_lt (x ∷ a) (y ∷ b) = ltb x y || (x == y && text_lt a b)

-- `str.isspace` of one character
unfoldable pub is_space : ℕ → Bool
is_space c =
    (leb 9 c && leb c 13)
    || (leb 28 c && leb c 32)
    || c == 0x85
    || c == 0xA0
    || c == 0x1680
    || (leb 0x2000 c && leb c 0x200A)
    || c == 0x2028
    || c == 0x2029
    || c == 0x202F
    || c == 0x205F
    || c == 0x3000

unfoldable pub lstrip : Text → Text
lstrip [] = []
lstrip (c ∷ cs) = let rest = lstrip cs in if is_space c then rest else c ∷ cs

unfoldable pub rstrip : Text → Text
rstrip [] = []
rstrip (c ∷ cs) = let rest = rstrip cs in if is_space c && is_empty rest then [] else c ∷ rest

-- `s.strip()`
unfoldable pub strip : Text → Text
unfolding lstrip rstrip
strip s = rstrip (lstrip s)

-- `s.startswith(prefix)`, prefix first
unfoldable pub starts_with : Text → Text → Bool
starts_with [] s = true
starts_with (p ∷ ps) [] = false
starts_with (p ∷ ps) (c ∷ cs) = p == c && starts_with ps cs

abbrev pub cons_head : ℕ → List Text → List Text
cons_head c [] = (c ∷ []) ∷ []
cons_head c (l ∷ ls) = (c ∷ l) ∷ ls

-- `s.split(sep)` for a separator of one character
unfoldable pub split : ℕ → Text → List Text
split sep [] = [] ∷ []
split sep (c ∷ cs) = let rest = split sep cs in if c == sep then [] ∷ rest else cons_head c rest

abbrev pub cons_first : ℕ → Option (Text × Text) → Option (Text × Text)
cons_first c none = none
cons_first c (some (a, b)) = some (c ∷ a, b)

-- `s.split(sep, 1)`: the two parts, or `none` where there is one part only
unfoldable pub split_once : ℕ → Text → Option (Text × Text)
split_once sep [] = none
split_once sep (c ∷ cs) =
    let rest = split_once sep cs in if c == sep then some ([], cs) else cons_first c rest

-- The characters that are left of `s.replace(old, "")`, of which `skip` are still to be dropped.
unfoldable pub remove_from : Text → ℕ → Text → Text
unfolding starts_with
remove_from old skip [] = []
remove_from old (suc skip) (c ∷ cs) = remove_from old skip cs
remove_from old zero (c ∷ cs) =
    let dropped = remove_from old (length old - 1) cs in
    let kept = remove_from old 0 cs in if starts_with old (c ∷ cs) then dropped else c ∷ kept

-- `s.replace(old, "")` for a text `old` that is not empty
unfoldable pub remove : Text → Text → Text
unfolding remove_from
remove old s = remove_from old 0 s

-- `sep.join(parts)`
unfoldable pub join : Text → List Text → Text
join sep [] = []
join sep (p ∷ []) = p
join sep (p ∷ q ∷ ps) = p ++ (sep ++ join sep (q ∷ ps))

-- `"".join(parts)`
unfoldable pub concat : List Text → Text
concat [] = []
concat (p ∷ ps) = p ++ concat ps
