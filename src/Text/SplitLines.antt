-- ===== src/Text/SplitLines.antt =====
-- `str.splitlines`, and what the joined lines are.
use pyadcs_connector.Prelude.{
  ℕ, List, [], ◌∷◌, Bool, true, not, ◌&&◌, ◌==◌, select, if◌then◌else◌, ◌≡◌, refl, arith,
  Bool-cases, inl, inr, any, ap, ◌∙◌,
}
use pyadcs_connector.Text.{Text, cons_head, concat}

-- The characters at which Python ends a line.
abbrev pub line_breaks : List ℕ
line_breaks = 10 ∷ 11 ∷ 12 ∷ 13 ∷ 28 ∷ 29 ∷ 30 ∷ 133 ∷ 8232 ∷ 8233 ∷ []

unfoldable pub is_break : ℕ → Bool
is_break c = any (λ b. c == b) line_breaks

-- A carriage return and the newline behind it are one break, and no empty line follows the last.
unfoldable pub splitlines : Text → List Text
splitlines [] = []
splitlines (c ∷ []) = if is_break c then [] ∷ [] else (c ∷ []) ∷ []
splitlines (c ∷ d ∷ cs) =
    let rest = splitlines (d ∷ cs) in
    let behind = splitlines cs in
    if c == b'\r' && d == b'\n'
    then [] ∷ behind
    else if is_break c
    then [] ∷ rest
    else cons_head c rest

concat-cons_head : (c : ℕ) (ls : List Text) → concat (cons_head c ls) ≡ c ∷ concat ls
unfolding concat
concat-cons_head c [] = refl
concat-cons_head c (l ∷ ls) = refl

breaks_of :
    (c d : ℕ) → (c == b'\r' && d == b'\n') ≡ true → (is_break c ≡ true) × (is_break d ≡ true)
unfolding is_break
breaks_of c d h = ground arith

-- The lines of a text, one behind the other, are the text without its breaks.
pub concat-splitlines : (s : Text) → concat (splitlines s) ≡ select (λ c. not (is_break c)) s
unfolding concat splitlines
concat-splitlines [] = refl
concat-splitlines (c ∷ []) = elim (Bool-cases (is_break c)) [
  | inl e ↦ rw e refl
  | inr e ↦ rw e refl
]
concat-splitlines (c ∷ d ∷ cs) = elim (Bool-cases (c == b'\r' && d == b'\n')) [
  | inl e ↦ let (f, g) = breaks_of c d e in rw (e, f, g) (concat-splitlines cs)
  | inr e ↦ elim (Bool-cases (is_break c)) [
    | inl f ↦ rw (e, f) (concat-splitlines (d ∷ cs))
    | inr f ↦
        rw (e, f)
          (concat-cons_head c (splitlines (d ∷ cs)) ∙ ap (λ s. c ∷ s) (concat-splitlines (d ∷ cs)))
  ]
]
