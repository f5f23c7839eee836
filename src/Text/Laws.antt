-- ===== src/Text/Laws.antt =====
-- Laws of the text operations: equality, splitting what was joined, and stripping.
use pyadcs_connector.Prelude.{
  ℕ, true, false, List, [], ◌∷◌, ◌++◌, ◌≡◌, ◌≢◌, ◌↔◌, refl, sym, ap, ◌∙◌, ◌==◌, ==_iff, is_empty,
  All, arith, some,
}
use pyadcs_connector.Text.{Text, text_eq, is_space, lstrip, rstrip, strip, split, split_once, join}

pub text_eq_iff : (a b : Text) → (text_eq a b ≡ true) ↔ (a ≡ b)
unfolding text_eq
text_eq_iff (x ∷ a) (y ∷ b) = ground (arith, text_eq_iff a b)
text_eq_iff _ _ = ground arith

pub text_eq_refl : (a : Text) → text_eq a a ≡ true
text_eq_refl a = (text_eq_iff a a).1 refl

-- The character `sep` is not in the text.
abbrev pub HasNo : ℕ → Text → Type 0
HasNo sep s = All (λ c. (c == sep) ≡ false) s

abbrev pub IsBlank : Text → Type 0
IsBlank s = All (λ c. is_space c ≡ true) s

pub split-append :
    (sep : ℕ) (l rest : Text) → HasNo sep l → split sep (l ++ (sep ∷ rest)) ≡ l ∷ split sep rest
unfolding split
split-append sep [] rest h = rw ((==_iff sep sep).1 refl)
split-append sep (c ∷ l) rest h = rw (h.0, split-append sep l rest h.1)

pub split_self : (sep : ℕ) (l : Text) → HasNo sep l → split sep l ≡ l ∷ []
unfolding split
split_self sep [] h = refl
split_self sep (c ∷ l) h = rw (h.0, split_self sep l h.1)

-- Splitting lines that were joined gives the lines back.
pub split-join :
    (sep : ℕ) (l : Text) (ls : List Text)
    → All (HasNo sep) (l ∷ ls)
    → split sep (join (sep ∷ []) (l ∷ ls)) ≡ l ∷ ls
unfolding join
split-join sep l [] h = split_self sep l h.0
split-join sep l (m ∷ ls) h =
    split-append sep l (join (sep ∷ []) (m ∷ ls)) h.0 ∙ ap (◌∷◌ l) (split-join sep m ls h.1)

pub split_once-append :
    (sep : ℕ) (l rest : Text) → HasNo sep l → split_once sep (l ++ (sep ∷ rest)) ≡ some (l, rest)
unfolding split_once
split_once-append sep [] rest h = rw ((==_iff sep sep).1 refl)
split_once-append sep (c ∷ l) rest h = rw (h.0, split_once-append sep l rest h.1)

pub lstrip-append : (w s : Text) → IsBlank w → lstrip (w ++ s) ≡ lstrip s
unfolding lstrip
lstrip-append [] s h = refl
lstrip-append (c ∷ w) s h = rw h.0 (lstrip-append w s h.1)

pub rstrip-blank : (w : Text) → IsBlank w → rstrip w ≡ []
unfolding rstrip
rstrip-blank [] h = refl
rstrip-blank (c ∷ w) h = rw (h.0, rstrip-blank w h.1)

pub rstrip-append : (s w : Text) → IsBlank w → rstrip (s ++ w) ≡ rstrip s
unfolding rstrip
rstrip-append [] w h = rstrip-blank w h
rstrip-append (c ∷ s) w h = rw (rstrip-append s w h)

pub rstrip_idem : (s : Text) → rstrip (rstrip s) ≡ rstrip s
unfolding rstrip
rstrip_idem [] = refl
rstrip_idem (c ∷ s) = ground (arith, rstrip_idem s)

append-ne-nil : (a b : Text) → b ≢ [] → is_empty (a ++ b) ≡ false
append-ne-nil [] [] h = absurd (h refl)
append-ne-nil [] (c ∷ b) h = refl
append-ne-nil (c ∷ a) b h = refl

-- What stands before a text that `rstrip` leaves something of stays.
pub rstrip-append_keep : (a b : Text) → rstrip b ≢ [] → rstrip (a ++ b) ≡ a ++ rstrip b
unfolding rstrip
rstrip-append_keep [] b h = refl
rstrip-append_keep (c ∷ a) b h =
    rw (rstrip-append_keep a b h) (ground (arith, append-ne-nil a (rstrip b) h))

pub rstrip_of_strip : (s : Text) → strip s ≡ s → rstrip s ≡ s
unfolding strip
rstrip_of_strip s h = ap rstrip (sym h) ∙ (rstrip_idem (lstrip s) ∙ h)

-- White space around a text whose ends are not white space is stripped.
pub strip_framed :
    (w : Text) (c : ℕ) (s w' : Text)
    → IsBlank w
    → is_space c ≡ false
    → rstrip (c ∷ s) ≡ c ∷ s
    → IsBlank w'
    → strip (w ++ ((c ∷ s) ++ w')) ≡ c ∷ s
unfolding strip
strip_framed w c s w' hw hc hs hw' =
    ap rstrip (lstrip-append w ((c ∷ s) ++ w') hw)
    ∙ (unfold lstrip in rw hc (rstrip-append (c ∷ s) w' hw' ∙ hs))
