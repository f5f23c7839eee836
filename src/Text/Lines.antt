-- ===== src/Text/Lines.antt =====
-- The lines of a text that is framed by white space: what `s.strip().split('\n')` gives.
use pyadcs_connector.Prelude.{false, List, [], ◌∷◌, ◌++◌, ◌≡◌, ◌≢◌, refl, sym, ap, ◌∙◌, All, arith}
use pyadcs_connector.Text.{Text, is_space, lstrip, rstrip, strip, split, join}
use pyadcs_connector.Text.Laws.{
  HasNo, IsBlank, split-join, rstrip-append, rstrip-append_keep, strip_framed,
}

abbrev pub newline : Text
newline = b'\n' ∷ []

-- White space behind a text makes no difference to `strip`.
pub strip-append : (s w : Text) → IsBlank w → strip (s ++ w) ≡ strip s
unfolding strip lstrip rstrip
strip-append [] [] h = refl
strip-append [] (c ∷ w) h = rw h.0 (strip-append [] w h.1)
strip-append (c ∷ s) w h = ground (arith, strip-append s w h, rstrip-append (c ∷ s) w h)

pub strip-blank : (w : Text) → IsBlank w → strip w ≡ []
strip-blank w h = strip-append [] w h ∙ (unfold strip lstrip rstrip in refl)

-- The value behind `: ` on a line, with the line's own end.
lead_space : (s : Text) → strip (b' ' ∷ s) ≡ strip s
unfolding strip lstrip is_space
lead_space s = refl

pub strip_value : (v e : Text) → strip v ≡ v → IsBlank e → strip (b' ' ∷ (v ++ e)) ≡ v
strip_value v e hv he = lead_space (v ++ e) ∙ (strip-append v e he ∙ hv)

-- The last line is there and ends in no white space.
abbrev pub EndsInInk : List Text → Type 0
EndsInInk [] = ⊥
EndsInInk (l ∷ []) = (rstrip l ≡ l) × (l ≢ [])
EndsInInk (l ∷ m ∷ ls) = EndsInInk (m ∷ ls)

pub append-ne-nil : (a b : Text) → b ≢ [] → a ++ b ≢ []
append-ne-nil [] b h = h
append-ne-nil (c ∷ a) b h = λ e. cc

pub rstrip-append_ink : (a b : Text) → rstrip b ≡ b → b ≢ [] → rstrip (a ++ b) ≡ a ++ b
rstrip-append_ink a b e ne = rstrip-append_keep a b (λ z. ne (sym e ∙ z)) ∙ ap (◌++◌ a) e

join-EndsInInk :
    (ls : List Text)
    → EndsInInk ls
    → (rstrip (join newline ls) ≡ join newline ls) × (join newline ls ≢ [])
unfolding join
join-EndsInInk [] h = absurd h
join-EndsInInk (l ∷ []) h = h
join-EndsInInk (l ∷ m ∷ ls) h =
    let rest = join newline (m ∷ ls) in
    let (same, ne) = join-EndsInInk (m ∷ ls) h in
    let ne' = append-ne-nil newline rest ne in
    (
      rstrip-append_ink l (newline ++ rest) (rstrip-append_ink newline rest same ne) ne',
      append-ne-nil l (newline ++ rest) ne',
    )

-- The first line is there and begins with no white space.
abbrev pub StartsInInk : List Text → Type 0
StartsInInk [] = ⊥
StartsInInk ([] ∷ ls) = ⊥
StartsInInk ((c ∷ l) ∷ ls) = is_space c ≡ false

strip_lines :
    (lead : Text) (l : Text) (ls : List Text) (trail : Text)
    → IsBlank lead
    → StartsInInk (l ∷ ls)
    → EndsInInk (l ∷ ls)
    → IsBlank trail
    → strip (lead ++ (join newline (l ∷ ls) ++ trail)) ≡ join newline (l ∷ ls)
unfolding join
strip_lines lead [] ls trail hl hs he ht = absurd hs
strip_lines lead (c ∷ l) [] trail hl hs he ht = strip_framed lead c l trail hl hs he.0 ht
strip_lines lead (c ∷ l) (m ∷ ls) trail hl hs he ht =
    strip_framed lead c (l ++ (newline ++ join newline (m ∷ ls))) trail hl hs
      (join-EndsInInk ((c ∷ l) ∷ m ∷ ls) he).0 ht

-- Lines framed by white space come back.
pub lines_of_framed :
    (lead : Text) (ls : List Text) (trail : Text)
    → IsBlank lead
    → IsBlank trail
    → StartsInInk ls
    → EndsInInk ls
    → All (HasNo b'\n') ls
    → split b'\n' (strip (lead ++ (join newline ls ++ trail))) ≡ ls
lines_of_framed lead [] trail hl ht hs he hn = absurd hs
lines_of_framed lead (l ∷ ls) trail hl ht hs he hn =
    ap (split b'\n') (strip_lines lead l ls trail hl hs he ht) ∙ split-join b'\n' l ls hn
