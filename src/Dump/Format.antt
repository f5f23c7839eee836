-- ===== src/Dump/Format.antt =====
-- What the printed form of a record's lines shares, whichever record it is.
use pyadcs_connector.Text.{Text, is_space, rstrip, strip, split, join}
use pyadcs_connector.Text.Laws.{HasNo, IsBlank, rstrip_of_strip}
use pyadcs_connector.Text.Lines.{
  newline, strip-blank, EndsInInk, append-ne-nil, rstrip-append_ink, StartsInInk, lines_of_framed,
}
use pyadcs_connector.Prelude.{
  Bool, All, All-append, ◌≡◌, refl, ap, ◌≢◌, true, false, List, [], ◌∷◌, ◌++◌, append-nil, ok,
}
use pyadcs_connector.Text.Utf8.{decode}
use pyadcs_connector.Dump.{Response, lines_of}

-- The end of a line before its newline: a carriage return or nothing.
abbrev pub line_end : Bool → Text
line_end true = b'\r' ∷ []
line_end false = []

-- A property's value stands on one line, with no white space around it.
abbrev pub IsValue : Text → Type 0
IsValue v = (strip v ≡ v) × HasNo b'\n' v

pub line_end-IsBlank : (crlf : Bool) → IsBlank (line_end crlf)
unfolding is_space
line_end-IsBlank true = (refl, tt)
line_end-IsBlank false = tt

pub line_end-HasNo : (crlf : Bool) → HasNo b'\n' (line_end crlf)
line_end-HasNo true = (refl, tt)
line_end-HasNo false = tt

HasNo-append : (a b : Text) → HasNo b'\n' a → HasNo b'\n' b → HasNo b'\n' (a ++ b)
HasNo-append a b = All-append (λ c. _) a b

pub line-HasNo :
    (label v end : Text)
    → HasNo b'\n' label
    → IsValue v
    → HasNo b'\n' end
    → HasNo b'\n' (label ++ (v ++ end))
line-HasNo label v end hl hv he = HasNo-append label (v ++ end) hl (HasNo-append v end hv.1 he)

-- A line that ends in a value which is not empty ends in ink.
pub line-ink :
    (label v : Text)
    → IsValue v
    → v ≢ []
    → (rstrip (label ++ (v ++ [])) ≡ label ++ (v ++ [])) × (label ++ (v ++ []) ≢ [])
line-ink label v hv ne =
    rw append-nil (rstrip-append_ink label v (rstrip_of_strip v hv.0) ne, append-ne-nil label v ne)

-- The response whose output decodes to these lines, with white space before and behind them.
pub record Prints (r : Response) (lines : List Text) : Type 0 where
  pub lead : Text
  pub trail : Text
  pub lead_blank : IsBlank lead
  pub trail_blank : IsBlank trail
  pub decoded : decode r.std_out ≡ ok (lead ++ (join newline lines ++ trail))

pub lines_of-Prints :
    (r : Response) (ls : List Text)
    → Prints r ls
    → StartsInInk ls
    → EndsInInk ls
    → All (HasNo b'\n') ls
    → lines_of r ≡ ok ls
unfolding lines_of
lines_of-Prints r ls p hs he hn =
    rw p.decoded (ap ok (lines_of_framed p.lead ls p.trail p.lead_blank p.trail_blank hs he hn))

-- A response of white space has one empty line.
pub lines_of_blank : (r : Response) → Prints r [] → lines_of r ≡ ok ([] ∷ [])
unfolding lines_of join split
lines_of_blank r p = rw p.decoded (
    ap (λ s. ok (split b'\n' s))
      (strip-blank (p.lead ++ p.trail)
        (All-append (λ c. _) p.lead p.trail p.lead_blank p.trail_blank)))
