-- ===== src/Dump/Template/RoundTrip.antt =====
-- Reading back the `Format-List` output of the templates script.
use pyadcs_connector.Prelude.{
  Bool, true, false, List, [], ◌∷◌, ◌++◌, ◌≡◌, ◌≢◌, refl, All, All-append, sym, ap, ◌∙◌, map,
  append-nil, append_assoc, ok, arith,
}
use pyadcs_connector.Text.{Text, codes, is_space}
use pyadcs_connector.Text.Laws.{HasNo, IsBlank}
use pyadcs_connector.Text.Lines.{strip_value, EndsInInk, StartsInInk}
use pyadcs_connector.Dump.{Response, TemplateData}
use pyadcs_connector.Dump.Format.{
  line_end, IsValue, line_end-IsBlank, line_end-HasNo, line-HasNo, line-ink, Prints,
  lines_of-Prints, lines_of_blank,
}
use pyadcs_connector.Dump.Template.{parse_template_data, Scan, start, template_of, scan_line, scan}

-- The lines of one record; the last one ends in `last`.
abbrev pub template_lines : Scan → Text → Text → List Text
template_lines t end last =
    (codes "Name          : " ++ (t.name ++ end))
    ∷ (codes "DisplayName   : " ++ (t.display_name ++ end))
    ∷ (codes "SchemaVersion : " ++ (t.schema_version ++ end))
    ∷ (codes "Version       : " ++ (t.version ++ end))
    ∷ (codes "OID           : " ++ (t.oid ++ last))
    ∷ []

-- The lines of several records, an empty line between two of them.
abbrev pub templates_lines : Bool → List Scan → List Text
templates_lines crlf [] = []
templates_lines crlf (t ∷ []) = template_lines t (line_end crlf) []
templates_lines crlf (t ∷ u ∷ ts) =
    template_lines t (line_end crlf) (line_end crlf)
    ++ (line_end crlf ∷ templates_lines crlf (u ∷ ts))

pub record IsListed (t : Scan) : Type 0 where
  pub name_ok : IsValue t.name
  pub display_name_ok : IsValue t.display_name
  pub schema_version_ok : IsValue t.schema_version
  pub version_ok : IsValue t.version
  pub oid_ok : IsValue t.oid
  pub oid_ne_nil : t.oid ≢ []

-- One record is read whatever was read before it, and leaves the variables cleared.
scan-template_lines :
    (t : Scan) (end last : Text) (out : List TemplateData) (rest : List Text)
    → IsListed t
    → IsBlank end
    → IsBlank last
    → scan (start out) (template_lines t end last ++ rest)
      ≡ scan (start (out ++ template_of t ∷ [])) rest
unfolding scan scan_line
scan-template_lines t end last out rest h he hl = rw (strip_value t.name end h.name_ok.0 he) (
    rw (strip_value t.display_name end h.display_name_ok.0 he) (
      rw (strip_value t.schema_version end h.schema_version_ok.0 he) (
        rw (strip_value t.version end h.version_ok.0 he)
          (rw (strip_value t.oid last h.oid_ok.0 hl) refl))))

blank_line :
    (crlf : Bool) (s : Scan) (rest : List Text) → scan s (line_end crlf ∷ rest) ≡ scan s rest
unfolding scan scan_line
blank_line true s rest = refl
blank_line false s rest = refl

scan-templates_lines :
    (crlf : Bool) (ts : List Scan) (out : List TemplateData)
    → All IsListed ts
    → scan (start out) (templates_lines crlf ts) ≡ ok (start (out ++ map template_of ts))
scan-templates_lines crlf [] out h = unfold scan in rw append-nil
scan-templates_lines crlf (t ∷ []) out h =
    ap (scan (start out)) (sym (append-nil (templates_lines crlf (t ∷ []))))
    ∙ (scan-template_lines t (line_end crlf) [] out [] h.0 (line_end-IsBlank crlf) tt
        ∙ (unfold scan in refl))
scan-templates_lines crlf (t ∷ u ∷ ts) out h =
    scan-template_lines t (line_end crlf) (line_end crlf) out
      (line_end crlf ∷ templates_lines crlf (u ∷ ts)) h.0 (line_end-IsBlank crlf)
      (line_end-IsBlank crlf)
    ∙ (blank_line crlf (start (out ++ template_of t ∷ [])) (templates_lines crlf (u ∷ ts))
        ∙ (scan-templates_lines crlf (u ∷ ts) (out ++ template_of t ∷ []) h.1 ∙ rw (append_assoc)))

template_lines-HasNo :
    (t : Scan) (end last : Text)
    → IsListed t
    → HasNo b'\n' end
    → HasNo b'\n' last
    → All (HasNo b'\n') (template_lines t end last)
template_lines-HasNo t end last h he hl = (
  line-HasNo (codes "Name          : ") t.name end (ground arith) h.name_ok he,
  (
    line-HasNo (codes "DisplayName   : ") t.display_name end (ground arith) h.display_name_ok he,
    (
      line-HasNo (codes "SchemaVersion : ") t.schema_version end (ground arith) h.schema_version_ok
          he,
      (
        line-HasNo (codes "Version       : ") t.version end (ground arith) h.version_ok he,
        (line-HasNo (codes "OID           : ") t.oid last (ground arith) h.oid_ok hl, tt),
      ),
    ),
  ),
)

templates_lines-HasNo :
    (crlf : Bool) (ts : List Scan) → All IsListed ts → All (HasNo b'\n') (templates_lines crlf ts)
templates_lines-HasNo crlf [] h = tt
templates_lines-HasNo crlf (t ∷ []) h =
    template_lines-HasNo t (line_end crlf) [] h.0 (line_end-HasNo crlf) tt
templates_lines-HasNo crlf (t ∷ u ∷ ts) h =
    All-append (HasNo b'\n') (template_lines t (line_end crlf) (line_end crlf))
      (line_end crlf ∷ templates_lines crlf (u ∷ ts))
      (template_lines-HasNo t (line_end crlf) (line_end crlf) h.0 (line_end-HasNo crlf)
        (line_end-HasNo crlf))
      (line_end-HasNo crlf, templates_lines-HasNo crlf (u ∷ ts) h.1)

templates_lines-ink :
    (crlf : Bool) (t : Scan) (ts : List Scan)
    → All IsListed (t ∷ ts)
    → StartsInInk (templates_lines crlf (t ∷ ts)) × EndsInInk (templates_lines crlf (t ∷ ts))
unfolding is_space
templates_lines-ink crlf t [] h =
    (refl, line-ink (codes "OID           : ") t.oid h.0.oid_ok h.0.oid_ne_nil)
templates_lines-ink crlf t (u ∷ []) h = (refl, (templates_lines-ink crlf u [] h.1).1)
templates_lines-ink crlf t (u ∷ v ∷ ts) h = (refl, (templates_lines-ink crlf u (v ∷ ts) h.1).1)

-- Reading the printed form of any list of templates gives their data, in order, whichever line
-- ends and white space around the text the response has. Each value stands on one line with no
-- white space around it, and no OID is empty.
pub parse-templates_lines :
    (r : Response) (crlf : Bool) (ts : List Scan)
    → All IsListed ts
    → Prints r (templates_lines crlf ts)
    → parse_template_data r ≡ ok (map template_of ts)
unfolding parse_template_data
parse-templates_lines r crlf [] h p = rw (lines_of_blank r p) (unfold scan scan_line in refl)
parse-templates_lines r crlf (t ∷ ts) h p =
    let (starts, ends) = templates_lines-ink crlf t ts h in
    rw
      (lines_of-Prints r (templates_lines crlf (t ∷ ts)) p starts ends
        (templates_lines-HasNo crlf (t ∷ ts) h))
      (rw (scan-templates_lines crlf (t ∷ ts) [] h))
