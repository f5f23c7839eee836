-- ===== src/Dump/Certificate/RoundTrip.antt =====
-- Reading back the rows of the certificate database as `Format-List` prints them.
use pyadcs_connector.Text.Lines.{strip-append, strip_value, EndsInInk, StartsInInk}
use pyadcs_connector.Text.{
  Text, codes, strip, starts_with, remove_from, concat, remove, is_space, lstrip,
}
use pyadcs_connector.Text.Laws.{HasNo, IsBlank}
use pyadcs_connector.Prelude.{
  false, All, ℕ, ◌≡◌, refl, List, [], ◌∷◌, ◌++◌, map, arith, ◌==◌, All-append, ◌∙◌, true,
  append-nil, append_assoc, sym, ap, Bool, ok,
}
use pyadcs_connector.Dump.{Response, ParseResult}
use pyadcs_connector.Dump.Format.{line_end, line_end-IsBlank, Prints, lines_of-Prints}
use pyadcs_connector.Dump.Certificate.{Scan, start, cert_data, scan_line, scan, parse_certificates}

-- A line of another property.
abbrev pub IsNoise : Text → Type 0
IsNoise line =
    (starts_with (codes "CertificateTemplate ") line ≡ false)
    × (starts_with (codes "RawCertificate ") line ≡ false)

-- A piece of a certificate's Base64 text.
pub record IsBase64 (s : Text) : Type 0 where
  pub stripped : strip s ≡ s
  pub no_dash : HasNo b'-' s
  pub no_return : HasNo b'\r' s
  pub no_newline : HasNo b'\n' s

-- One row: the lines before its template, between it and the certificate, the certificate's
-- pieces, and the line that follows them.
pub record Row : Type 0 where
  pub before : List Text
  pub template : Text
  pub between : List Text
  pub first : Text
  pub more : List Text
  pub closing : Text

pub record IsRow (row : Row) : Type 0 where
  pub before_ok : All IsNoise row.before
  pub template_ok : strip row.template ≡ row.template
  pub between_ok : All IsNoise row.between
  pub first_ok : IsBase64 row.first
  pub more_ok : All IsBase64 row.more
  pub closing_ok : IsNoise row.closing
  pub closing_outdented : starts_with (codes "      ") row.closing ≡ false

-- A row's certificate as it is printed, up to its last piece.
abbrev pub continuation : Text → Text → Text
continuation end piece = codes "                             " ++ (piece ++ end)

abbrev pub template_line : Text → Row → Text
template_line end row = codes "CertificateTemplate        : " ++ (row.template ++ end)

abbrev pub raw_line : Text → Row → Text
raw_line end row = codes "RawCertificate             : " ++ (row.first ++ end)

abbrev pub certificate_lines : Text → Row → List Text → List Text
certificate_lines end row rest =
    row.between ++ (raw_line end row ∷ (map (continuation end) row.more ++ rest))

abbrev pub open_lines : Text → Row → List Text → List Text
open_lines end row rest = row.before ++ (template_line end row ∷ certificate_lines end row rest)

abbrev pub rows_lines : Text → List Row → List Text → List Text
rows_lines end [] rest = rest
rows_lines end (row ∷ rows) rest = open_lines end row (row.closing ∷ rows_lines end rows rest)

-- What the parser is to return for a row.
abbrev pub result_of : Row → ParseResult
result_of row = record { template = row.template; certificate = concat (row.first ∷ row.more) }

remove_from-HasNo : (d : ℕ) (old s : Text) → HasNo d s → remove_from (d ∷ old) 0 s ≡ s
unfolding remove_from starts_with
remove_from-HasNo d old [] h = refl
remove_from-HasNo d old (c ∷ s) h = ground (arith, h.0, remove_from-HasNo d old s h.1)

HasNo-concat : (d : ℕ) (ps : List Text) → All (HasNo d) ps → HasNo d (concat ps)
unfolding concat
HasNo-concat d [] h = tt
HasNo-concat d (p ∷ ps) h =
    All-append (λ c. (c == d) ≡ false) p (concat ps) h.0 (HasNo-concat d ps h.1)

All-map {ℓ κ μ} :
    {A : Type ℓ} {P : A → Type κ} {Q : A → Type μ} (xs : List A)
    → ((x : A) → P x → Q x)
    → All P xs
    → All Q xs
All-map [] f h = tt
All-map (x ∷ xs) f h = (f x h.0, All-map xs f h.1)

-- Base64 text loses nothing.
cert_data-IsBase64 : (ps : List Text) → All IsBase64 ps → cert_data ps ≡ concat ps
unfolding cert_data remove
cert_data-IsBase64 ps h =
    let dash = HasNo-concat b'-' ps (All-map ps (λ x b. b.no_dash) h) in
    let ret = HasNo-concat b'\r' ps (All-map ps (λ x b. b.no_return) h) in
    let nl = HasNo-concat b'\n' ps (All-map ps (λ x b. b.no_newline) h) in
    rw (remove_from-HasNo b'-' (codes "----BEGIN CERTIFICATE-----") (concat ps) dash) (
      rw (remove_from-HasNo b'-' (codes "----END CERTIFICATE-----") (concat ps) dash) (
        rw (remove_from-HasNo b'\r' [] (concat ps) ret)
          (remove_from-HasNo b'\n' [] (concat ps) nl)))

-- The loop outside a certificate, with a template read or not.
abbrev outside : List ParseResult → Text → Scan
outside out t = record { result = out; in_cert = false; cert = []; template = t }

abbrev inside : List ParseResult → Text → List Text → Scan
inside out t cert = record { result = out; in_cert = true; cert = cert; template = t }

scan-noise :
    (ls : List Text) (out : List ParseResult) (t : Text) (rest : List Text)
    → All IsNoise ls
    → scan (outside out t) (ls ++ rest) ≡ scan (outside out t) rest
unfolding scan scan_line
scan-noise [] out t rest h = refl
scan-noise (l ∷ ls) out t rest h = rw h.0.0 (rw h.0.1 (scan-noise ls out t rest h.1))

strip-continuation :
    (end piece : Text) → strip piece ≡ piece → IsBlank end → strip (continuation end piece) ≡ piece
unfolding strip lstrip is_space
strip-continuation end piece h he = leads (piece ++ end) ∙ (strip-append piece end he ∙ h)
  where
    leads : (s : Text) → strip (codes "                             " ++ s) ≡ strip s
    leads s = refl

scan-continuations :
    (end : Text) (ps : List Text) (out : List ParseResult) (t : Text) (cert rest : List Text)
    → IsBlank end
    → All IsBase64 ps
    → scan (inside out t cert) (map (continuation end) ps ++ rest)
      ≡ scan (inside out t (cert ++ ps)) rest
unfolding scan scan_line
scan-continuations end [] out t cert rest he h = rw append-nil
scan-continuations end (p ∷ ps) out t cert rest he h =
    rw (strip-continuation end p h.0.stripped he)
      (scan-continuations end ps out t (cert ++ p ∷ []) rest he h.1 ∙ rw append_assoc)

scan_template :
    (end : Text) (row : Row) (out : List ParseResult) (rest : List Text)
    → IsBlank end
    → IsRow row
    → scan (outside out []) (template_line end row ∷ rest) ≡ scan (outside out row.template) rest
unfolding scan scan_line
scan_template end row out rest he h = rw (strip_value row.template end h.template_ok he)

scan_raw :
    (end : Text) (row : Row) (out : List ParseResult) (rest : List Text)
    → IsBlank end
    → IsRow row
    → scan (outside out row.template) (raw_line end row ∷ rest)
      ≡ scan (inside out row.template (row.first ∷ [])) rest
unfolding scan scan_line
scan_raw end row out rest he h = rw (strip_value row.first end h.first_ok.stripped he)

scan-open_lines :
    (end : Text) (row : Row) (out : List ParseResult) (rest : List Text)
    → IsBlank end
    → IsRow row
    → scan (start out) (open_lines end row rest)
      ≡ scan (inside out row.template (row.first ∷ row.more)) rest
scan-open_lines end row out rest he h =
    scan-noise row.before out [] (template_line end row ∷ certificate_lines end row rest)
      h.before_ok
    ∙ (scan_template end row out (certificate_lines end row rest) he h
        ∙ (scan-noise row.between out row.template (raw_line end row ∷ _) h.between_ok
            ∙ (scan_raw end row out (map (continuation end) row.more ++ rest) he h
                ∙ scan-continuations end row.more out row.template (row.first ∷ []) rest he
                    h.more_ok)))

scan-closing :
    (row : Row) (out : List ParseResult) (rest : List Text)
    → IsRow row
    → scan (inside out row.template (row.first ∷ row.more)) (row.closing ∷ rest)
      ≡ scan (start (out ++ result_of row ∷ [])) rest
unfolding scan scan_line
scan-closing row out rest h = rw h.closing_outdented (
    rw h.closing_ok.0
      (rw h.closing_ok.1 (rw (cert_data-IsBase64 (row.first ∷ row.more) (h.first_ok, h.more_ok)))))

scan-rows_lines :
    (end : Text) (rows : List Row) (out : List ParseResult) (rest : List Text)
    → IsBlank end
    → All IsRow rows
    → scan (start out) (rows_lines end rows rest) ≡ scan (start (out ++ map result_of rows)) rest
scan-rows_lines end [] out rest he h = rw append-nil
scan-rows_lines end (row ∷ rows) out rest he h =
    scan-open_lines end row out (row.closing ∷ rows_lines end rows rest) he h.0
    ∙ (scan-closing row out (rows_lines end rows rest) h.0
        ∙ (scan-rows_lines end rows (out ++ result_of row ∷ []) rest he h.1 ∙ rw append_assoc))

noise_only :
    (ls : List Text) (out : List ParseResult)
    → All IsNoise ls
    → scan (start out) ls ≡ ok (start out)
noise_only ls out h =
    ap (scan (start out)) (sym (append-nil ls))
    ∙ (scan-noise ls out [] [] h ∙ (unfold scan in refl))

-- Every row of a printed database comes back, in order, with its template and with its
-- certificate in one piece, whatever other properties the rows have and whatever lines that
-- start no certificate follow them. The lines hold no line feed, and white space around the whole
-- text does not touch the first and last of them.
pub parse-rows_lines :
    (r : Response) (crlf : Bool) (rows : List Row) (rest : List Text)
    → All IsRow rows
    → All IsNoise rest
    → Prints r (rows_lines (line_end crlf) rows rest)
    → StartsInInk (rows_lines (line_end crlf) rows rest)
    → EndsInInk (rows_lines (line_end crlf) rows rest)
    → All (HasNo b'\n') (rows_lines (line_end crlf) rows rest)
    → parse_certificates r ≡ ok (map result_of rows)
unfolding parse_certificates
parse-rows_lines r crlf rows rest h hr p hs he hn =
    rw (lines_of-Prints r (rows_lines (line_end crlf) rows rest) p hs he hn) (
      rw (scan-rows_lines (line_end crlf) rows [] rest (line_end-IsBlank crlf) h)
        (rw (noise_only rest (map result_of rows) hr)))

-- A last certificate with no line behind it is lost: the rows before it come back, and it does
-- not, though it is complete.
pub parse-rows_lines_open :
    (r : Response) (crlf : Bool) (rows : List Row) (row : Row)
    → All IsRow rows
    → IsRow row
    → Prints r (rows_lines (line_end crlf) rows (open_lines (line_end crlf) row []))
    → StartsInInk (rows_lines (line_end crlf) rows (open_lines (line_end crlf) row []))
    → EndsInInk (rows_lines (line_end crlf) rows (open_lines (line_end crlf) row []))
    → All (HasNo b'\n') (rows_lines (line_end crlf) rows (open_lines (line_end crlf) row []))
    → parse_certificates r ≡ ok (map result_of rows)
unfolding parse_certificates
parse-rows_lines_open r crlf rows row h hr p hs he hn =
    let end = line_end crlf in
    rw (lines_of-Prints r (rows_lines end rows (open_lines end row [])) p hs he hn) (
      rw (scan-rows_lines end rows [] (open_lines end row []) (line_end-IsBlank crlf) h) (
        rw (scan-open_lines end row (map result_of rows) [] (line_end-IsBlank crlf) hr)
          (unfold scan in refl)))
