-- ===== src/Dump/Identified/Laws.antt =====
-- How many certificates the output names.
use pyadcs_connector.Prelude.{
  ℕ, List, [], ◌∷◌, Result, ok, count, length, length-append, ◌≡◌, ◌+◌, ap, arith, Bool, true,
  false, >>=-eq-ok, ok-injective, Bool-cases, inl, inr, if◌then◌else◌, ◌>>=◌,
}
use mathlib.Core.Path.{subst}
use pyadcs_connector.Text.{Text, codes, starts_with}
use pyadcs_connector.Dump.{Response, IdentifiedCertificate, lines_of, get_value_from_line}
use pyadcs_connector.Dump.Identified.{Scan, start, scan_line, scan, parse_identified_certificates}

abbrev pub is_config_line : Text → Bool
is_config_line line = starts_with (codes "ConfigString ") line

-- No line begins with two of the labels.
labels_apart :
    (line : Text)
    → is_config_line line ≡ true
    → (starts_with (codes "SerialNumber ") line ≡ false)
      × (starts_with (codes "CertificateTemplate ") line ≡ false)
unfolding starts_with
labels_apart [] h = absurd (cc)
labels_apart (c ∷ cs) h = ground (arith, h)

-- A line whose value is read makes a state with this number of records.
read_length :
    (value : Result Text) (next : Text → Scan) (s : Scan) (n : ℕ)
    → ((v : Text) → length (next v).result ≡ n)
    → (value >>= (λ v. ok (next v))) ≡ ok s
    → length s.result ≡ n
read_length value next s n size h =
    let (v, _, made) = >>=-eq-ok value _ h in
    subst (λ (x : Scan). length x.result ≡ n) (ok-injective made) (size v)

scan_line-length :
    (s s' : Scan) (line : Text)
    → scan_line s line ≡ ok s'
    → length s'.result ≡ length s.result + (if is_config_line line then 1 else 0)
unfolding scan_line
scan_line-length s s' line h = elim (Bool-cases (is_config_line line)) [
  | inl config ↦
      let (a, b) = labels_apart line config in
      rw config (
        read_length (get_value_from_line line) _ s' (length s.result + 1)
          (λ v. length-append s.result _) (rw (a, b, config) at h))
  | inr other ↦ rw other (elim (Bool-cases (starts_with (codes "SerialNumber ") line)) [
    | inl serial ↦
        read_length (get_value_from_line line) _ s' (length s.result + 0) (λ v. omega arith)
          (rw serial at h)
    | inr no_serial ↦ elim (Bool-cases (starts_with (codes "CertificateTemplate ") line)) [
      | inl template ↦
          read_length (get_value_from_line line) _ s' (length s.result + 0) (λ v. omega arith)
            (rw (no_serial, template) at h)
      | inr no_template ↦
          let same = ok-injective (rw (no_serial, no_template, other) at h) in
          omega (arith, ap (λ (x : Scan). length x.result) same)
    ]
  ])
]

scan-length :
    (s s' : Scan) (lines : List Text)
    → scan s lines ≡ ok s'
    → length s'.result ≡ length s.result + count is_config_line lines
unfolding scan
scan-length s s' [] h = omega (arith, ap (λ (x : Scan). length x.result) (ok-injective h))
scan-length s s' (line ∷ lines) h =
    let (m, e, rest) = >>=-eq-ok (scan_line s line) _ h in
    omega (arith, scan_line-length s m line e, scan-length m s' lines rest)

-- Where the output is parsed, it has as many certificates as lines that begin with the label of a
-- config string.
pub parse_identified-length :
    (r : Response) (certificates : List IdentifiedCertificate)
    → parse_identified_certificates r ≡ ok certificates
    → (lines : List Text) × (lines_of r ≡ ok lines)
      × (length certificates ≡ count is_config_line lines)
unfolding parse_identified_certificates
parse_identified-length r certificates h =
    let (lines, e, h1) = >>=-eq-ok (lines_of r) _ h in
    let (s, f, h2) = >>=-eq-ok (scan (start []) lines) _ h1 in
    (lines, e, omega (arith, scan-length (start []) s lines f, ap length (ok-injective h2)))
