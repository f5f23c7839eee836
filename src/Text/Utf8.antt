-- ===== src/Text/Utf8.antt =====
-- `bytes.decode('utf-8')`, strict: shortest forms only, no surrogates, up to U+10FFFF.
pub mod Injective
use pyadcs_connector.Prelude.{
  ℕ, zero, suc, ◌+◌, ◌-◌, ◌*◌, Bool, not, ◌&&◌, List, [], ◌∷◌, ltb, leb, ◌==◌, if◌then◌else◌,
  Result, ok, err, unicode_error, ◌>>=◌, ◌≡◌, refl, ◌<◌, All, arith, ◌/◌, ◌%◌, ◌++◌, ◌>>◌,
}
use pyadcs_connector.Text.{Text}

abbrev pub Bytes : Type 0
Bytes = List ℕ

abbrev prepend : ℕ → Result Text → Result Text
prepend c r = do s ← r; ok (c ∷ s)

-- A code point that the encoding may hold in this many bytes.
is_scalar : ℕ → ℕ → Bool
is_scalar lowest c = leb lowest c && leb c 0x10FFFF && not (leb 0xD800 c && leb c 0xDFFF)

-- `need` continuation bytes are to come for a code point whose bits so far are `acc`, and which
-- must not be under `lowest`.
decode_from : ℕ → ℕ → ℕ → Bytes → Result Text
unfolding is_scalar
decode_from zero acc lowest [] = ok []
decode_from (suc need) acc lowest [] = err unicode_error
decode_from zero acc lowest (b ∷ bs) =
    let one = prepend b (decode_from 0 0 0 bs) in
    let two = decode_from 1 (b - 0xC0) 0x80 bs in
    let three = decode_from 2 (b - 0xE0) 0x800 bs in
    let four = decode_from 3 (b - 0xF0) 0x10000 bs in
    if ltb b 0x80
    then one
    else if leb 0xC2 b && ltb b 0xE0
    then two
    else if leb 0xE0 b && ltb b 0xF0
    then three
    else if leb 0xF0 b && ltb b 0xF5
    then four
    else err unicode_error
decode_from (suc need) acc lowest (b ∷ bs) =
    let c = acc * 64 + (b - 0x80) in
    let done = prepend c (decode_from 0 0 0 bs) in
    let more = decode_from need c lowest bs in
    if not (leb 0x80 b && ltb b 0xC0)
    then err unicode_error
    else if not (need == 0)
    then more
    else if is_scalar lowest c
    then done
    else err unicode_error

unfoldable pub decode : Bytes → Result Text
unfolding decode_from
decode bs = decode_from 0 0 0 bs

-- `s.encode('utf-8')` of code points that are no surrogates.
unfoldable pub encode_point : ℕ → Bytes
encode_point c =
    if ltb c 0x80
    then c ∷ []
    else if ltb c 0x800
    then (0xC0 + c / 64) ∷ (0x80 + c % 64) ∷ []
    else if ltb c 0x10000
    then (0xE0 + c / 4096) ∷ (0x80 + c / 64 % 64) ∷ (0x80 + c % 64) ∷ []
    else (0xF0 + c / 262144) ∷ (0x80 + c / 4096 % 64) ∷ (0x80 + c / 64 % 64) ∷ (0x80 + c % 64) ∷ []

unfoldable pub encode : Text → Bytes
unfolding encode_point
encode [] = []
encode (c ∷ cs) = encode_point c ++ encode cs

-- ASCII bytes are their own text.
pub decode_ascii : (s : Text) → All (λ c. c < 128) s → decode s ≡ ok s
unfolding decode
decode_ascii [] h = refl
decode_ascii (c ∷ s) h = ground (arith, h.0, decode_ascii s h.1)

-- One code point of each length; an overlong form, a surrogate and a truncated form are refused.
decode_samples :
    (decode (0x41 ∷ 0xC3 ∷ 0xA9 ∷ 0xE2 ∷ 0x82 ∷ 0xAC ∷ 0xF0 ∷ 0x9F ∷ 0x98 ∷ 0x80 ∷ [])
      ≡ ok (0x41 ∷ 0xE9 ∷ 0x20AC ∷ 0x1F600 ∷ []))
    × (decode (0xC0 ∷ 0x80 ∷ []) ≡ err unicode_error)
    × (decode (0xED ∷ 0xA0 ∷ 0x80 ∷ []) ≡ err unicode_error)
    × (decode (0xE2 ∷ 0x82 ∷ []) ≡ err unicode_error)
unfolding decode
decode_samples = (refl, refl, refl, refl)
