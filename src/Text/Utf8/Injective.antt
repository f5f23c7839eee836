-- ===== src/Text/Utf8/Injective.antt =====
-- No two texts have one encoding.
use pyadcs_connector.Prelude.{ℕ, [], ◌∷◌, ◌++◌, ◌≡◌, refl, ap, sym, arith}
use pyadcs_connector.Text.{Text}
use pyadcs_connector.Text.Utf8.{Bytes, encode_point, encode}

abbrev head_or_zero : Bytes → ℕ
head_or_zero [] = 0
head_or_zero (b ∷ bs) = b

abbrev tail_of : Bytes → Bytes
tail_of [] = []
tail_of (b ∷ bs) = bs

point_apart :
    (a b : ℕ) (r s : Bytes) → (encode_point a ++ r) ≡ (encode_point b ++ s) → (a ≡ b) × (r ≡ s)
unfolding encode_point
point_apart a b r s h =
    let h0 = ap head_or_zero h in
    let h1 = ap (λ x. head_or_zero (tail_of x)) h in
    let h2 = ap (λ x. head_or_zero (tail_of (tail_of x))) h in
    let h3 = ap (λ x. head_or_zero (tail_of (tail_of (tail_of x)))) h in
    ground (arith, h0, h1, h2, h3, h)

-- The encoding of a code point has a byte.
point_filled : (c : ℕ) (r : Bytes) → ([] ≡ (encode_point c ++ r)) → ⊥
unfolding encode_point
point_filled c r h = ground arith

pub encode_injective : (s t : Text) → encode s ≡ encode t → s ≡ t
unfolding encode
encode_injective [] [] h = refl
encode_injective [] (d ∷ t) h = absurd (point_filled d (encode t) h)
encode_injective (c ∷ s) [] h = absurd (point_filled c (encode s) (sym h))
encode_injective (c ∷ s) (d ∷ t) h =
    let (e, rest) = point_apart c d (encode s) (encode t) h in cc (e, encode_injective s t rest)
