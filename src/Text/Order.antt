-- ===== src/Text/Order.antt =====
-- `text_lt` is a strict order that compares any two texts.
use pyadcs_connector.Text.{Text, text_eq, text_lt}
use pyadcs_connector.Prelude.{◌≡◌, refl, true, false, [], ◌∷◌, arith}

pub text_lt_connex : (a b : Text) → text_lt a b ≡ false → text_eq a b ≡ false → text_lt b a ≡ true
unfolding text_lt text_eq
text_lt_connex [] [] h e = cc
text_lt_connex [] (y ∷ b) h e = cc
text_lt_connex (x ∷ a) [] h e = refl
text_lt_connex (x ∷ a) (y ∷ b) h e = ground (arith, text_lt_connex a b)

pub text_lt_trans : (a b c : Text) → text_lt a b ≡ true → text_lt b c ≡ true → text_lt a c ≡ true
unfolding text_lt
text_lt_trans [] [] c h k = absurd (cc h)
text_lt_trans [] (y ∷ b) [] h k = absurd (cc k)
text_lt_trans [] (y ∷ b) (z ∷ c) h k = refl
text_lt_trans (x ∷ a) [] c h k = absurd (cc h)
text_lt_trans (x ∷ a) (y ∷ b) [] h k = absurd (cc k)
text_lt_trans (x ∷ a) (y ∷ b) (z ∷ c) h k = ground (arith, text_lt_trans a b c)
