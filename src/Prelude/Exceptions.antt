-- ===== src/Prelude/Exceptions.antt =====
-- Python exceptions as values: the classes of PyADCSConnector/exceptions and the built-in ones
-- that the modelled code can raise.
use mathlib.Core.Path.{◌≡◌, refl}
use mathlib.Core.Logic.{◌⊎◌, inl, inr}
use mathlib.Core.List.{List, [], ◌∷◌}
use Prim.Native.Nat.{ℕ}

-- The class of an exception.
pub data Exception : Type 0 where
  not_found_exception validation_exception authority_exception discovery_exception : Exception
  remoting_exception already_exist_exception certificate_exception : Exception
  winrm_execution_exception : ℕ → Exception
  value_error key_error index_error attribute_error type_error unicode_error : Exception
  does_not_exist generic_exception : Exception

-- What a call returns or raises.
pub data Result {ℓ} (A : Type ℓ) : Type ℓ where
  err : Exception → Result A
  ok : A → Result A

pub Result-cases {ℓ} :
    {A : Type ℓ} (call : Result A)
    → ((v : A) × (call ≡ ok v)) ⊎ ((raised : Exception) × (call ≡ err raised))
Result-cases (err raised) = inr (raised, refl)
Result-cases (ok v) = inl (v, refl)

-- Statements one after the other: the first exception ends them.
infixl 5 ◌>>=◌ ◌>>◌
abbrev pub ◌>>=◌ {a b} : {A : Type a} {B : Type b} → Result A → (A → Result B) → Result B
(err raised) >>= next = err raised
(ok v) >>= next = next v

-- A list comprehension whose body may raise.
abbrev pub traverse {a b} : {A : Type a} {B : Type b} → (A → Result B) → List A → Result (List B)
traverse body [] = ok []
traverse body (x ∷ xs) = do y ← body x; ys ← traverse body xs; ok (y ∷ ys)

-- A statement that is there for its exceptions.
abbrev pub ◌>>◌ {b} : {B : Type b} → Result (Unit {0}) → Result B → Result B
check >> next = check >>= λ _. next

pub ok-injective {ℓ} : {A : Type ℓ} {v w : A} → ok v ≡ ok w → v ≡ w
ok-injective same = cc

pub >>=-eq-ok {a b} :
    {A : Type a} {B : Type b} (call : Result A) (next : A → Result B) {w : B}
    → (call >>= next) ≡ ok w
    → (v : A) × (call ≡ ok v) × (next v ≡ ok w)
>>=-eq-ok (err raised) next same = cc
>>=-eq-ok (ok v) next same = (v, refl, same)
