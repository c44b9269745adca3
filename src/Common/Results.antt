-- ===== src/Common/Results.antt =====
-- A Python call returns a value or raises; the exceptions are those that the code raises or
-- catches.
use mathlib.Core.Path.{◌≡◌, refl}

pub data Exc : Type 0 where
  attribute_error key_error type_error value_error file_not_found runtime_error api_error : Exc

-- `raise e` is the exception on its way out
pub data Result {ℓ} (R : Type ℓ) : Type ℓ where
  raise : Exc → Result R
  ok : R → Result R

module _ {ℓ κ} {A : Type ℓ} {B : Type κ} where
  infixl 5 ◌>>=◌ ◌>>◌
  -- what follows an exception is not run
  abbrev pub ◌>>=◌ : Result A → (A → Result B) → Result B
  raise x >>= next = raise x
  ok v >>= next = next v

  abbrev pub ◌>>◌ : Result A → Result B → Result B
  first >> second = first >>= λ _. second

module _ {ℓ κ} {A : Type ℓ} {B : Type κ} where
  -- A bind that returns has a first part that returns, and goes on from its value.
  pub >>=-eq-ok :
      (first : Result A) (next : A → Result B) {w : B}
      → (first >>= next) ≡ ok w
      → (v : A) × (first ≡ ok v) × (next v ≡ ok w)
  >>=-eq-ok (raise x) next e = cc
  >>=-eq-ok (ok v) next e = (v, refl, e)

pub ok-injective {ℓ} : {A : Type ℓ} {a b : A} → ok a ≡ ok b → a ≡ b
ok-injective h = cc
