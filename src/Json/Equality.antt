-- ===== src/Json/Equality.antt =====
-- Python's `==` on JSON values: truth values are the numbers 0 and 1, and dictionaries are compared
-- without their order.
use lean_lang_chain.Common.{ℕ, zero, suc, String, ◌≡◌, Bool, true, false, ◌&&◌}
use lean_lang_chain.Json.{
  ℤ, pos, negsuc, Json, Items, Fields, null, bool, int, str, arr, obj, nil, cons, end, field, get,
  has_key, is_null, is_str,
}

abbrev pub nat_eq : ℕ → ℕ → Bool
nat_eq zero zero = true
nat_eq (suc m) (suc n) = nat_eq m n
nat_eq _ _ = false

abbrev int_eq : ℤ → ℤ → Bool
int_eq (pos m) (pos n) = nat_eq m n
int_eq (negsuc m) (negsuc n) = nat_eq m n
int_eq _ _ = false

abbrev bit : Bool → ℤ
bit true = pos 1
bit false = pos 0

abbrev is_int : ℤ → Json → Bool
is_int m (int n) = int_eq m n
is_int m (bool b) = int_eq m (bit b)
is_int m _ = false

unfoldable pub size : Fields → ℕ
size end = 0
size (field k v fs) = suc (size fs)

unfoldable mutual
  pub py_eq : Json → Json → Bool
  py_eq null y = is_null y
  py_eq (bool b) y = is_int (bit b) y
  py_eq (int n) y = is_int n y
  py_eq (str s) y = is_str s y
  py_eq (arr xs) (arr ys) = items_eq xs ys
  py_eq (arr xs) _ = false
  py_eq (obj fs) (obj gs) = nat_eq (size fs) (size gs) && fields_in fs gs
  py_eq (obj fs) _ = false

  items_eq : Items → Items → Bool
  items_eq nil nil = true
  items_eq (cons x xs) (cons y ys) = py_eq x y && items_eq xs ys
  items_eq _ _ = false

  -- every field of the first is in the second, with an equal value
  fields_in : Fields → Fields → Bool
  fields_in end gs = true
  fields_in (field k v fs) gs = has_key k gs && py_eq v (get k gs) && fields_in fs gs

-- A text equals just the same text.
pub py_eq-str : (s : String) (y : Json) → py_eq (str s) y ≡ is_str s y
unfolding py_eq
py_eq-str s y = λ i. is_str s y
