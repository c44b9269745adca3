-- ===== src/Json.antt =====
-- The Python values that the code passes around as JSON: dictionaries, lists, text, integers,
-- truth values and None. Floats are left out. `get` is `dict.get` with None as its default.
pub mod Equality
pub mod Laws
use lean_lang_chain.Common.{
  ℕ, zero, suc, String, Bool, true, false, List, [], ◌∷◌, Result, ok, raise, attribute_error, ◌==◌,
  if◌then◌else◌, not,
}

-- Python's integers; `negsuc n` is -(n + 1)
pub data ℤ : Type 0 where
  pos : ℕ → ℤ
  negsuc : ℕ → ℤ

mutual
  pub data Json : Type 0 where
    null : Json
    bool : Bool → Json
    int : ℤ → Json
    str : String → Json
    arr : Items → Json
    obj : Fields → Json

  pub data Items : Type 0 where
    nil : Items
    cons : Json → Items → Items

  -- a dictionary in its insertion order
  pub data Fields : Type 0 where
    end : Fields
    field : String → Json → Fields → Fields

unfoldable pub to_list : Items → List Json
to_list nil = []
to_list (cons x xs) = x ∷ to_list xs

unfoldable pub from_list : List Json → Items
from_list [] = nil
from_list (x ∷ xs) = cons x (from_list xs)

-- `fs.get(k, d)`
unfoldable pub get_or : String → Json → Fields → Json
get_or k d end = d
get_or k d (field j v fs) = if j == k then v else get_or k d fs

-- `fs.get(k)`
abbrev pub get : String → Fields → Json
get k fs = get_or k null fs

-- `k in fs`
unfoldable pub has_key : String → Fields → Bool
has_key k end = false
has_key k (field j v fs) = if j == k then true else has_key k fs

-- `fs[k] = v`; a new key goes to the end
unfoldable pub set : String → Json → Fields → Fields
set k v end = field k v end
set k v (field j w fs) = if j == k then field j v fs else field j w (set k v fs)

-- `fs.update(gs)`
unfoldable pub update : Fields → Fields → Fields
update fs end = fs
update fs (field k v gs) = update (set k v fs) gs

abbrev pub is_null : Json → Bool
is_null null = true
is_null _ = false

abbrev pub is_dict : Json → Bool
is_dict (obj fs) = true
is_dict _ = false

-- `x == "text"` for a literal text
abbrev pub is_str : String → Json → Bool
is_str s (str t) = t == s
is_str s _ = false

-- `x is True`, `x is False`
abbrev pub is_true : Json → Bool
is_true (bool b) = b
is_true _ = false

abbrev pub is_false : Json → Bool
is_false (bool b) = not b
is_false _ = false

abbrev int_truthy : ℤ → Bool
int_truthy (pos zero) = false
int_truthy _ = true

-- `bool(x)`
unfoldable pub truthy : Json → Bool
truthy null = false
truthy (bool b) = b
truthy (int n) = int_truthy n
truthy (str s) = not (s == "")
truthy (arr nil) = false
truthy (arr (cons x xs)) = true
truthy (obj end) = false
truthy (obj (field k v fs)) = true

-- `x or {}` and `x or []`, as far as the code goes on with them
unfoldable pub or_dict : Json → Json
unfolding truthy
or_dict x = if truthy x then x else obj end

unfoldable pub or_list : Json → Json
unfolding truthy
or_list x = if truthy x then x else arr nil

-- `x.get(k)` where `x` may be no dictionary
unfoldable pub dict_get : Json → String → Result Json
dict_get (obj fs) k = ok (get k fs)
dict_get _ k = raise attribute_error

-- `x.get(k, d)` where `x` may be no dictionary
unfoldable pub dict_get_or : Json → String → Json → Result Json
dict_get_or (obj fs) k d = ok (get_or k d fs)
dict_get_or _ k d = raise attribute_error

-- `x.get(k) if isinstance(x, dict) else None`
unfoldable pub dict_get? : Json → String → Json
dict_get? (obj fs) k = get k fs
dict_get? _ k = null

-- whether a value may be looked up in a set of texts
abbrev pub is_hashable : Json → Bool
is_hashable (arr xs) = false
is_hashable (obj fs) = false
is_hashable _ = true
