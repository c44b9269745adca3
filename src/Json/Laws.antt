-- ===== src/Json/Laws.antt =====
-- Laws of dictionaries: lookup after a write and after an update.
use lean_lang_chain.Common.{
  String, ◌≡◌, refl, true, false, sym, arith, ◌==◌, eq_iff, if◌then◌else◌, subst,
}
use lean_lang_chain.Json.{Json, Fields, end, field, get_or, has_key, set, str, is_str, get, is_null}

-- A lookup with a default after a write.
pub get_or-set :
    (k j : String) (d v : Json) (fs : Fields)
    → get_or j d (set k v fs) ≡ (if k == j then v else get_or j d fs)
unfolding get_or set
get_or-set k j d v end = refl
get_or-set k j d v (field i w fs) =
    ground (arith, eq_iff k j, eq_iff i k, eq_iff i j, get_or-set k j d v fs)

pub has_key-set :
    (k j : String) (v : Json) (fs : Fields)
    → has_key j (set k v fs) ≡ (if k == j then true else has_key j fs)
unfolding has_key set
has_key-set k j v end = refl
has_key-set k j v (field i w fs) =
    ground (arith, eq_iff k j, eq_iff i k, eq_iff i j, has_key-set k j v fs)

-- One value equals at most one of two different texts.
pub is_str-ne :
    (a b : String) → (a == b) ≡ false → (j : Json) → is_str a j ≡ true → is_str b j ≡ false
is_str-ne a b e (str t) h = subst (λ u. (u == b) ≡ false) (sym ((eq_iff t a).0 h)) e
is_str-ne a b e _ h = refl

-- The default of a lookup does not matter to a key that holds more than None.
pub get_or-default :
    (k : String) (d : Json) (fs : Fields) → is_null (get k fs) ≡ false → get_or k d fs ≡ get k fs
unfolding get_or
get_or-default k d end h = absurd cc
get_or-default k d (field j v fs) h = ground (arith, get_or-default k d fs)
