-- ===== src/Gateway/Map/Lengths.antt =====
-- How many entries a dictionary has after a write and after a removal.
use lean_lang_chain.Common.{suc, ◌≤◌, ◌<◌, String, ◌≡◌, List, [], ◌∷◌, arith, length, is_some, true}
use lean_lang_chain.Gateway.Map.{lookup, store, erase}

module _ {ℓ} {V : Type ℓ} where
  pub length-store-le :
      (k : String) (v : V) (m : List (String × V)) → length (store k v m) ≤ suc (length m)
  unfolding store
  length-store-le k v [] = omega arith
  length-store-le k v ((j, w) ∷ m) = ground (arith, length-store-le k v m)

  pub length-store_present :
      (k : String) (v : V) (m : List (String × V))
      → is_some (lookup k m) ≡ true
      → length (store k v m) ≡ length m
  unfolding store lookup
  length-store_present k v [] h = cc
  length-store_present k v ((j, w) ∷ m) h = ground (arith, length-store_present k v m)

  pub length-erase-le : (k : String) (m : List (String × V)) → length (erase k m) ≤ length m
  unfolding erase
  length-erase-le k [] = omega arith
  length-erase-le k ((j, w) ∷ m) = ground (arith, length-erase-le k m)

  pub length-erase-lt :
      (k : String) (m : List (String × V))
      → is_some (lookup k m) ≡ true
      → length (erase k m) < length m
  unfolding erase lookup
  length-erase-lt k [] h = absurd cc
  length-erase-lt k ((j, w) ∷ m) h = ground (arith, length-erase-le k m, length-erase-lt k m)
