-- ===== src/Gateway/Lsp/Oldest.antt =====
-- What `_evict_oldest` of server/lsp_client.py removes: an entry of the cache, used least recently.
use lean_lang_chain.Common.{
  ℕ, ◌<◌, String, ◌≡◌, refl, Bool, true, false, List, [], ◌∷◌, ltb, if◌then◌else◌, eq_iff, arith,
  length, is_some, subst, sym,
}
use lean_lang_chain.Gateway.Map.{lookup}
use lean_lang_chain.Gateway.Map.Lengths.{length-erase-lt}
use lean_lang_chain.Gateway.Lsp.{
  Server, Client, Alive, oldest_key, drop_key, evict_from, evict_oldest,
}

-- whether a dictionary has the key
abbrev pub has {ℓ} : {V : Type ℓ} → String → List (String × V) → Bool
has k m = is_some (lookup k m)

has_self {ℓ} : {V : Type ℓ} (k : String) (v : V) (m : List (String × V)) → has k ((k, v) ∷ m) ≡ true
unfolding lookup
has_self k v m = ground (arith, eq_iff k k)

has-cons {ℓ} :
    {V : Type ℓ} (k j : String) (v : V) (m : List (String × V))
    → has k m ≡ true
    → has k ((j, v) ∷ m) ≡ true
unfolding lookup
has-cons k j v m h = ground (arith, eq_iff j k)

-- The key that is removed is one of those looked at.
oldest_key-present :
    (k : String) (t : ℕ) (c m : List (String × Server))
    → has k m ≡ true
    → ((j : String) → has j c ≡ true → has j m ≡ true)
    → has (oldest_key k t c) m ≡ true
unfolding oldest_key
oldest_key-present k t [] m h sub = h
oldest_key-present k t ((j, s) ∷ c) m h sub =
    oldest_key-present (if ltb s.last_used t then j else k)
      (if ltb s.last_used t then s.last_used else t) c m (choose (ltb s.last_used t))
      (λ i e. sub i (has-cons i j s c e))
  where
    choose : (b : Bool) → has (if b then j else k) m ≡ true
    choose true = sub j (has_self j s c)
    choose false = h

drop_key-lt :
    (alive : Alive) (k : String) (c : Client)
    → has k c.cache ≡ true
    → length (drop_key alive k c).cache < length c.cache
unfolding drop_key
drop_key-lt alive k c h = length-erase-lt k c.cache h

evict_from-lt :
    (alive : Alive) (c : Client) (entries : List (String × Server))
    → c.cache ≡ entries
    → 0 < length entries
    → length (evict_from alive c entries).cache < length c.cache
evict_from-lt alive c [] e h = elim h [ ]
evict_from-lt alive c ((k, s) ∷ rest) e h = drop_key-lt alive (oldest_key k s.last_used rest) c (
    subst (λ m. has (oldest_key k s.last_used rest) m ≡ true) (sym e)
      (oldest_key-present k s.last_used rest ((k, s) ∷ rest) (has_self k s rest)
        (λ j present. has-cons j k s rest present)))

-- An eviction makes a cache that is not empty smaller.
pub evict_oldest-lt :
    (alive : Alive) (c : Client)
    → 0 < length c.cache
    → length (evict_oldest alive c).cache < length c.cache
unfolding evict_oldest
evict_oldest-lt alive c h = evict_from-lt alive c c.cache refl h
