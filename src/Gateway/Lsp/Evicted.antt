-- ===== src/Gateway/Lsp/Evicted.antt =====
-- What becomes of the processes that `_evict_oldest` of server/lsp_client.py takes from the cache.
use lean_lang_chain.Common.{
  ℕ, zero, suc, String, ◌≡◌, refl, subst, sym, Bool, true, false, ◌||◌, Option, none, some, List,
  [], ◌∷◌, ◌==◌, eq_iff, arith, Bool-cases, inl, inr, length, leb, any,
}
use lean_lang_chain.Glob.{◌=ᶜ◌}
use lean_lang_chain.Gateway.Map.{lookup, lookup-erase}
use lean_lang_chain.Gateway.Lsp.{
  Server, Client, Alive, make_room, evict_oldest, evict_from, drop_key, max_size, oldest_key,
  ended_of,
}

-- whether the entry of a workspace is the process
abbrev pub holds : ℕ → Option Server → Bool
holds p none = false
holds p (some s) = s.proc =ᶜ p

-- whether the client has ended the process
abbrev pub ended : ℕ → List ℕ → Bool
ended p ps = any (λ q. q =ᶜ p) ps

-- the process of the workspace is in the cache, or the client has ended it
abbrev pub accounted : String → ℕ → Client → Bool
accounted j p c = holds p (lookup j c.cache) || ended p c.terminated

pub or_mono : (a : Bool) {b c : Bool} → (a || b) ≡ true → (b ≡ true → c ≡ true) → (a || c) ≡ true
or_mono true h f = refl
or_mono false h f = f h

module _ (alive : Alive) (p : ℕ) where
  ended_of-new :
      (found : Option Server) (ps : List ℕ)
      → alive p ≡ true
      → (holds p found || ended p ps) ≡ true
      → ended p (ended_of alive found ps) ≡ true
  ended_of-new none ps live h = h
  ended_of-new (some s) ps live h = ground arith

  ended_of-old :
      (found : Option Server) (ps : List ℕ)
      → ended p ps ≡ true
      → ended p (ended_of alive found ps) ≡ true
  ended_of-old none ps h = h
  ended_of-old (some s) ps h = ground arith

  drop_key-accounted :
      (k j : String) (c : Client)
      → alive p ≡ true
      → accounted j p c ≡ true
      → accounted j p (drop_key alive k c) ≡ true
  unfolding drop_key
  drop_key-accounted k j c live h = elim (Bool-cases (k == j)) [
    | inl same ↦
        let e : k ≡ j = (eq_iff k j).0 same in
        rw (lookup-erase k j c.cache, same)
          (ended_of-new (lookup k c.cache) c.terminated live
            (subst (λ i. (holds p (lookup i c.cache) || ended p c.terminated) ≡ true) (sym e) h))
    | inr other ↦
        rw (lookup-erase k j c.cache, other)
          (or_mono (holds p (lookup j c.cache)) h (ended_of-old (lookup k c.cache) c.terminated))
  ]

  evict_from-accounted :
      (j : String) (c : Client) (entries : List (String × Server))
      → alive p ≡ true
      → accounted j p c ≡ true
      → accounted j p (evict_from alive c entries) ≡ true
  evict_from-accounted j c [] live h = h
  evict_from-accounted j c ((k, s) ∷ rest) live h =
      drop_key-accounted (oldest_key k s.last_used rest) j c live h

  pub make_room-accounted :
      (fuel : ℕ) (j : String) (c : Client)
      → alive p ≡ true
      → accounted j p c ≡ true
      → accounted j p (make_room fuel alive c) ≡ true
  unfolding make_room evict_oldest
  make_room-accounted zero j c live h = h
  make_room-accounted (suc fuel) j c live h = elim (Bool-cases (leb max_size (length c.cache))) [
    | inl full ↦ rw full (
        make_room-accounted fuel j (evict_oldest alive c) live
          (evict_from-accounted j c c.cache live h))
    | inr room ↦ rw room h
  ]

  evict_from-ended :
      (c : Client) (entries : List (String × Server))
      → ended p c.terminated ≡ true
      → ended p (evict_from alive c entries).terminated ≡ true
  unfolding drop_key
  evict_from-ended c [] h = h
  evict_from-ended c ((k, s) ∷ rest) h =
      ended_of-old (lookup (oldest_key k s.last_used rest) c.cache) c.terminated h

  pub make_room-ended :
      (fuel : ℕ) (c : Client)
      → ended p c.terminated ≡ true
      → ended p (make_room fuel alive c).terminated ≡ true
  unfolding make_room evict_oldest
  make_room-ended zero c h = h
  make_room-ended (suc fuel) c h = elim (Bool-cases (leb max_size (length c.cache))) [
    | inl full ↦
        rw full (make_room-ended fuel (evict_oldest alive c) (evict_from-ended c c.cache h))
    | inr room ↦ rw room h
  ]
