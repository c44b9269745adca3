-- ===== src/Gateway/Lsp/Served.antt =====
-- The process that `_get_or_create_lsp` of server/lsp_client.py hands out.
use lean_lang_chain.Common.{
  ℕ, zero, suc, String, ◌≡◌, refl, true, Option, none, some, List, [], ◌∷◌, eq_iff, arith,
  Bool-cases, inl, inr, length, leb, Bool, false, ◌||◌, Result,
}
use lean_lang_chain.Glob.{◌=ᶜ◌}
use lean_lang_chain.Gateway.Map.{lookup, erase, lookup-store, lookup-erase}
use lean_lang_chain.Gateway.Lsp.{
  Server, Client, Alive, add, create, reuse_or_create, get_or_create, start_lsp, make_room,
  evict_oldest, evict_from, drop_key, max_size, oldest_key, Startup, process_of,
}

evict_from-absent :
    (alive : Alive) (k : String) (c : Client) (entries : List (String × Server))
    → lookup k c.cache ≡ none
    → lookup k (evict_from alive c entries).cache ≡ none
unfolding drop_key
evict_from-absent alive k c [] h = h
evict_from-absent alive k c ((j, s) ∷ rest) h =
    ground (arith, lookup-erase (oldest_key j s.last_used rest) k c.cache)

-- An eviction brings in no workspace.
make_room-absent :
    (fuel : ℕ) (alive : Alive) (k : String) (c : Client)
    → lookup k c.cache ≡ none
    → lookup k (make_room fuel alive c).cache ≡ none
unfolding make_room evict_oldest
make_room-absent zero alive k c h = h
make_room-absent (suc fuel) alive k c h = elim (Bool-cases (leb max_size (length c.cache))) [
  | inl full ↦
      rw full (
        make_room-absent fuel alive k (evict_oldest alive c)
          (evict_from-absent alive k c c.cache h))
  | inr room ↦ rw room h
]

-- what the cache holds for the workspace that a process was handed out for
abbrev pub entry : ℕ → Option ℕ → Option Server
entry now none = none
entry now (some p) = some (record { proc = p; last_used = now })

lookup-add :
    (k : String) (now : ℕ) (p : Option ℕ) (m : List (String × Server))
    → lookup k m ≡ none
    → lookup k (add k now p m) ≡ entry now p
lookup-add k now none m h = h
lookup-add k now (some p) m h =
    ground (arith, eq_iff k k, lookup-store k k (record { proc = p; last_used = now }) m)

abbrev is_proc : ℕ → Option ℕ → Bool
is_proc q none = false
is_proc q (some p) = p =ᶜ q

-- a process that is handed out runs, or it was started for the call
abbrev pub is_usable : Alive → Option ℕ → Option ℕ → Bool
is_usable alive started none = true
is_usable alive started (some q) = alive q || is_proc q started

-- what a caller gets: the process is usable and in the cache under the workspace, used just now;
-- without one, or where the start raises, the workspace is not in the cache
abbrev pub IsServed : Alive → String → ℕ → Option ℕ → Result (Option ℕ) × Client → Type 0
IsServed alive k now started (r, c) =
    (lookup k c.cache ≡ entry now (process_of r)) × (is_usable alive started (process_of r) ≡ true)

is_usable_self : (alive : Alive) (p : Option ℕ) → is_usable alive p p ≡ true
is_usable_self alive none = refl
is_usable_self alive (some p) = ground arith

create-IsServed :
    (alive : Alive) (k : String) (now : ℕ) (start : Result (Option ℕ) × List ℕ) (c : Client)
    → lookup k c.cache ≡ none
    → IsServed alive k now (process_of start.0) (create alive k now start c)
unfolding create
create-IsServed alive k now (started, failed) c h = (
  lookup-add k now (process_of started) (make_room (length c.cache) alive c).cache
      (make_room-absent (length c.cache) alive k c h),
  is_usable_self alive (process_of started),
)

reuse_or_create-IsServed :
    (alive : Alive) (k : String) (now : ℕ) (start : Result (Option ℕ) × List ℕ) (c : Client)
    (found : Option Server)
    → lookup k c.cache ≡ found
    → IsServed alive k now (process_of start.0) (reuse_or_create alive k now start c found)
unfolding reuse_or_create
reuse_or_create-IsServed alive k now start c none h = create-IsServed alive k now start c h
reuse_or_create-IsServed alive k now start c (some s) h = elim (Bool-cases (alive s.proc)) [
  | inl live ↦ rw live (
    ground (arith, eq_iff k k, lookup-store k k (record s { last_used = now }) c.cache),
    rw live refl,
  )
  | inr dead ↦ rw dead (
      create-IsServed alive k now start (record c { cache = erase k c.cache })
        (ground (arith, eq_iff k k, lookup-erase k k c.cache)))
]

-- A request for a workspace's process never gets a cached process that has ended, and what it gets is
-- then in the cache under the workspace; where it gets none, or the start raises, the workspace is not
-- in the cache.
pub get_or_create-IsServed :
    (alive : Alive) (k : String) (now : ℕ) (u : Startup) (c : Client)
    → IsServed alive k now (process_of (start_lsp u).0) (get_or_create alive k now u c)
unfolding get_or_create
get_or_create-IsServed alive k now u c =
    reuse_or_create-IsServed alive k now (start_lsp u) c (lookup k c.cache) refl
