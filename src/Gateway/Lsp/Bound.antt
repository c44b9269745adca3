-- ===== src/Gateway/Lsp/Bound.antt =====
-- The size of the cache of server/lsp_client.py under any requests.
use mathlib.Core.List.{foldl}
use lean_lang_chain.Common.{
  ℕ, zero, suc, ◌≤◌, ◌<◌, String, ◌≡◌, refl, ap, Option, none, some, List, [], ◌∷◌, leb, arith,
  Result, length, is_some, Bool-cases, inl, inr,
}
use lean_lang_chain.Gateway.Map.{lookup, store, erase}
use lean_lang_chain.Gateway.Map.Lengths.{length-store-le, length-store_present}
use lean_lang_chain.Gateway.Lsp.{
  Server, Client, Alive, max_size, add, touched, evict_oldest, make_room, create, reuse_or_create,
  get_or_create, start_lsp, touch, Startup, process_of,
}
use lean_lang_chain.Gateway.Lsp.Oldest.{evict_oldest-lt}

-- The loop has rounds enough where it may go round once for each entry: it ends below the limit.
pub make_room-lt :
    (fuel : ℕ) (alive : Alive) (c : Client)
    → length c.cache ≤ fuel
    → length (make_room fuel alive c).cache < max_size
unfolding make_room
make_room-lt zero alive c h = omega arith
make_room-lt (suc fuel) alive c h = elim (Bool-cases (leb max_size (length c.cache))) [
  | inl full ↦ rw full (
      make_room-lt fuel alive (evict_oldest alive c)
        (omega (arith, evict_oldest-lt alive c (ground arith))))
  | inr room ↦ rw room (ground arith)
]

add-le :
    (k : String) (now : ℕ) (p : Option ℕ) (m : List (String × Server))
    → length m < max_size
    → length (add k now p m) ≤ max_size
add-le k now none m h = omega arith
add-le k now (some p) m h =
    omega (arith, length-store-le k (record { proc = p; last_used = now }) m)

store-le :
    (k : String) (v : Server) (m : List (String × Server)) {s : Server}
    → lookup k m ≡ some s
    → length m ≤ max_size
    → length (store k v m) ≤ max_size
store-le k v m e h = omega (arith, length-store_present k v m (ap is_some e))

create-le :
    (alive : Alive) (k : String) (now : ℕ) (start : Result (Option ℕ) × List ℕ) (c : Client)
    → length (create alive k now start c).1.cache ≤ max_size
unfolding create
create-le alive k now (started, failed) c =
    add-le k now (process_of started) (make_room (length c.cache) alive c).cache
      (make_room-lt (length c.cache) alive c (omega arith))

reuse_or_create-le :
    (alive : Alive) (k : String) (now : ℕ) (start : Result (Option ℕ) × List ℕ) (c : Client)
    (found : Option Server)
    → lookup k c.cache ≡ found
    → length c.cache ≤ max_size
    → length (reuse_or_create alive k now start c found).1.cache ≤ max_size
unfolding reuse_or_create
reuse_or_create-le alive k now start c none e h = create-le alive k now start c
reuse_or_create-le alive k now start c (some s) e h = elim (Bool-cases (alive s.proc)) [
  | inl live ↦ rw live (store-le k (record s { last_used = now }) c.cache e h)
  | inr dead ↦ rw dead (create-le alive k now start (record c { cache = erase k c.cache }))
]

touched-le :
    (k : String) (now : ℕ) (found : Option Server) (m : List (String × Server))
    → lookup k m ≡ found
    → length m ≤ max_size
    → length (touched k now found m) ≤ max_size
touched-le k now none m e h = h
touched-le k now (some s) m e h = store-le k (record s { last_used = now }) m e h

-- what a handler does under the client's lock
pub data Request : Type 0 where
  get : (alive : Alive) (key : String) (now : ℕ) (startup : Startup) → Request
  use_again : (key : String) (now : ℕ) → Request

unfoldable pub handle : Client → Request → Client
unfolding get_or_create touch
handle c (get alive key now u) = (get_or_create alive key now u c).1
handle c (use_again key now) = touch key now c

handle-le :
    (c : Client) (r : Request) → length c.cache ≤ max_size → length (handle c r).cache ≤ max_size
unfolding handle get_or_create touch
handle-le c (get alive key now u) h =
    reuse_or_create-le alive key now (start_lsp u) c (lookup key c.cache) refl h
handle-le c (use_again key now) h = touched-le key now (lookup key c.cache) c.cache refl h

-- After any requests the cache holds at most eight processes, if it did before them.
pub handle_all-le :
    (requests : List Request) (c : Client)
    → length c.cache ≤ max_size
    → length (foldl handle c requests).cache ≤ max_size
handle_all-le [] c h = h
handle_all-le (r ∷ requests) c h = handle_all-le requests (handle c r) (handle-le c r h)
