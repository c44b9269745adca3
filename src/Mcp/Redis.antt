-- ===== src/Mcp/Redis.antt =====
-- apps/orchestrator/lean_langchain_orchestrator/mcp_session_store.py: RedisMCPSessionStore over a server
-- that answers, in which a key expires `ttl` seconds after it was set. `dumps` and `loads` are those of the
-- json module; `loads` gives none where it raises. Times are the server's, in seconds.
use Prim.Native.String.{◌++◌ as text_append, ◌∷◌, []}
use mathlib.Core.List.{foldl}
use text.Mathlib.TextLemmas.{append_cancel_left}
use lean_lang_chain.Common.{
  List, [], ◌∷◌, String, ◌≡◌, refl, Bool, true, false, Option, none, some, ◌==◌, if◌then◌else◌,
  arith, eq_iff, Bool-cases, inl, inr, ap, ℕ, ◌≤◌, ◌<◌, ◌+◌, ltb, map,
}
use lean_lang_chain.Gateway.Map.{lookup, store, erase, lookup-store, lookup-erase}
use lean_lang_chain.Mcp.Store.{
  SessionRecord, Data, get, Change, save, remove, store_thread, erase_thread, thread_of, apply, set,
  delete,
}

-- a value, and when it expires
abbrev pub Entry : Type 0
Entry = String × ℕ

abbrev pub Server : Type 0
Server = List (String × Entry)

-- `GET`: the value of a key that is there and has not expired
abbrev pub unexpired : ℕ → Option Entry → Option String
unexpired now none = none
unexpired now (some (raw, expires)) = if ltb now expires then some raw else none

abbrev pub key_of : String → String
key_of k = text_append "obr:mcp:" k

key_of-eq : (k j : String) → (key_of k == key_of j) ≡ (k == j)
key_of-eq k j =
    ground (arith, eq_iff k j, eq_iff (key_of k) (key_of j), append_cancel_left "obr:mcp:" k j)

-- Two tests on one condition agree where their branches do.
either_branch {ℓ κ} :
    {A : Type ℓ} {B : Type κ} (f : A → B) (b : Bool) {x y : A} {u v : B}
    → f x ≡ u
    → f y ≡ v
    → f (if b then x else y) ≡ (if b then u else v)
either_branch f true p q = p
either_branch f false p q = q

-- a change at a time
abbrev pub Timed : Type 0
Timed = ℕ × Change

module _ (dumps : SessionRecord → String) (loads : String → Option SessionRecord) (ttl : ℕ) where
  abbrev decoded : Option String → Option SessionRecord
  decoded none = none
  decoded (some raw) = loads raw

  unfoldable pub redis_get : ℕ → String → Server → Option SessionRecord
  unfolding lookup
  redis_get now key server = decoded (unexpired now (lookup (key_of key) server))

  -- what SETEX keeps of a record
  abbrev set_at : ℕ → SessionRecord → Entry
  set_at now r = (dumps r, now + ttl)

  unfoldable pub redis_set : ℕ → SessionRecord → Server → Server
  unfolding store
  redis_set now r server =
      store_thread key_of r.thread_id (set_at now r)
        (store (key_of r.session_id) (set_at now r) server)

  unfoldable pub redis_delete : ℕ → String → Server → Server
  unfolding erase redis_get
  redis_delete now session server =
      erase_thread key_of (thread_of (redis_get now session server)) (erase (key_of session) server)

  unfoldable pub redis_apply : Server → Timed → Server
  unfolding redis_set redis_delete
  redis_apply server (now, save r) = redis_set now r server
  redis_apply server (now, remove session) = redis_delete now session server

  -- JSON keeps the record
  abbrev pub Kept : SessionRecord → Type 0
  Kept r = loads (dumps r) ≡ some r

  -- each change is made by the time `last`, and each record is kept by JSON and has then not expired
  abbrev pub AllKept : ℕ → List Timed → Type 0
  AllKept last [] = Unit {0}
  AllKept last ((now, save r) ∷ cs) = Kept r × (now ≤ last) × (last < now + ttl) × AllKept last cs
  AllKept last ((now, remove session) ∷ cs) = (now ≤ last) × AllKept last cs

  module _ (last : ℕ) where
    -- up to the time `last` the two stores answer alike
    abbrev pub Agree : Data → Server → Type 0
    Agree d server = (now : ℕ) → now ≤ last → (key : String) → redis_get now key server ≡ get key d

    store-Agree :
        (r : SessionRecord) (at : ℕ)
        → Kept r
        → last < at + ttl
        → (k : String) (d : Data) (server : Server) → Agree d server
        → Agree (store k r d) (store (key_of k) (set_at at r) server)
    unfolding redis_get get
    store-Agree r at kept fresh k d server h now le key =
        rw
          (
            lookup-store (key_of k) (key_of key) (set_at at r) server,
            lookup-store k key r d,
            key_of-eq k key,
          )
          (either_branch (λ o. decoded (unexpired now o)) (k == key) (rw (unexpired_at now le) kept)
            (h now le key))
      where
        unexpired_at : (now : ℕ) → now ≤ last → ltb now (at + ttl) ≡ true
        unexpired_at now le = ground arith

    erase-Agree :
        (k : String) (d : Data) (server : Server)
        → Agree d server
        → Agree (erase k d) (erase (key_of k) server)
    unfolding redis_get get
    erase-Agree k d server h now le key =
        rw (lookup-erase (key_of k) (key_of key) server, lookup-erase k key d, key_of-eq k key)
          (either_branch (λ o. decoded (unexpired now o)) (k == key) refl (h now le key))

    store_thread-Agree :
        (r : SessionRecord) (at : ℕ)
        → Kept r
        → last < at + ttl
        → (t : Option String) (d : Data) (server : Server) → Agree d server
        → Agree (store_thread (λ k. k) t r d) (store_thread key_of t (set_at at r) server)
    store_thread-Agree r at kept fresh none d server h = h
    store_thread-Agree r at kept fresh (some t) d server h = elim (Bool-cases (t == "")) [
      | inl e ↦ rw e h
      | inr e ↦ rw e (store-Agree r at kept fresh t d server h)
    ]

    erase_thread-Agree :
        (t : Option String) (d : Data) (server : Server)
        → Agree d server
        → Agree (erase_thread (λ k. k) t d) (erase_thread key_of t server)
    erase_thread-Agree none d server h = h
    erase_thread-Agree (some t) d server h = elim (Bool-cases (t == "")) [
      | inl e ↦ rw e h
      | inr e ↦ rw e (erase-Agree t d server h)
    ]

    save-Agree :
        (r : SessionRecord) (at : ℕ) (d : Data) (server : Server)
        → Kept r
        → last < at + ttl
        → Agree d server
        → Agree (set r d) (redis_set at r server)
    unfolding set redis_set
    save-Agree r at d server kept fresh h =
        store_thread-Agree r at kept fresh r.thread_id (store r.session_id r d)
          (store (key_of r.session_id) (set_at at r) server)
          (store-Agree r at kept fresh r.session_id d server h)

    remove-Agree :
        (session : String) (at : ℕ) (d : Data) (server : Server)
        → at ≤ last
        → Agree d server
        → Agree (delete session d) (redis_delete at session server)
    unfolding delete redis_delete get
    remove-Agree session at d server le h = rw (ap thread_of (h at le session)) (
        erase_thread-Agree (thread_of (get session d)) (erase session d)
          (erase (key_of session) server) (erase-Agree session d server h))

    run-Agree :
        (changes : List Timed) (d : Data) (server : Server)
        → AllKept last changes
        → Agree d server
        → Agree
            (foldl apply d (map (λ (c : Timed). c.1) changes))
            (foldl redis_apply server changes)
    unfolding apply redis_apply
    run-Agree [] d server kept h = h
    run-Agree ((at, save r) ∷ cs) d server (kept, le, fresh, rest) h =
        run-Agree cs (set r d) (redis_set at r server) rest (save-Agree r at d server kept fresh h)
    run-Agree ((at, remove session) ∷ cs) d server (le, rest) h =
        run-Agree cs (delete session d) (redis_delete at session server) rest
          (remove-Agree session at d server le h)

    -- At a time by which every change was made and no saved record is older than the time to live, the
    -- store in Redis answers every key as the store in memory does, where the server started empty and
    -- JSON keeps each record that was saved.
    pub redis_get-get :
        (changes : List Timed) (key : String)
        → AllKept last changes
        → redis_get last key (foldl redis_apply [] changes)
          ≡ get key (foldl apply [] (map (λ (c : Timed). c.1) changes))
    unfolding redis_get get
    redis_get-get changes key kept =
        run-Agree changes [] [] kept (λ now le k. refl) last (omega arith) key
