-- ===== src/Gateway/Lsp.antt =====
-- apps/lean-gateway/lean_langchain_gateway/server/lsp_client.py: the cache of language servers, one
-- process for each workspace. Processes are numbers; which of them still run, the clock and what the
-- start of a process answers are arguments. Each operation runs under the client's lock.
pub mod Oldest
pub mod Bound
pub mod Served
pub mod Evicted
pub mod Stopped
pub mod Requests
pub mod Messages
use lean_lang_chain.Common.{
  ℕ, zero, suc, String, Bool, true, false, Option, none, some, List, [], ◌∷◌, leb, ltb,
  if◌then◌else◌, length, Result, ok, raise, value_error, runtime_error,
}
use lean_lang_chain.Json.{Json, Fields, has_key}
use lean_lang_chain.Gateway.Map.{lookup, store, erase}

pub record Server : Type 0 where
  pub proc : ℕ
  pub last_used : ℕ

-- the cache, and the processes that the client has ended
pub record Client : Type 0 where
  pub cache : List (String × Server)
  pub terminated : List ℕ

abbrev pub max_size : ℕ
max_size = 8

-- whether a process still runs (`poll() is None`)
abbrev pub Alive : Type 0
Alive = ℕ → Bool

-- Python's `min` with a key: the first of the least
unfoldable pub oldest_key : String → ℕ → List (String × Server) → String
oldest_key k t [] = k
oldest_key k t ((j, s) ∷ c) =
    oldest_key (if ltb s.last_used t then j else k) (if ltb s.last_used t then s.last_used else t) c

abbrev pub ended_of : Alive → Option Server → List ℕ → List ℕ
ended_of alive none ps = ps
ended_of alive (some s) ps = if alive s.proc then s.proc ∷ ps else ps

unfoldable pub drop_key : Alive → String → Client → Client
unfolding lookup erase
drop_key alive k c = record {
  cache = erase k c.cache;
  terminated = ended_of alive (lookup k c.cache) c.terminated;
}

abbrev pub evict_from : Alive → Client → List (String × Server) → Client
evict_from alive c [] = c
evict_from alive c ((k, s) ∷ rest) = drop_key alive (oldest_key k s.last_used rest) c

-- `_evict_oldest`
unfoldable pub evict_oldest : Alive → Client → Client
unfolding drop_key oldest_key
evict_oldest alive c = evict_from alive c c.cache

-- `while len(_LSP_CACHE) >= _LSP_MAX_SIZE`, for at most `fuel` rounds
unfoldable pub make_room : ℕ → Alive → Client → Client
unfolding evict_oldest
make_room zero alive c = c
make_room (suc fuel) alive c =
    let rest = make_room fuel alive (evict_oldest alive c) in
    if leb max_size (length c.cache) then rest else c

-- the first message that is read from a process: one that json.loads refuses, none, or a dictionary
pub data Reply : Type 0 where
  unreadable silent : Reply
  message : Fields → Reply

-- What the start of a process meets: the process that `Popen` starts, where it does, whether the two
-- writes to it succeed, what is read from it, and whether it ends in time when it is told to.
pub record Startup : Type 0 where
  pub popen : Option ℕ
  pub first_write : Bool
  pub reply : Reply
  pub ends_in_time : Bool
  pub second_write : Bool

-- the process is told to end, and `wait(timeout=2)` may raise TimeoutExpired
abbrev pub given_up : ℕ → Bool → Result (Option ℕ) × List ℕ
given_up p ends = if ends then (ok none, p ∷ []) else (raise runtime_error, p ∷ [])

abbrev pub after_reply : ℕ → Startup → Reply → Result (Option ℕ) × List ℕ
after_reply p u unreadable = (raise value_error, [])
after_reply p u silent = given_up p u.ends_in_time
after_reply p u (message fs) =
    if has_key "result" fs
    then (if u.second_write then (ok (some p), []) else (raise runtime_error, []))
    else given_up p u.ends_in_time

abbrev pub after_popen : Startup → Option ℕ → Result (Option ℕ) × List ℕ
after_popen u none = (ok none, [])
after_popen u (some p) =
    if u.first_write then after_reply p u u.reply else (raise runtime_error, [])

-- `_start_lsp`: what it returns, and the processes that it ends; an error of a pipe is a runtime_error
unfoldable pub start_lsp : Startup → Result (Option ℕ) × List ℕ
unfolding has_key
start_lsp u = after_popen u u.popen

-- the process that is handed out
abbrev pub process_of : Result (Option ℕ) → Option ℕ
process_of (ok p) = p
process_of (raise e) = none

abbrev pub add : String → ℕ → Option ℕ → List (String × Server) → List (String × Server)
add k now none c = c
add k now (some p) c = store k (record { proc = p; last_used = now }) c

abbrev pub with_ended : List ℕ → List ℕ → List ℕ
with_ended [] ps = ps
with_ended (p ∷ new) ps = p ∷ with_ended new ps

unfoldable pub create :
    Alive → String → ℕ → Result (Option ℕ) × List ℕ → Client → Result (Option ℕ) × Client
unfolding make_room store
create alive k now (started, failed) c =
    let c' = make_room (length c.cache) alive c in
    (
      started,
      record {
        cache = add k now (process_of started) c'.cache;
        terminated = with_ended failed c'.terminated;
      },
    )

-- what the cache holds for the workspace; a dead process is forgotten
unfoldable pub reuse_or_create :
    Alive
    → String
    → ℕ
    → Result (Option ℕ) × List ℕ
    → Client
    → Option Server
    → Result (Option ℕ) × Client
unfolding create store erase
reuse_or_create alive k now start c none = create alive k now start c
reuse_or_create alive k now start c (some s) =
    if alive s.proc
    then (ok (some s.proc), record c { cache = store k (record s { last_used = now }) c.cache })
    else create alive k now start (record c { cache = erase k c.cache })

-- `_get_or_create_lsp`
unfoldable pub get_or_create : Alive → String → ℕ → Startup → Client → Result (Option ℕ) × Client
unfolding reuse_or_create start_lsp lookup
get_or_create alive k now u c = reuse_or_create alive k now (start_lsp u) c (lookup k c.cache)

abbrev pub touched : String → ℕ → Option Server → List (String × Server) → List (String × Server)
touched k now none c = c
touched k now (some s) c = store k (record s { last_used = now }) c

-- `_touch_lsp`
unfoldable pub touch : String → ℕ → Client → Client
unfolding lookup store
touch k now c = record c { cache = touched k now (lookup k c.cache) c.cache }
