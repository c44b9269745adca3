-- ===== src/Gateway/Sessions.antt =====
-- apps/lean-gateway/lean_langchain_gateway/server/session_manager.py and worker_pool.py. Paths are
-- texts, and the clock's reading and a fresh identifier are arguments.
use lean_lang_chain.Common.{
  ℕ, String, ◌≡◌, refl, Bool, true, Option, none, some, List, [], ◌∷◌, Result, ok, raise, key_error,
  ◌==◌, if◌then◌else◌, arith, eq_iff,
}
use lean_lang_chain.Gateway.Map.{lookup, store, erase, lookup-store, lookup-erase}

pub record SessionLease : Type 0 where
  pub session_id : String
  pub fingerprint_id : String
  pub workspace_path : String
  pub started_at : ℕ
  pub last_used_at : ℕ

abbrev pub Sessions : Type 0
Sessions = List (String × SessionLease)

unfoldable pub register : SessionLease → Sessions → Sessions
unfolding store
register lease s = store lease.session_id lease s

unfoldable pub get_lease : String → Sessions → Result SessionLease
unfolding lookup
get_lease session s = elim (lookup session s) [ some lease ↦ ok lease | none ↦ raise key_error ]

unfoldable pub release : String → Sessions → Sessions
unfolding erase
release session s = erase session s

-- A registered session is found until it is released, and then not; other sessions stay as they
-- are.
pub get_lease-register :
    (lease : SessionLease) (session : String) (s : Sessions)
    → (get_lease session (register lease s)
        ≡ (if lease.session_id == session then ok lease else get_lease session s))
      × (get_lease session (release lease.session_id s)
          ≡ (if lease.session_id == session then raise key_error else get_lease session s))
unfolding get_lease register release
get_lease-register lease session s = (
  ground (arith, lookup-store lease.session_id session lease s),
  ground (arith, lookup-erase lease.session_id session s),
)

pub record Worker : Type 0 where
  pub worker_id : String
  pub fingerprint_id : String
  pub workspace_path : String
  pub warm : Bool
  pub last_used_at : ℕ

abbrev pub WorkerPool : Type 0
WorkerPool = List (String × List Worker)

-- the first worker of a fingerprint is used again; the workspace of the call counts for a new one
unfoldable pub acquire_from :
    String → String → ℕ → String → WorkerPool → List Worker → Worker × WorkerPool
unfolding store
acquire_from fingerprint workspace now fresh pool [] =
    let w : Worker = record {
      worker_id = fresh;
      fingerprint_id = fingerprint;
      workspace_path = workspace;
      warm = true;
      last_used_at = now;
    } in
    (w, store fingerprint (w ∷ []) pool)
acquire_from fingerprint workspace now fresh pool (w ∷ ws) =
    let used = record w { last_used_at = now } in (used, store fingerprint (used ∷ ws) pool)

abbrev pub workers_of : Option (List Worker) → List Worker
workers_of none = []
workers_of (some ws) = ws

unfoldable pub acquire : String → String → ℕ → String → WorkerPool → Worker × WorkerPool
unfolding acquire_from lookup
acquire fingerprint workspace now fresh pool =
    acquire_from fingerprint workspace now fresh pool (workers_of (lookup fingerprint pool))

-- what is stored for the fingerprint after a call starts with the worker that the call returned
lookup-acquire_from :
    (fingerprint workspace : String) (now : ℕ) (fresh : String) (pool : WorkerPool)
    (ws : List Worker)
    → (rest : List Worker) × (lookup fingerprint
          (acquire_from fingerprint workspace now fresh pool ws).1
        ≡ some ((acquire_from fingerprint workspace now fresh pool ws).0 ∷ rest))
unfolding acquire_from
lookup-acquire_from f w t i pool [] =
    ([], ground (arith, lookup-store f f ((acquire_from f w t i pool []).0 ∷ []) pool, eq_iff f f))
lookup-acquire_from f w t i pool (x ∷ xs) = (
  xs,
  ground (arith, lookup-store f f ((acquire_from f w t i pool (x ∷ xs)).0 ∷ xs) pool, eq_iff f f),
)

-- A second call for the same fingerprint returns the worker of the first, with its workspace,
-- whatever workspace the second call asks for.
pub acquire-again :
    (fingerprint first_workspace second_workspace : String) (t t' : ℕ) (i i' : String)
    (pool : WorkerPool)
    → (acquire fingerprint second_workspace t' i'
        (acquire fingerprint first_workspace t i pool).1).0
      ≡ record (acquire fingerprint first_workspace t i pool).0 { last_used_at = t' }
unfolding acquire acquire_from
acquire-again f w w' t t' i i' pool =
    let (rest, e) = lookup-acquire_from f w t i pool (workers_of (lookup f pool)) in rw e refl
