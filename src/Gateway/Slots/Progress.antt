-- ===== src/Gateway/Slots/Progress.antt =====
-- Progress of the pool that the environment selects (server/runner.py): a waiting call can be served.
use lean_lang_chain.Common.{ℕ, zero, suc, ◌+◌, ◌<◌, ◌≡◌, refl, Bool, some, List, [], ◌∷◌, ok, arith}
use native.Mathlib.Decide.{dec_lt}
use lean_lang_chain.Gateway.Runners.{Env, LeanRunner, pool_limited}
use lean_lang_chain.Gateway.Runners.Select.{get_runner}
use lean_lang_chain.Gateway.Runners.Pooled.{get_runner-IsPooled}
use lean_lang_chain.Gateway.Slots.{
  Phase, idle, waiting, running, Slots, thread, moved, initial, acquire, release, Reach, here, next,
  running_count,
}
use lean_lang_chain.Gateway.Slots.Bound.{Reach-total}

thread-moved_self :
    (ps : List Phase) (i : ℕ) (p q : Phase)
    → thread ps i ≡ some p
    → thread (moved ps i q) i ≡ some q
thread-moved_self [] i p q h = cc
thread-moved_self (x ∷ ps) zero p q h = refl
thread-moved_self (x ∷ ps) (suc i) p q h = thread-moved_self ps i p q h

-- A thread keeps its phase when a thread of another phase moves.
thread-moved_other :
    (ps : List Phase) (i j : ℕ) (q : Phase)
    → thread ps i ≡ some waiting
    → thread ps j ≡ some running
    → thread (moved ps j q) i ≡ some waiting
thread-moved_other [] i j q h k = cc
thread-moved_other (x ∷ ps) zero zero q h k = absurd cc
thread-moved_other (x ∷ ps) zero (suc j) q h k = h
thread-moved_other (x ∷ ps) (suc i) zero q h k = h
thread-moved_other (x ∷ ps) (suc i) (suc j) q h k = thread-moved_other ps i j q h k

running_thread : (ps : List Phase) → 0 < running_count ps → (j : ℕ) × (thread ps j ≡ some running)
running_thread [] h = elim h [ ]
running_thread (running ∷ ps) h = (0, refl)
running_thread (idle ∷ ps) h = let (j, e) = running_thread ps h in (suc j, e)
running_thread (waiting ∷ ps) h = let (j, e) = running_thread ps h in (suc j, e)

-- the thread is inside the inner runner after some moves
abbrev pub CanRun : Slots → ℕ → Type 0
CanRun s i = (t : Slots) × Reach s t × (thread t.threads i ≡ some running)

acquire_now : (s : Slots) (i : ℕ) → thread s.threads i ≡ some waiting → 0 < s.free → CanRun s i
acquire_now s i h free =
    (_, next here (acquire s i h free), thread-moved_self s.threads i waiting running h)

release_first :
    (s : Slots) (i j : ℕ)
    → thread s.threads i ≡ some waiting
    → thread s.threads j ≡ some running
    → CanRun s i
release_first s i j h k =
    let s' : Slots = record { free = s.free + 1; threads = moved s.threads j idle } in
    let w = thread-moved_other s.threads i j idle h k in
    (
      _,
      next (next here (release s j k)) (acquire s' i w (omega arith)),
      thread-moved_self s'.threads i waiting running w,
    )

can_run :
    (s : Slots) (i : ℕ)
    → 0 < s.free + running_count s.threads
    → thread s.threads i ≡ some waiting
    → CanRun s i
can_run s i h w = elim (dec_lt 0 s.free) [
  | yes free ↦ acquire_now s i w free
  | no full ↦ let (j, k) = running_thread s.threads (omega arith) in release_first s i j w k
]

-- In a pool that the environment selects, a call that waits for a slot can get it, whatever the
-- scheduler did before, if no call was running at the start.
pub pool-CanRun :
    (env : Env) (lane : Bool) (inner : LeanRunner) (n : ℕ) (threads : List Phase) (s : Slots)
    (i : ℕ)
    → get_runner env lane ≡ ok (pool_limited inner n)
    → running_count threads ≡ 0
    → Reach (initial n threads) s
    → thread s.threads i ≡ some waiting
    → CanRun s i
pool-CanRun env lane inner n threads s i e h r w =
    let (room, plain) = get_runner-IsPooled env lane e in
    can_run s i (omega (arith, Reach-total r)) w
