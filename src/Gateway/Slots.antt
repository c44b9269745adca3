-- ===== src/Gateway/Slots.antt =====
-- apps/lean-gateway/lean_langchain_gateway/server/runner.py: `_PoolLimitedRunner.run` called from many
-- threads. A thread makes no call, waits for the semaphore, or is inside the inner runner; the
-- scheduler chooses which thread moves.
pub mod Bound
pub mod Progress
use lean_lang_chain.Common.{ℕ, zero, suc, ◌+◌, ◌<◌, ◌≡◌, Option, none, some, List, [], ◌∷◌, ◌-◌}

pub data Phase : Type 0 where
  idle waiting running : Phase

-- the semaphore's value and the threads
pub record Slots : Type 0 where
  pub free : ℕ
  pub threads : List Phase

abbrev pub thread : List Phase → ℕ → Option Phase
thread [] i = none
thread (p ∷ ps) zero = some p
thread (p ∷ ps) (suc i) = thread ps i

abbrev pub moved : List Phase → ℕ → Phase → List Phase
moved [] i q = []
moved (p ∷ ps) zero q = q ∷ ps
moved (p ∷ ps) (suc i) q = p ∷ moved ps i q

-- `threading.Semaphore(max_concurrent)`, before any call
abbrev pub initial : ℕ → List Phase → Slots
initial max_concurrent threads = record { free = max_concurrent; threads = threads }

-- a call reaches `acquire`; `acquire` takes a slot where one is free; the inner run ends, by a value
-- or by an exception, and `finally` gives the slot back
pub data Step : Slots → Slots → Type 0 where
  call :
      (s : Slots) (i : ℕ)
      → thread s.threads i ≡ some idle
      → Step s (record s { threads = moved s.threads i waiting })
  acquire :
      (s : Slots) (i : ℕ)
      → thread s.threads i ≡ some waiting
      → 0 < s.free
      → Step s (record { free = s.free - 1; threads = moved s.threads i running })
  release :
      (s : Slots) (i : ℕ)
      → thread s.threads i ≡ some running
      → Step s (record { free = s.free + 1; threads = moved s.threads i idle })

pub data Reach (s : Slots) : Slots → Type 0 where
  here : Reach s s
  next : {t u : Slots} → Reach s t → Step t u → Reach s u

-- the threads that are inside the inner runner
abbrev pub running_count : List Phase → ℕ
running_count [] = 0
running_count (running ∷ ps) = suc (running_count ps)
running_count (idle ∷ ps) = running_count ps
running_count (waiting ∷ ps) = running_count ps
