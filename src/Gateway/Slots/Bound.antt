-- ===== src/Gateway/Slots/Bound.antt =====
-- The invariant of the semaphore (server/runner.py): free slots and running threads add up.
use lean_lang_chain.Common.{ℕ, zero, suc, ◌+◌, ◌≤◌, ◌≡◌, refl, ◌∙◌, some, List, [], ◌∷◌, arith, ap}
use lean_lang_chain.Gateway.Slots.{
  Phase, idle, waiting, running, Slots, thread, moved, initial, Step, call, acquire, release, Reach,
  here, next, running_count,
}

-- what one thread counts for
abbrev pub weight : Phase → ℕ
weight running = 1
weight idle = 0
weight waiting = 0

count-cons : (p : Phase) (ps : List Phase) → running_count (p ∷ ps) ≡ weight p + running_count ps
count-cons idle ps = omega arith
count-cons waiting ps = omega arith
count-cons running ps = omega arith

-- A move changes the count by the weights of the old and the new phase.
count-moved :
    (ps : List Phase) (i : ℕ) (p q : Phase)
    → thread ps i ≡ some p
    → running_count (moved ps i q) + weight p ≡ running_count ps + weight q
count-moved [] i p q h = absurd cc
count-moved (x ∷ ps) zero p q h =
    let same : x ≡ p = cc in omega (arith, count-cons x ps, count-cons q ps, ap weight same)
count-moved (x ∷ ps) (suc i) p q h =
    omega (arith, count-cons x (moved ps i q), count-cons x ps, count-moved ps i p q h)

-- the slots in use and the free slots
abbrev pub total : Slots → ℕ
total s = s.free + running_count s.threads

Step-total : {s t : Slots} → Step s t → total t ≡ total s
Step-total (call s i h) = omega (arith, count-moved s.threads i idle waiting h)
Step-total (acquire s i h free) = omega (arith, count-moved s.threads i waiting running h)
Step-total (release s i h) = omega (arith, count-moved s.threads i running idle h)

pub Reach-total : {s t : Slots} → Reach s t → total t ≡ total s
Reach-total here = refl
Reach-total (next r st) = Step-total st ∙ Reach-total r

-- Whatever the scheduler does, no more threads are inside the inner runner than the semaphore was
-- made for, if none was inside at the start.
pub running-le-max :
    (max_concurrent : ℕ) (threads : List Phase) {s : Slots}
    → running_count threads ≡ 0
    → Reach (initial max_concurrent threads) s
    → running_count s.threads ≤ max_concurrent
running-le-max n threads h r = omega (arith, Reach-total r)
