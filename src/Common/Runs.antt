-- ===== src/Common/Runs.antt =====
-- Calls one after another on a state, and what they return.
use mathlib.Core.Path.{◌≡◌, refl}
use mathlib.Core.List.{List, [], ◌∷◌}

module _ {Op A : Type 0} where
  unfoldable pub answers : {S : Type 0} → (S → Op → A × S) → S → List Op → List A
  answers call s [] = []
  answers call s (op ∷ ops) = (call s op).0 ∷ answers call (call s op).1 ops

  -- Where each call keeps two states related and returns the same on both, so do all calls.
  pub answers-simulated :
      {S T : Type 0} (R : S → T → Type 0) (f : S → Op → A × S) (g : T → Op → A × T)
      → ((op : Op) (s : S) (t : T) → R s t → ((f s op).0 ≡ (g t op).0) × R (f s op).1 (g t op).1)
      → (ops : List Op) (s : S) (t : T) → R s t
      → answers f s ops ≡ answers g t ops
  unfolding answers
  answers-simulated R f g step [] s t h = refl
  answers-simulated R f g step (op ∷ ops) s t h =
      let (p, r) = step op s t h in
      rw (p, answers-simulated R f g step ops (f s op).1 (g t op).1 r) refl
