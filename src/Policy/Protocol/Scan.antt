-- ===== src/Policy/Protocol/Scan.antt =====
-- The loop of an evaluator against its guard: what it returns, told by the events alone.
use mathlib.Core.List.{foldl}
use lean_lang_chain.Common.{
  ◌≡◌, ◌≢◌, refl, ap, ◌↔◌, Bool, true, false, List, [], ◌∷◌, ◌++◌, Exc, ok, raise, inl, inr,
  Bool-cases, sym, ◌∙◌,
}
use lean_lang_chain.Json.{Fields}
use lean_lang_chain.Policy.Decision.{PolicyDecision}
use lean_lang_chain.Policy.Protocol.{Verdict, next, stop, throw, accept, scan}

-- a round that does not go on, and does not accept
abbrev pub Refuses : {S : Type 0} → Verdict S → Type 0
Refuses (next s) = ⊥
Refuses (stop d) = d ≢ accept
Refuses (throw e) = Unit

-- The body goes on by `move` just where the guard holds, and refuses elsewhere.
pub record Guards {S : Type 0} (step : S → Fields → Verdict S) (good : S → Fields → Bool)
    (move : S → Fields → S) : Type 0 where
  pub passes : (s : S) (ev : Fields) → good s ev ≡ true → step s ev ≡ next (move s ev)
  pub refuses : (s : S) (ev : Fields) → good s ev ≡ false → Refuses (step s ev)

-- At each event the guard holds in the state that the earlier events lead to.
abbrev pub EachGood :
    {S : Type 0} → (S → Fields → Bool) → (S → Fields → S) → S → List Fields → Type 0
EachGood good move s evs =
    (pre : List Fields) (ev : Fields) (post : List Fields)
    → evs ≡ pre ++ ev ∷ post
    → good (foldl move s pre) ev ≡ true

module _ {S : Type 0} (step : S → Fields → Verdict S) (last : PolicyDecision) where
  pub scan-next :
      (s s' : S) (ev : Fields) (evs : List Fields)
      → step s ev ≡ next s'
      → scan step last s (ev ∷ evs) ≡ scan step last s' evs
  unfolding scan
  scan-next s s' ev evs h = rw (h, scan)

  pub scan-stop :
      (s : S) (ev : Fields) (evs : List Fields) (d : PolicyDecision)
      → step s ev ≡ stop d
      → scan step last s (ev ∷ evs) ≡ ok d
  unfolding scan
  scan-stop s ev evs d h = rw (h, scan)

  pub scan-throw :
      (s : S) (ev : Fields) (evs : List Fields) (e : Exc)
      → step s ev ≡ throw e
      → scan step last s (ev ∷ evs) ≡ raise e
  unfolding scan
  scan-throw s ev evs e h = rw (h, scan)

module _ {S : Type 0} (step : S → Fields → Verdict S) where
  refused :
      (s : S) (ev : Fields) (evs : List Fields) (v : Verdict S)
      → step s ev ≡ v
      → Refuses v
      → scan step accept s (ev ∷ evs) ≢ ok accept
  refused s ev evs (next s') e r h = r
  refused s ev evs (stop d) e r h = r (cc (scan-stop step accept s ev evs d e))
  refused s ev evs (throw x) e r h = cc (scan-throw step accept s ev evs x e)

module _ {S : Type 0} {step : S → Fields → Verdict S} {good : S → Fields → Bool}
    {move : S → Fields → S} (g : Guards step good move) where
  cons-EachGood :
      (s : S) (x : Fields) (evs : List Fields)
      → good s x ≡ true
      → EachGood good move (move s x) evs
      → EachGood good move s (x ∷ evs)
  cons-EachGood s x evs t rest [] ev post e = cc
  cons-EachGood s x evs t rest (y ∷ pre) ev post e = cc (rest pre ev post (cc))

  nil-EachGood : (s : S) → EachGood good move s []
  nil-EachGood s [] ev post e = cc
  nil-EachGood s (y ∷ pre) ev post e = cc

  -- An accepted list passes the guard at each event.
  pub scan-EachGood :
      (s : S) (evs : List Fields) → scan step accept s evs ≡ ok accept → EachGood good move s evs
  scan-EachGood s [] h = nil-EachGood s
  scan-EachGood s (x ∷ evs) h = elim (Bool-cases (good s x)) [
    | inl t ↦ cons-EachGood s x evs t (
        scan-EachGood (move s x) evs
          (sym (scan-next step accept s (move s x) x evs (g.passes s x t)) ∙ h))
    | inr f ↦ absurd (refused step s x evs (step s x) refl (g.refuses s x f) h)
  ]

  -- A list that passes the guard at each event is accepted.
  pub EachGood-scan :
      (s : S) (evs : List Fields) → EachGood good move s evs → scan step accept s evs ≡ ok accept
  EachGood-scan s [] h = unfold scan in refl
  EachGood-scan s (x ∷ evs) h =
      scan-next step accept s (move s x) x evs (g.passes s x (h [] x evs refl))
      ∙ EachGood-scan (move s x) evs (λ pre ev post e. h (x ∷ pre) ev post (ap (λ l. x ∷ l) e))

  pub scan-accepted_iff :
      (s : S) (evs : List Fields) → (scan step accept s evs ≡ ok accept) ↔ EachGood good move s evs
  scan-accepted_iff s evs = (scan-EachGood s evs, EachGood-scan s evs)

  -- The first event at which the guard fails decides, whatever follows it.
  pub scan-first :
      (s : S) (pre : List Fields) (ev : Fields) (post : List Fields)
      → EachGood good move s pre
      → scan step accept s (pre ++ ev ∷ post) ≡ scan step accept (foldl move s pre) (ev ∷ post)
  scan-first s [] ev post h = refl
  scan-first s (x ∷ pre) ev post h =
      scan-next step accept s (move s x) x (pre ++ ev ∷ post) (g.passes s x (h [] x pre refl))
      ∙ scan-first (move s x) pre ev post (λ p y q e. h (x ∷ p) y q (ap (λ l. x ∷ l) e))
