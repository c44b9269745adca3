-- ===== src/Runtime/Graph/Routing.antt =====
-- When the review sends a run to its end node.
use lean_lang_chain.Common.{
  ◌≡◌, refl, sym, true, false, not, Option, some, none, Result, ok, if◌then◌else◌, subst,
  ok-injective, Bool-cases, inl, inr,
}
use lean_lang_chain.Json.{
  Json, obj, str, end, field, get_or, get, is_str, truthy, or_dict, dict_get,
}
use lean_lang_chain.Runtime.State.{ObligationRuntimeState}
use lean_lang_chain.Runtime.Dump.{is_refused}
use lean_lang_chain.Runtime.Graph.{Node, route_after_policy}
use lean_lang_chain.Common.{◌>>=◌ as bind}
use lean_lang_chain.Json.{dict_get_or}
use lean_lang_chain.Common.{arith, zero, suc}
use lean_lang_chain.Json.{null, bool, int, arr, nil, cons, pos, negsuc, is_null}
use lean_lang_chain.Json.Laws.{get_or-default, is_str-ne}

unfoldable policy_route : Json → Result (Option Node)
unfolding truthy dict_get_or
policy_route pd =
    if not (truthy pd)
    then ok (some Node.finalize)
    else bind (dict_get_or pd "decision" (str "failed")) λ decision.
      if is_str "accepted" decision
      then ok (some Node.finalize)
      else if is_str "needs_review" decision
      then ok (some Node.interrupt_for_approval)
      else ok none

-- a refused decision equals neither text that goes on
refused-text :
    (j : Json)
    → is_refused j ≡ true
    → (is_str "accepted" j ≡ false) × (is_str "needs_review" j ≡ false)
refused-text j h = elim (Bool-cases (is_str "rejected" j)) [
  | inl p ↦ (is_str-ne "rejected" "accepted" refl j p, is_str-ne "rejected" "needs_review" refl j p)
  | inr p ↦
      (let q : is_str "blocked" j ≡ true = ground arith in
        (is_str-ne "blocked" "accepted" refl j q, is_str-ne "blocked" "needs_review" refl j q))
]

-- a refused value is not None
refused-not-null : (j : Json) → is_refused j ≡ true → is_null j ≡ false
refused-not-null null h = absurd cc
refused-not-null _ h = refl

policy_route-refused :
    (pd x : Json)
    → dict_get (or_dict pd) "decision" ≡ ok x
    → is_refused x ≡ true
    → policy_route pd ≡ ok none
unfolding policy_route or_dict dict_get dict_get_or truthy get_or
policy_route-refused (obj (field k v fs)) x h r =
    let same = ok-injective h in
    let r' = subst (λ u. is_refused u ≡ true) (sym same) r in
    let (p, q) = refused-text (get "decision" (field k v fs)) r' in
    rw (get_or-default "decision" (str "failed") (field k v fs) (refused-not-null _ r'), p, q)
policy_route-refused (obj end) x h r = cc
policy_route-refused (bool true) x h r = cc
policy_route-refused (bool false) x h r = cc
policy_route-refused null x h r = cc
policy_route-refused (int (pos zero)) x h r = cc
policy_route-refused (int (pos (suc n))) x h r = cc
policy_route-refused (int (negsuc n)) x h r = cc
policy_route-refused (arr nil) x h r = cc
policy_route-refused (arr (cons y ys)) x h r = cc
policy_route-refused (str s) x h r = ground arith

-- A state whose decision is a refusal goes nowhere from the review.
pub refused-route :
    (t : ObligationRuntimeState) (x : Json)
    → dict_get (or_dict t.policy_decision) "decision" ≡ ok x
    → is_refused x ≡ true
    → route_after_policy t ≡ ok none
unfolding route_after_policy policy_route
refused-route t x h r = policy_route-refused t.policy_decision x h r
