-- ===== src/Runtime/Graph/Accepted.antt =====
-- A run that starts at the first node ends accepted only on evidence that the engine accepts.
use lean_lang_chain.Runtime.Finalize.{validated_environment, validated, default_interactive}
use lean_lang_chain.Common.{
  ◌≡◌, true, refl, not, ◌&&◌, some, ok, inl, inr, Bool-cases, >>=-eq-ok, ok-injective, subst, sym,
  ◌≢◌, arith, none, ap, ℕ, Result, suc, raise, Option, ◌∙◌, [],
}
use lean_lang_chain.Json.{Fields, str, Json, or_dict, dict_get, get_or, truthy}
use lean_lang_chain.Runtime.State.{ObligationRuntimeState, Status}
use lean_lang_chain.Runtime.Dump.{is_refused, dump_decision}
use lean_lang_chain.Runtime.Review.{
  is_decided, review_with, policy_review, load_pack_for_review, engine_review, protected_paths,
  patch_meta,
}
use lean_lang_chain.Runtime.Finalize
use lean_lang_chain.Runtime.Review
use lean_lang_chain.Runtime.Handlers.{repair}
use lean_lang_chain.Policy.Decision.{plain, Decision, Trust}
use lean_lang_chain.Policy.Patch.{summarize_patch}
use lean_lang_chain.Policy.Engine.{evaluate}
use lean_lang_chain.Common.{zero}
use lean_lang_chain.Runtime.Graph.{
  Node, Deps, route_after_policy, next_node, run_node, after_node, run, invoke, follow, route_start,
}
use lean_lang_chain.Runtime.Graph.Safety.{IsJustified, pack_of, engine_review-Justified}
use lean_lang_chain.Runtime.Graph.Routing.{refused-route}

refused-not-final :
    (t : ObligationRuntimeState) (x : Json)
    → dict_get (or_dict t.policy_decision) "decision" ≡ ok x
    → is_refused x ≡ true
    → route_after_policy t ≢ ok (some Node.finalize)
refused-not-final t x h r e = let n = refused-route t x h r in cc

module _ {G : Type 0} (d : Deps G) where
  review_with-Justified :
      (s t : ObligationRuntimeState)
      → review_with d.sha256 (pack_of d s) s ≡ ok t
      → route_after_policy t ≡ ok (some Node.finalize)
      → IsJustified d t
  unfolding review_with or_dict dict_get get_or truthy
  review_with-Justified s t h r =
      elim (Bool-cases
        ((pack_of d s).reviewer_gated_execution && not (is_decided s.approval_decision))) [
          | inl p ↦ absurd (
              let e = ok-injective (rw p at h) in
              refused-not-final _ (str "blocked") refl refl
                (subst (λ u. route_after_policy u ≡ ok (some Node.finalize)) (sym e) r))
          | inr p ↦ engine_review-Justified d s t p (rw p at h) r
        ]

  policy_review-Justified :
      (s t : ObligationRuntimeState)
      → policy_review d.sha256 d.load_pack d.env_pack s ≡ ok t
      → route_after_policy t ≡ ok (some Node.finalize)
      → IsJustified d t
  unfolding policy_review
  policy_review-Justified s t h r =
      let (x, p, h1) = >>=-eq-ok (dict_get (or_dict s.policy_decision) "decision") _ h in
      elim (Bool-cases (is_refused x)) [
        | inl q ↦ absurd (
            let e = ok-injective (rw q at h1) in
            refused-not-final _ x p q
              (subst (λ u. route_after_policy u ≡ ok (some Node.finalize)) (sym e) r))
        | inr q ↦ review_with-Justified s t (rw q at h1) r
      ]

  -- what holds of the state when a run reaches a node
  Reached : Node → ObligationRuntimeState → Type 0
  Reached Node.finalize s = IsJustified d s
  Reached Node.resume_with_approval s = ⊥
  Reached _ s = Unit

  -- the route of the review goes to a justified end or to the reviewer
  review-Reached :
      (m : Node) (s t : ObligationRuntimeState)
      → policy_review d.sha256 d.load_pack d.env_pack s ≡ ok t
      → route_after_policy t ≡ ok (some m)
      → Reached m t
  unfolding Reached route_after_policy
  review-Reached Node.finalize s t h r = policy_review-Justified s t h r
  review-Reached Node.resume_with_approval s t h r = ground arith
  review-Reached _ s t h r = tt

  reached :
      (n m : Node) (s t : ObligationRuntimeState) (g : G)
      → Reached n s
      → (run_node d n s g).0 ≡ ok t
      → next_node n t ≡ ok (some m)
      → Reached m t
  unfolding Reached next_node run_node
  reached Node.policy_review m s t g k h r = review-Reached m s t h r
  reached Node.resume_with_approval m s t g k h r = absurd k
  reached _ Node.finalize s t g k h r = absurd (ground arith)
  reached _ Node.resume_with_approval s t g k h r = absurd (ground arith)
  reached _ _ s t g k h r = tt

  finalize-Justified :
      (s t : ObligationRuntimeState)
      → IsJustified d s
      → Finalize.finalize d.models d.bundle_id s ≡ ok t
      → IsJustified d t
  unfolding Finalize.finalize load_pack_for_review
  finalize-Justified s t j h =
      let (e, p, h1) =
        >>=-eq-ok (validated_environment d.models (or_dict s.environment_fingerprint)) _ h in
      let (i, q, h2) =
        >>=-eq-ok
          (validated d.models.interactive default_interactive (or_dict s.interactive_result)) _
          h1 in
      let (c, z, h3) =
        >>=-eq-ok
          (validated d.models.decision (dump_decision (plain Decision.accepted Trust.clean []))
            (or_dict s.policy_decision))
          _ h2 in
      subst (IsJustified d) (ok-injective h3) (record {
        paths = j.paths;
        decision = j.decision;
        declared = j.declared;
        judged = j.judged;
        recorded = j.recorded;
        accepts = j.accepts;
        gated = j.gated;
      })

  review_with-auditing :
      (s t : ObligationRuntimeState)
      → review_with d.sha256 (pack_of d s) s ≡ ok t
      → t.status ≡ Status.auditing
  unfolding review_with engine_review
  review_with-auditing s t h =
      elim (Bool-cases
        ((pack_of d s).reviewer_gated_execution && not (is_decided s.approval_decision))) [
          | inl p ↦ ap (λ u. u.status) (sym (ok-injective (rw p at h)))
          | inr p ↦
              (let (paths, q, h1) = >>=-eq-ok (protected_paths s.obligation) _ (rw p at h) in
                let (dec, q, h2) =
                  >>=-eq-ok
                    (evaluate s.interactive_result s.batch_result
                      (patch_meta (summarize_patch d.sha256 [] s.current_patch paths))
                      (pack_of d s))
                    _ h1 in
                ap (λ u. u.status) (sym (ok-injective h2)))
        ]

  policy_review-auditing :
      (s t : ObligationRuntimeState)
      → policy_review d.sha256 d.load_pack d.env_pack s ≡ ok t
      → t.status ≡ Status.auditing
  unfolding policy_review review_with engine_review
  policy_review-auditing s t h =
      let (x, p, h1) = >>=-eq-ok (dict_get (or_dict s.policy_decision) "decision") _ h in
      elim (Bool-cases (is_refused x)) [
        | inl q ↦ ap (λ u. u.status) (sym (ok-injective (rw q at h1)))
        | inr q ↦ review_with-auditing s t (rw q at h1)
      ]

  interrupt-awaiting :
      (s t : ObligationRuntimeState) (g : G)
      → (Review.interrupt_for_approval d.client d.validate_review d.sha256 s g).0 ≡ ok t
      → t.status ≡ Status.awaiting_approval
  unfolding Review.interrupt_for_approval
  interrupt-awaiting s t g h = go (Review.review_payload d.sha256 s) refl h
    where
      go :
          (o : Result Fields)
          → Review.review_payload d.sha256 s ≡ o
          → (Review.interrupt_for_approval d.client d.validate_review d.sha256 s g).0 ≡ ok t
          → t.status ≡ Status.awaiting_approval
      go (ok p) w h =
          ap (λ u. u.status) (sym (ok-injective (rw (w, Review.interrupt_for_approval) at h)))
      go (raise x) w h = absurd (let z = rw (w, Review.interrupt_for_approval) at h in cc)

  ends :
      (n : Node) (s t : ObligationRuntimeState) (g : G)
      → Reached n s
      → (run_node d n s g).0 ≡ ok t
      → next_node n t ≡ ok none
      → t.status ≡ Status.accepted
      → IsJustified d t
  unfolding Reached next_node run_node repair
  ends Node.finalize s t g k h r e = finalize-Justified s t k h
  ends Node.resume_with_approval s t g k h r e = absurd k
  ends Node.policy_review s t g k h r e = absurd (let q = policy_review-auditing s t h in cc)
  ends Node.interrupt_for_approval s t g k h r e = absurd (let q = interrupt-awaiting s t g h in cc)
  ends Node.repair_from_diagnostics s t g k h r e =
      absurd (let q = ap (λ u. u.status) (ok-injective h) in cc)
  ends Node.repair_from_goals s t g k h r e =
      absurd (let q = ap (λ u. u.status) (ok-injective h) in cc)
  ends _ s t g k h r e = absurd (ground arith)

  after-Justified :
      (f : ℕ) (n : Node)
      → ((m : Node) (s t : ObligationRuntimeState) (g : G)
          → Reached m s
          → (run d f m s g).0 ≡ ok t
          → t.status ≡ Status.accepted
          → IsJustified d t)
      → (s t : ObligationRuntimeState) (g g' : G) (r : Result ObligationRuntimeState) → Reached n s
      → (run_node d n s g).0 ≡ r
      → (after_node (run d f) n r g').0 ≡ ok t
      → t.status ≡ Status.accepted
      → IsJustified d t
  unfolding after_node follow
  after-Justified f n rest s t g g' (raise x) k h o e = absurd cc
  after-Justified f n rest s t g g' (ok u) k h o e = go (next_node n u) refl o
    where
      go :
          (q : Result (Option Node))
          → next_node n u ≡ q
          → (follow (run d f) q u g').0 ≡ ok t
          → IsJustified d t
      go (raise x) w o = absurd cc
      go (ok none) w o =
          ends n s t g k (h ∙ o) (subst (λ v. next_node n v ≡ ok none) (ok-injective o) w) e
      go (ok (some m)) w o = rest m u t g' (reached n m s u g k h w) o e

  run-Justified :
      (f : ℕ) (n : Node) (s t : ObligationRuntimeState) (g : G)
      → Reached n s
      → (run d f n s g).0 ≡ ok t
      → t.status ≡ Status.accepted
      → IsJustified d t
  unfolding run
  run-Justified zero n s t g k h e = absurd cc
  run-Justified (suc f) n s t g k h e =
      after-Justified f n (λ m u v c. run-Justified f m u v c) s t g (run_node d n s g).1
        (run_node d n s g).0 k refl h e

  -- A run that starts at the first node and ends in a state whose status is accepted: the policy
  -- engine, run on the interactive result, the batch result and the patch of that very state with
  -- the pack that the state names, returns an accepted decision; that decision is the one recorded
  -- in the state; and when the pack is reviewer-gated, the state holds a reviewer's decision.
  pub invoke-Justified :
      (s t : ObligationRuntimeState) (g : G)
      → route_start s ≡ Node.init_environment
      → (invoke d s g).0 ≡ ok t
      → t.status ≡ Status.accepted
      → IsJustified d t
  unfolding invoke Reached
  invoke-Justified s t g start h e =
      run-Justified 25 Node.init_environment s t g tt (rw start at h) e
