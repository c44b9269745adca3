-- ===== src/Runtime/Graph/Safety.antt =====
-- What an accepted run rests on.
use lean_lang_chain.Common.{
  String, ◌≡◌, refl, sym, ◌∙◌, false, not, ◌&&◌, Option, none, some, List, [], Result, ok,
  if◌then◌else◌, subst, ok-injective, >>=-eq-ok,
}
use lean_lang_chain.Json.{str, get_or, is_str}
use lean_lang_chain.Policy.Decision.{decision_text, Decision, PolicyDecision}
use lean_lang_chain.Policy.Pack.{PolicyPack}
use lean_lang_chain.Policy.Patch.{summarize_patch}
use lean_lang_chain.Policy.Engine.{evaluate}
use lean_lang_chain.Runtime.State.{ObligationRuntimeState, Status}
use lean_lang_chain.Runtime.Dump.{dump_decision}
use lean_lang_chain.Runtime.Review.{
  is_decided, protected_paths, patch_meta, load_pack_for_review, engine_review,
}
use lean_lang_chain.Runtime.Graph.{Node, Deps, route_after_policy}

-- where the route of a recorded decision goes
decision_route : Decision → Result (Option Node)
decision_route x =
    if is_str "accepted" (str (decision_text x))
    then ok (some Node.finalize)
    else if is_str "needs_review" (str (decision_text x))
    then ok (some Node.interrupt_for_approval)
    else ok none

decision_route-finalize :
    (x : Decision) → decision_route x ≡ ok (some Node.finalize) → x ≡ Decision.accepted
unfolding decision_route
decision_route-finalize Decision.accepted h = refl
decision_route-finalize Decision.needs_review h = cc
decision_route-finalize _ h = cc

dumped_route :
    (t : ObligationRuntimeState) (dec : PolicyDecision)
    → t.policy_decision ≡ dump_decision dec
    → route_after_policy t ≡ decision_route dec.decision
unfolding route_after_policy dump_decision decision_route get_or
dumped_route t dec e = rw e

module _ {G : Type 0} (d : Deps G) where
  -- the pack of the review
  abbrev pub pack_of : ObligationRuntimeState → PolicyPack
  pack_of s = load_pack_for_review d.load_pack d.env_pack s

  -- The engine accepted the evidence of this very state under its pack, its decision stands in the
  -- state, and a gated pack had a reviewer's decision.
  pub record IsJustified (s : ObligationRuntimeState) : Type 0 where
    pub paths : List String
    pub decision : PolicyDecision
    pub declared : protected_paths s.obligation ≡ ok paths
    pub judged :
        evaluate s.interactive_result s.batch_result
          (patch_meta (summarize_patch d.sha256 [] s.current_patch paths))
          (pack_of s)
        ≡ ok decision
    pub recorded : s.policy_decision ≡ dump_decision decision
    pub accepts : decision.decision ≡ Decision.accepted
    pub gated :
        ((pack_of s).reviewer_gated_execution && not (is_decided s.approval_decision)) ≡ false

  -- `engine_review` leaves the evidence alone and records what the engine decides
  pub engine_review-Justified :
      (s t : ObligationRuntimeState)
      → ((pack_of s).reviewer_gated_execution && not (is_decided s.approval_decision)) ≡ false
      → engine_review d.sha256 (pack_of s) s ≡ ok t
      → route_after_policy t ≡ ok (some Node.finalize)
      → IsJustified t
  unfolding engine_review load_pack_for_review
  engine_review-Justified s t gate h r =
      let (paths, p, h1) = >>=-eq-ok (protected_paths s.obligation) _ h in
      let (dec, q, h2) =
        >>=-eq-ok
          (evaluate s.interactive_result s.batch_result
            (patch_meta (summarize_patch d.sha256 [] s.current_patch paths)) (pack_of s))
          _ h1 in
      subst IsJustified (ok-injective h2) (record {
        paths = paths;
        decision = dec;
        declared = p;
        judged = q;
        recorded = refl;
        accepts = decision_route-finalize dec.decision (
            sym (
              dumped_route
                (record s { policy_decision = dump_decision dec; status = Status.auditing }) dec
                refl)
            ∙ subst (λ u. route_after_policy u ≡ ok (some Node.finalize)) (sym (ok-injective h2))
                r);
        gated = gate;
      })
