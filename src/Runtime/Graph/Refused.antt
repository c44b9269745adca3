-- ===== src/Runtime/Graph/Refused.antt =====
-- A refusal that the protocol recorded is not judged again.
use lean_lang_chain.Common.{◌≡◌, refl, true, ok, ℕ, suc, ◌∙◌}
use lean_lang_chain.Json.{or_dict, dict_get, get_or, truthy, str}
use lean_lang_chain.Policy.Decision.{PolicyDecision, is_refusal, decision_text}
use lean_lang_chain.Runtime.State.{ObligationRuntimeState, Status}
use lean_lang_chain.Runtime.Dump.{dump_decision, refused_text}
use lean_lang_chain.Runtime.Review
use lean_lang_chain.Runtime.Graph.{Node, Deps, run, after_node, run_node, next_node}
use lean_lang_chain.Runtime.Graph.Routing.{refused-route}

recorded-decision :
    (s : ObligationRuntimeState) (dec : PolicyDecision)
    → s.policy_decision ≡ dump_decision dec
    → dict_get (or_dict s.policy_decision) "decision" ≡ ok (str (decision_text dec.decision))
unfolding dump_decision dict_get or_dict get_or truthy
recorded-decision s dec e = rw e refl

module _ {G : Type 0} (d : Deps G) where
  review-keeps :
      (s : ObligationRuntimeState) (dec : PolicyDecision)
      → s.policy_decision ≡ dump_decision dec
      → is_refusal dec.decision ≡ true
      → Review.policy_review d.sha256 d.load_pack d.env_pack s
        ≡ ok (record s { status = Status.auditing })
  unfolding Review.policy_review
  review-keeps s dec e r = rw (recorded-decision s dec e, refused_text dec.decision, r) refl

  -- A run that reaches the review with a rejection or a block recorded ends there: the evidence is
  -- not judged, no witness bundle is made, and the gateway is left alone.
  pub run-refused :
      (f : ℕ) (s : ObligationRuntimeState) (g : G) (dec : PolicyDecision)
      → s.policy_decision ≡ dump_decision dec
      → is_refusal dec.decision ≡ true
      → run d (suc f) Node.policy_review s g ≡ (ok (record s { status = Status.auditing }), g)
  unfolding run run_node after_node next_node
  run-refused f s g dec e r = rw (review-keeps s dec e r) (
      rw
        (refused-route (record s { status = Status.auditing }) (str (decision_text dec.decision))
          (recorded-decision s dec e) (refused_text dec.decision ∙ r))
        refl)
