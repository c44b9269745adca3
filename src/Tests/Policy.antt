-- ===== src/Tests/Policy.antt =====
-- The theorems of the policy modules at concrete packs, events and evidence.
use lean_lang_chain.Common.{refl, ◌≡◌, ◌↔◌, ok, raise, attribute_error, [], true, false, ◌∷◌}
use lean_lang_chain.Json.{null, get_or, set, to_list}
use lean_lang_chain.Policy.Engine.{evaluate, accepted_by, interactive_errors}
use lean_lang_chain.Policy.Engine.Stages.{is_report, is_batch}
use lean_lang_chain.Policy.Engine.Acceptance.{IsClean, evaluate-error, evaluate-accepted_iff}
use lean_lang_chain.Policy.Engine.Audit.{IsAudited, evaluate-IsAudited}
use lean_lang_chain.Policy.Events.{dict, validate_events, event_to_dict, normalize_event}
use lean_lang_chain.Policy.Protocol.{
  accept, no_claim, evaluate_handoff_legality, evaluate_delegation_admissibility,
  evaluate_lock_ownership_invariant, evaluate_side_effect_authorization,
  evaluate_artifact_admissibility, evaluate_evidence_complete_execution_token,
  evaluate_protocol_obligation, block, payload, evidence_complete,
}
use lean_lang_chain.Policy.Protocol.Scan.{EachGood}
use lean_lang_chain.Policy.Protocol.Ownership.{
  may_hand_off, claimant, handoff-accepted_iff, may_delegate, last_claim, delegation-accepted_iff,
  keeps_lock, holder_after, lock-accepted_iff,
}
use lean_lang_chain.Policy.Protocol.Approval.{
  is_authorized, seen_after, side_effect-accepted_iff, reviewer_gated_lem, may_carry,
  artifact-accepted_iff, evidence_token_lem, evidence_token-raise,
}
use lean_lang_chain.Policy.Protocol.Dispatch.{IsAnswer, obligation-IsAnswer}
use lean_lang_chain.Policy.Decision.{reason_evidence_incomplete}
use lean_lang_chain.Tests.Samples.{
  full_pack, claimed_twice, approved_run, locked, text_payload, warning, error, report, passed,
  edited,
}

sound_evidence : (is_report (report warning) ≡ true) × (is_batch passed ≡ true)
unfolding get_or to_list
sound_evidence = (refl, refl)

evaluate-accepted_iff_example :
    (evaluate (report warning) passed edited full_pack ≡ ok (accepted_by full_pack))
    ↔ IsClean (report warning) passed edited full_pack
evaluate-accepted_iff_example =
    evaluate-accepted_iff (report warning) passed edited full_pack sound_evidence.0 sound_evidence.1

evaluate-IsAudited_example : IsAudited full_pack (interactive_errors full_pack)
unfolding get_or to_list
evaluate-IsAudited_example =
    evaluate-IsAudited (report error) passed edited full_pack (interactive_errors full_pack)
      (evaluate-error (report error) passed edited full_pack refl refl)

handoff-accepted_iff_example :
    (evaluate_handoff_legality claimed_twice full_pack ≡ ok accept)
    ↔ EachGood may_hand_off claimant null (validate_events claimed_twice)
handoff-accepted_iff_example = handoff-accepted_iff claimed_twice full_pack refl

delegation_test :
    (evaluate_delegation_admissibility claimed_twice full_pack ≡ ok accept)
    ↔ EachGood may_delegate last_claim no_claim (validate_events claimed_twice)
delegation_test = delegation-accepted_iff claimed_twice full_pack refl

lock-accepted_iff_example :
    (evaluate_lock_ownership_invariant locked full_pack ≡ ok accept)
    ↔ EachGood keeps_lock holder_after null (validate_events locked)
lock-accepted_iff_example = lock-accepted_iff locked full_pack refl

side_effect_test :
    (evaluate_side_effect_authorization approved_run full_pack ≡ ok accept)
    ↔ EachGood is_authorized seen_after false (validate_events approved_run)
side_effect_test = side_effect-accepted_iff approved_run full_pack refl

artifact_test :
    (evaluate_artifact_admissibility approved_run full_pack ≡ ok accept)
    ↔ EachGood may_carry (λ s ev. s) tt (validate_events approved_run)
artifact_test = artifact-accepted_iff approved_run full_pack refl

evidence_token_test :
    evaluate_evidence_complete_execution_token approved_run full_pack
    ≡ ok (block reason_evidence_incomplete)
unfolding validate_events event_to_dict normalize_event get_or set payload evidence_complete
evidence_token_test = evidence_token_lem approved_run full_pack refl refl

evidence_token-raise_test :
    evaluate_evidence_complete_execution_token (dict text_payload ∷ []) full_pack
    ≡ raise attribute_error
unfolding validate_events event_to_dict normalize_event get_or set payload evidence_complete
evidence_token-raise_test =
    evidence_token-raise (dict text_payload ∷ []) full_pack [] text_payload [] refl refl refl refl
      refl

reviewed_run : evaluate_protocol_obligation "reviewer_gated" approved_run full_pack ≡ ok accept
unfolding evaluate_protocol_obligation validate_events event_to_dict normalize_event get_or set
reviewed_run = reviewer_gated_lem approved_run full_pack refl

obligation_test : IsAnswer accept
obligation_test = obligation-IsAnswer "reviewer_gated" approved_run full_pack accept reviewed_run
