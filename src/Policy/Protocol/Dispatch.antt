-- ===== src/Policy/Protocol/Dispatch.antt =====
-- The dispatch over obligation classes: the shape of every answer, and packs that enable nothing.
use lean_lang_chain.Common.{
  ◌==◌, String, Bool, true, false, List, [], ◌∷◌, Result, ok, raise, if◌then◌else◌, ◌≡◌, subst, not,
  Exc,
}
use lean_lang_chain.Json.{Fields, Json, null}
use lean_lang_chain.Policy.Decision.{
  reason_missing_approval_token, reason_invalid_state_transition, reason_side_effect_unauthorized,
  reason_evidence_incomplete, PolicyDecision,
}
use lean_lang_chain.Policy.Protocol.{
  Verdict, next, stop, throw, accept, reject, block, scan, handoff_step, delegation_step, lock_step,
  approval_step, reviewer_step, artifact_step, evidence_step, RawEvent, Claim, PolicyPack,
  evaluate_protocol_obligation, evaluate_handoff_legality, evaluate_reviewer_gated,
  evaluate_lock_ownership_invariant, evaluate_delegation_admissibility,
  evaluate_state_transition_preservation, evaluate_artifact_admissibility,
  evaluate_side_effect_authorization, evaluate_evidence_complete_execution_token, validate_events,
  no_claim,
}

-- acceptance, or a refusal with one reason
pub data IsAnswer : PolicyDecision → Type 0 where
  accepts : IsAnswer accept
  rejects : (reason : String) → IsAnswer (reject reason)
  blocks : (reason : String) → IsAnswer (block reason)

-- what a call returns, if it returns, is such an answer
pub data Answers : Result PolicyDecision → Type 0 where
  returns : {d : PolicyDecision} → IsAnswer d → Answers (ok d)
  raises : (e : Exc) → Answers (raise e)

Answers-ok : {d : PolicyDecision} → Answers (ok d) → IsAnswer d
Answers-ok (returns a) = a

abbrev StepAnswers : {S : Type 0} → Verdict S → Type 0
StepAnswers (next s) = Unit
StepAnswers (stop d) = IsAnswer d
StepAnswers (throw e) = Unit

scan-Answers :
    {S : Type 0} (step : S → Fields → Verdict S) (last : PolicyDecision)
    → ((s : S) (ev : Fields) → StepAnswers (step s ev))
    → IsAnswer last
    → (s : S) (evs : List Fields) → Answers (scan step last s evs)
unfolding scan
scan-Answers {S} step last h l s [] = returns l
scan-Answers {S} step last h l s (ev ∷ evs) =
    go (step s ev) (h s ev) (λ s'. scan-Answers step last h l s' evs)
  where
    go :
        (v : Verdict S)
        → StepAnswers v
        → ((s' : S) → Answers (scan step last s' evs))
        → Answers (elim v [ next s' ↦ scan step last s' evs | stop d ↦ ok d | throw e ↦ raise e ])
    go (next s') a k = k s'
    go (stop d) a k = returns a
    go (throw e) a k = raises e

ruleset answers = (accepts, rejects, blocks)

if-StepAnswers :
    {S : Type 0} (b : Bool) (v w : Verdict S)
    → StepAnswers v
    → StepAnswers w
    → StepAnswers (if b then v else w)
if-StepAnswers true v w p q = p
if-StepAnswers false v w p q = q

if-Answers :
    (b : Bool) (v w : Result PolicyDecision) → Answers v → Answers w → Answers (if b then v else w)
if-Answers true v w p q = p
if-Answers false v w p q = q

handoff_step-StepAnswers : (s : Json) (ev : Fields) → StepAnswers (handoff_step s ev)
unfolding handoff_step
handoff_step-StepAnswers s ev = search (if-StepAnswers, answers, tt)

delegation_step-StepAnswers : (s : Claim) (ev : Fields) → StepAnswers (delegation_step s ev)
unfolding delegation_step
delegation_step-StepAnswers s ev = search (if-StepAnswers, answers, tt) depth 8

lock_step-StepAnswers : (s : Json) (ev : Fields) → StepAnswers (lock_step s ev)
unfolding lock_step
lock_step-StepAnswers s ev = search (if-StepAnswers, answers, tt)

approval_step-StepAnswers :
    (r : String) (s : Bool) (ev : Fields) → StepAnswers (approval_step r s ev)
unfolding approval_step
approval_step-StepAnswers r s ev = search (if-StepAnswers, answers, tt)

reviewer_step-StepAnswers : (s : Unit {0}) (ev : Fields) → StepAnswers (reviewer_step s ev)
unfolding reviewer_step
reviewer_step-StepAnswers s ev = search (if-StepAnswers, answers)

artifact_step-StepAnswers : (s : Unit {0}) (ev : Fields) → StepAnswers (artifact_step s ev)
unfolding artifact_step
artifact_step-StepAnswers s ev = search (if-StepAnswers, answers)

evidence_step-StepAnswers : (s : Unit {0}) (ev : Fields) → StepAnswers (evidence_step s ev)
unfolding evidence_step
evidence_step-StepAnswers s ev = search (if-StepAnswers, answers)

-- an evaluator: acceptance where its flag is off, and its loop where it is on
gated-Answers :
    {S : Type 0} (on : Bool) (step : S → Fields → Verdict S) (last : PolicyDecision)
    → ((s : S) (ev : Fields) → StepAnswers (step s ev))
    → IsAnswer last
    → (s : S) (evs : List Fields) → Answers (if not on then ok accept else scan step last s evs)
gated-Answers true step last h l s evs = scan-Answers step last h l s evs
gated-Answers false step last h l s evs = returns accepts

obligation-Answers :
    (c : String) (events : List RawEvent) (pack : PolicyPack)
    → Answers (evaluate_protocol_obligation c events pack)
unfolding evaluate_protocol_obligation evaluate_handoff_legality evaluate_reviewer_gated
    evaluate_lock_ownership_invariant evaluate_delegation_admissibility
    evaluate_state_transition_preservation evaluate_artifact_admissibility
    evaluate_side_effect_authorization evaluate_evidence_complete_execution_token
obligation-Answers c events pack =
    let evs = validate_events events in
    if-Answers (c == "handoff_legality") _ _
      (gated-Answers pack.single_owner_handoff handoff_step accept handoff_step-StepAnswers accepts
        null evs)
      (if-Answers (c == "reviewer_gated") _ _
        (gated-Answers pack.reviewer_gated_execution reviewer_step
          (block reason_missing_approval_token) reviewer_step-StepAnswers (blocks _) tt evs)
        (if-Answers (c == "lock_ownership_invariant") _ _
          (gated-Answers pack.lock_ownership_invariant lock_step accept lock_step-StepAnswers
            accepts null evs)
          (if-Answers (c == "delegation_admissibility") _ _
            (gated-Answers pack.delegation_admissibility delegation_step accept
              delegation_step-StepAnswers accepts no_claim evs)
            (if-Answers (c == "state_transition_preservation") _ _
              (gated-Answers pack.state_transition_preservation
                (approval_step reason_invalid_state_transition) accept (approval_step-StepAnswers _)
                accepts false evs)
              (if-Answers (c == "artifact_admissibility") _ _
                (gated-Answers pack.artifact_admissibility artifact_step accept
                  artifact_step-StepAnswers accepts tt evs)
                (if-Answers (c == "side_effect_authorization") _ _
                  (gated-Answers pack.side_effect_authorization
                    (approval_step reason_side_effect_unauthorized) accept
                    (approval_step-StepAnswers _) accepts false evs)
                  (if-Answers (c == "evidence_complete_execution_token") _ _
                    (gated-Answers pack.evidence_complete_execution_token evidence_step
                      (block reason_evidence_incomplete) evidence_step-StepAnswers (blocks _) tt
                      evs)
                    (returns accepts))))))))

-- Whatever the class, the events and the pack, an evaluation that returns answers acceptance at
-- trust level clean with no reason, or rejection or a block at trust level blocked with one reason.
pub obligation-IsAnswer :
    (c : String) (events : List RawEvent) (pack : PolicyPack) (d : PolicyDecision)
    → evaluate_protocol_obligation c events pack ≡ ok d
    → IsAnswer d
obligation-IsAnswer c events pack d h =
    Answers-ok (subst Answers h (obligation-Answers c events pack))
