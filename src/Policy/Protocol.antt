-- ===== src/Policy/Protocol.antt =====
-- packages/policy/lean_langchain_policy/protocol_evaluator.py: the evaluators of the obligation
-- classes. Each loop over the events is `scan` with the body of the loop.
pub mod Scan
pub mod Ownership
pub mod Approval
pub mod Dispatch
use lean_lang_chain.Common.{
  String, Bool, true, false, not, ◌&&◌, ◌||◌, List, [], ◌∷◌, Exc, type_error, Result, ok, raise,
  ◌==◌, if◌then◌else◌,
}
use lean_lang_chain.Json.{
  Json, Fields, null, get, is_null, is_dict, is_true, truthy, or_dict, dict_get?, is_hashable,
}
use lean_lang_chain.Json.Equality.{py_eq}
use lean_lang_chain.Policy.Decision.{
  Decision, Trust, PolicyDecision, plain, reason_delegate_without_prior_claim,
  reason_owner_mismatch, reason_missing_approval_token, reason_lock_conflict,
  reason_release_without_lock, reason_invalid_state_transition, reason_artifact_not_admissible,
  reason_side_effect_unauthorized, reason_evidence_incomplete,
}
use lean_lang_chain.Policy.Pack.{PolicyPack}
use lean_lang_chain.Policy.Events.{RawEvent, validate_events, is_kind, agent_id, task_id}

abbrev pub accept : PolicyDecision
accept = plain Decision.accepted Trust.clean []

abbrev pub reject : String → PolicyDecision
reject reason = plain Decision.rejected Trust.blocked (reason ∷ [])

abbrev pub block : String → PolicyDecision
block reason = plain Decision.blocked Trust.blocked (reason ∷ [])

-- one round of a loop: on to the next event, `return`, or an exception
pub data Verdict (S : Type 0) : Type 0 where
  next : S → Verdict S
  stop : PolicyDecision → Verdict S
  throw : Exc → Verdict S

-- the loop; `last` is what the function returns after it
unfoldable pub scan :
    {S : Type 0}
    → (S → Fields → Verdict S)
    → PolicyDecision
    → S
    → List Fields
    → Result PolicyDecision
scan step last s [] = ok last
scan step last s (ev ∷ evs) = elim (step s ev) [
  | next s' ↦ scan step last s' evs
  | stop d ↦ ok d
  | throw e ↦ raise e
]

unfoldable pub handoff_step : Json → Fields → Verdict Json
handoff_step claim_owner ev =
    if is_kind "claim" ev
    then next (agent_id ev)
    else if is_kind "delegate" ev
    then (if is_null claim_owner
        then stop (reject reason_delegate_without_prior_claim)
        else if not (py_eq (agent_id ev) claim_owner)
        then stop (reject reason_owner_mismatch)
        else next claim_owner)
    else next claim_owner

unfoldable pub evaluate_handoff_legality : List RawEvent → PolicyPack → Result PolicyDecision
evaluate_handoff_legality events pack =
    if not pack.single_owner_handoff
    then ok accept
    else scan handoff_step accept null (validate_events events)

unfoldable pub reviewer_step : Unit {0} → Fields → Verdict Unit
reviewer_step s ev = if is_kind "approve" ev then stop accept else next s

unfoldable pub evaluate_reviewer_gated : List RawEvent → PolicyPack → Result PolicyDecision
evaluate_reviewer_gated events pack =
    if not pack.reviewer_gated_execution
    then ok accept
    else scan reviewer_step (block reason_missing_approval_token) tt (validate_events events)

-- the owner and the task of the last claim
pub record Claim : Type 0 where
  pub owner : Json
  pub task : Json

abbrev pub no_claim : Claim
no_claim = record { owner = null; task = null }

unfoldable pub delegation_step : Claim → Fields → Verdict Claim
delegation_step c ev =
    if is_kind "claim" ev
    then next (record { owner = agent_id ev; task = task_id ev })
    else if is_kind "delegate" ev
    then (if is_null c.owner
        then stop (reject reason_delegate_without_prior_claim)
        else if not (py_eq (agent_id ev) c.owner)
        then stop (reject reason_owner_mismatch)
        else if not (is_null c.task)
            && not (is_null (task_id ev))
            && not (py_eq (task_id ev) c.task)
        then stop (reject reason_invalid_state_transition)
        else next c)
    else next c

unfoldable pub evaluate_delegation_admissibility :
    List RawEvent → PolicyPack → Result PolicyDecision
evaluate_delegation_admissibility events pack =
    if not pack.delegation_admissibility
    then ok accept
    else scan delegation_step accept no_claim (validate_events events)

-- `kind in ("execute", "recover")`
abbrev pub is_effect : Fields → Bool
is_effect ev = is_kind "execute" ev || is_kind "recover" ev

-- the body that two evaluators share, up to the reason: the state is `seen_approve`
unfoldable pub approval_step : String → Bool → Fields → Verdict Bool
approval_step reason seen ev =
    if is_effect ev
    then (if not seen then stop (reject reason) else next seen)
    else if is_kind "approve" ev
    then next true
    else next seen

unfoldable pub evaluate_state_transition_preservation :
    List RawEvent → PolicyPack → Result PolicyDecision
evaluate_state_transition_preservation events pack =
    if not pack.state_transition_preservation
    then ok accept
    else scan (approval_step reason_invalid_state_transition) accept false (validate_events events)

unfoldable pub evaluate_side_effect_authorization :
    List RawEvent → PolicyPack → Result PolicyDecision
evaluate_side_effect_authorization events pack =
    if not pack.side_effect_authorization
    then ok accept
    else scan (approval_step reason_side_effect_unauthorized) accept false (validate_events events)

-- `payload = ev_dict.get("payload") or {}`
unfoldable pub payload : Fields → Json
unfolding or_dict
payload ev = or_dict (get "payload" ev)

unfoldable pub has_artifact : Fields → Bool
unfolding payload truthy dict_get?
has_artifact ev = truthy (dict_get? (payload ev) "artifacts")

-- `kind not in artifact_ok_kinds` raises where the kind is a list or a dictionary
unfoldable pub artifact_step : Unit {0} → Fields → Verdict Unit
unfolding has_artifact
artifact_step s ev =
    if has_artifact ev
    then (if not (is_hashable (get "kind" ev))
        then throw type_error
        else if not (is_kind "approve" ev || is_kind "execute" ev)
        then stop (reject reason_artifact_not_admissible)
        else next s)
    else next s

unfoldable pub evaluate_artifact_admissibility : List RawEvent → PolicyPack → Result PolicyDecision
evaluate_artifact_admissibility events pack =
    if not pack.artifact_admissibility
    then ok accept
    else scan artifact_step accept tt (validate_events events)

-- `payload.get("evidence_complete") is True`
unfoldable pub evidence_complete : Json → Bool
unfolding dict_get?
evidence_complete p = is_true (dict_get? p "evidence_complete")

-- the first test of the body calls `payload.get` with no `isinstance` before it
unfoldable pub evidence_step : Unit {0} → Fields → Verdict Unit
unfolding payload evidence_complete
evidence_step s ev =
    if is_kind "execute" ev && not (is_dict (payload ev))
    then throw Exc.attribute_error
    else if is_kind "execute" ev && evidence_complete (payload ev)
    then stop accept
    else if is_dict (payload ev) && evidence_complete (payload ev)
    then stop accept
    else next s

unfoldable pub evaluate_evidence_complete_execution_token :
    List RawEvent → PolicyPack → Result PolicyDecision
evaluate_evidence_complete_execution_token events pack =
    if not pack.evidence_complete_execution_token
    then ok accept
    else scan evidence_step (block reason_evidence_incomplete) tt (validate_events events)

unfoldable pub lock_step : Json → Fields → Verdict Json
lock_step holder ev =
    if is_kind "lock" ev
    then (if not (is_null holder) && not (py_eq holder (agent_id ev))
        then stop (reject reason_lock_conflict)
        else next (agent_id ev))
    else if is_kind "release" ev
    then (if is_null holder
        then stop (reject reason_release_without_lock)
        else if not (py_eq (agent_id ev) holder)
        then stop (reject reason_lock_conflict)
        else next null)
    else next holder

unfoldable pub evaluate_lock_ownership_invariant :
    List RawEvent → PolicyPack → Result PolicyDecision
evaluate_lock_ownership_invariant events pack =
    if not pack.lock_ownership_invariant
    then ok accept
    else scan lock_step accept null (validate_events events)

-- the dispatch by obligation class; an unknown class is accepted
unfoldable pub evaluate_protocol_obligation :
    String → List RawEvent → PolicyPack → Result PolicyDecision
evaluate_protocol_obligation c events pack =
    if c == "handoff_legality"
    then evaluate_handoff_legality events pack
    else if c == "reviewer_gated"
    then evaluate_reviewer_gated events pack
    else if c == "lock_ownership_invariant"
    then evaluate_lock_ownership_invariant events pack
    else if c == "delegation_admissibility"
    then evaluate_delegation_admissibility events pack
    else if c == "state_transition_preservation"
    then evaluate_state_transition_preservation events pack
    else if c == "artifact_admissibility"
    then evaluate_artifact_admissibility events pack
    else if c == "side_effect_authorization"
    then evaluate_side_effect_authorization events pack
    else if c == "evidence_complete_execution_token"
    then evaluate_evidence_complete_execution_token events pack
    else ok accept
