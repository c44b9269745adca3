-- ===== src/Policy/Decision.antt =====
-- packages/policy/lean_langchain_policy/constants.py and
-- packages/schemas/lean_langchain_schemas/policy.py: decisions, trust levels and reason codes.
use lean_lang_chain.Common.{String, Bool, true, false, List, []}

pub data Decision : Type 0 where
  accepted rejected blocked needs_review lower_trust failed : Decision

pub data Trust : Type 0 where
  clean warning blocked : Trust

pub data RuleEffect : Type 0 where
  none needs_review rejected blocked accepted : RuleEffect

pub record PolicyResolvedRule : Type 0 where
  pub rule_id : String
  pub source_pack : String
  pub matched : Bool
  pub effect : RuleEffect
  pub reason_code : String

pub record PolicyDecision : Type 0 where
  pub decision : Decision
  pub trust_level : Trust
  pub reasons : List String
  pub policy_pack_name : String
  pub policy_pack_version : String
  pub resolved_rules : List PolicyResolvedRule

-- `PolicyDecision(decision=…, trust_level=…, reasons=…)`, the other fields at their defaults
abbrev pub plain : Decision → Trust → List String → PolicyDecision
plain d t rs = record {
  decision = d;
  trust_level = t;
  reasons = rs;
  policy_pack_name = "";
  policy_pack_version = "";
  resolved_rules = [];
}

abbrev pub reason_delegate_without_prior_claim : String
reason_delegate_without_prior_claim = "delegate_without_prior_claim"

abbrev pub reason_owner_mismatch : String
reason_owner_mismatch = "owner_mismatch"

abbrev pub reason_missing_approval_token : String
reason_missing_approval_token = "missing_approval_token"

abbrev pub reason_lock_conflict : String
reason_lock_conflict = "lock_conflict"

abbrev pub reason_release_without_lock : String
reason_release_without_lock = "release_without_lock"

abbrev pub reason_invalid_state_transition : String
reason_invalid_state_transition = "invalid_state_transition"

abbrev pub reason_artifact_not_admissible : String
reason_artifact_not_admissible = "artifact_not_admissible"

abbrev pub reason_side_effect_unauthorized : String
reason_side_effect_unauthorized = "side_effect_unauthorized"

abbrev pub reason_evidence_incomplete : String
reason_evidence_incomplete = "evidence_incomplete"

-- `decision.decision in ("rejected", "blocked")`
abbrev pub is_refusal : Decision → Bool
is_refusal Decision.rejected = true
is_refusal Decision.blocked = true
is_refusal _ = false

abbrev pub is_accepted : Decision → Bool
is_accepted Decision.accepted = true
is_accepted _ = false

-- the text of a `Literal`, as `model_dump` writes it
abbrev pub decision_text : Decision → String
decision_text Decision.accepted = "accepted"
decision_text Decision.rejected = "rejected"
decision_text Decision.blocked = "blocked"
decision_text Decision.needs_review = "needs_review"
decision_text Decision.lower_trust = "lower_trust"
decision_text Decision.failed = "failed"

abbrev pub trust_text : Trust → String
trust_text Trust.clean = "clean"
trust_text Trust.warning = "warning"
trust_text Trust.blocked = "blocked"
