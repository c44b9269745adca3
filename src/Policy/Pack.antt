-- ===== src/Policy/Pack.antt =====
-- packages/policy/lean_langchain_policy/models.py: a policy pack and its rules.
use lean_lang_chain.Common.{String, Bool, true, false, List, []}
use lean_lang_chain.Policy.Decision.{Trust}

pub record TrustGateRule : Type 0 where
  pub rule_id : String
  pub when_trust_level : List Trust
  pub path_globs : List String
  pub require_human : Bool
  pub reason_code : String

pub record PathRule : Type 0 where
  pub glob : String
  pub require_human : Bool
  pub reason_code : String

pub data ConflictPolicy : Type 0 where
  last_wins error_on_import_scalar_override : ConflictPolicy

pub record PolicyPack : Type 0 where
  pub version : String
  pub name : String
  pub description : String
  pub allow_trust_compiler : Bool
  pub block_sorry_ax : Bool
  pub block_unexpected_custom_axioms : Bool
  pub require_human_if_imports_change : Bool
  pub protected_paths : List String
  pub path_rules : List PathRule
  pub trust_gates : List TrustGateRule
  pub require_human_on_trust_delta : Bool
  pub allow_interactive_warnings : Bool
  pub single_owner_handoff : Bool
  pub reviewer_gated_execution : Bool
  pub lock_ownership_invariant : Bool
  pub evidence_complete_execution_token : Bool
  pub delegation_admissibility : Bool
  pub state_transition_preservation : Bool
  pub artifact_admissibility : Bool
  pub side_effect_authorization : Bool
  pub composition_conflict_policy : ConflictPolicy

-- `PolicyPack(version=…, name=…, description=…)`, every other field at its default
abbrev pub default_pack : String → String → String → PolicyPack
default_pack v n d = record {
  version = v;
  name = n;
  description = d;
  allow_trust_compiler = false;
  block_sorry_ax = true;
  block_unexpected_custom_axioms = true;
  require_human_if_imports_change = true;
  protected_paths = [];
  path_rules = [];
  trust_gates = [];
  require_human_on_trust_delta = true;
  allow_interactive_warnings = true;
  single_owner_handoff = false;
  reviewer_gated_execution = false;
  lock_ownership_invariant = false;
  evidence_complete_execution_token = false;
  delegation_admissibility = false;
  state_transition_preservation = false;
  artifact_admissibility = false;
  side_effect_authorization = false;
  composition_conflict_policy = ConflictPolicy.last_wins;
}
