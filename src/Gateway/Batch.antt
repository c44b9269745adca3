-- ===== src/Gateway/Batch.antt =====
-- apps/lean-gateway/lean_langchain_gateway/batch/combine.py, its use by api/routes_batch.py, and
-- the results of packages/schemas/lean_langchain_schemas/batch.py.
pub mod Acceptance
pub mod Audit
pub mod Commands
use lean_lang_chain.Common.{
  ℕ, String, Bool, true, false, not, ◌&&◌, ◌||◌, List, [], ◌∷◌, ◌++◌, is_empty, map, Option, none,
  some, if◌then◌else◌,
}
use lean_lang_chain.Json.{Json, Fields, pos, bool, int, str, arr, obj, end, field, from_list}
use lean_lang_chain.Policy.Decision.{Trust, trust_text}
use lean_lang_chain.Policy.Events.{texts}

-- BatchBuildResult and FreshCheckerResult, which have the same fields
pub record CommandResult : Type 0 where
  pub success : Bool
  pub command : List String
  pub stdout : String
  pub stderr : String
  pub timing_ms : ℕ

pub record AxiomDependency : Type 0 where
  pub declaration : String
  pub axioms : List String

pub record AxiomAuditResult : Type 0 where
  pub success : Bool
  pub trust_level : Trust
  pub blocked_reasons : List String
  pub dependencies : List AxiomDependency

pub record BatchVerifyResult : Type 0 where
  pub success : Bool
  pub build : CommandResult
  pub axiom_audit : AxiomAuditResult
  pub fresh_checker : CommandResult
  pub trust_level : Trust
  pub reasons : List String
  pub axiom_evidence_real : Bool
  pub fresh_evidence_real : Bool

abbrev pub is_blocked : Trust → Bool
is_blocked Trust.blocked = true
is_blocked _ = false

unfoldable pub combine_batch_results :
    CommandResult → AxiomAuditResult → CommandResult → Bool → Bool → BatchVerifyResult
combine_batch_results build audit fresh axiom_real fresh_real = record {
  success = build.success && audit.success && fresh.success && not (is_blocked audit.trust_level);
  build = build;
  axiom_audit = audit;
  fresh_checker = fresh;
  trust_level = audit.trust_level;
  reasons =
      (if not build.success then "lake_build_failed" ∷ [] else [])
      ++ audit.blocked_reasons
      ++ (if not fresh.success then "fresh_checker_failed" ∷ [] else []);
  axiom_evidence_real = axiom_real;
  fresh_evidence_real = fresh_real;
}

-- the reasons that the strict mode adds
abbrev pub strict_reasons : Bool → Bool → List String
strict_reasons axiom_real fresh_real =
    (if not axiom_real then "acceptance_strict_requires_real_axiom_audit" ∷ [] else [])
    ++ (if not fresh_real then "acceptance_strict_requires_real_fresh_checker" ∷ [] else [])

unfoldable pub apply_acceptance_strict : BatchVerifyResult → Bool → Bool → BatchVerifyResult
apply_acceptance_strict combined axiom_real fresh_real =
    if is_empty (strict_reasons axiom_real fresh_real) then combined else record combined {
      success = false;
      trust_level = Trust.blocked;
      reasons = combined.reasons ++ strict_reasons axiom_real fresh_real;
    }

-- what the handler runs for a session, and whether the auditor and the checker are the real ones
pub record Lanes : Type 0 where
  pub run_build : String → CommandResult
  pub run_audit : String → List String → AxiomAuditResult
  pub run_fresh : String → CommandResult
  pub axiom_real : Bool
  pub fresh_real : Bool

-- `strict_flag` says whether OBR_ACCEPTANCE_STRICT, stripped and in lower case, is "1", "true" or
-- "yes"; `production` whether OBR_ENV is "production"
abbrev pub use_strict : Bool → Bool → Bool
use_strict strict_flag production = strict_flag || production

unfoldable pub verify : Lanes → Bool → Bool → String → List String → BatchVerifyResult
unfolding combine_batch_results apply_acceptance_strict
verify lanes strict_flag production workspace declarations =
    let combined =
      combine_batch_results (lanes.run_build workspace) (lanes.run_audit workspace declarations)
        (lanes.run_fresh workspace) lanes.axiom_real lanes.fresh_real in
    if use_strict strict_flag production
    then apply_acceptance_strict combined lanes.axiom_real lanes.fresh_real
    else combined

-- the handler; an unknown session is a 404
unfoldable pub batch_verify :
    (String → Option String) → Lanes → Bool → Bool → String → List String → Option BatchVerifyResult
unfolding verify
batch_verify workspace_of lanes strict_flag production session declarations =
    elim (workspace_of session) [
      | none ↦ none
      | some workspace ↦ some (verify lanes strict_flag production workspace declarations)
    ]

-- the dumps, without time stamps and schema versions
unfoldable pub dump_command : CommandResult → Json
unfolding texts
dump_command r = obj (
    field "ok" (bool r.success) (
      field "command" (arr (texts r.command)) (
        field "stdout" (str r.stdout)
          (field "stderr" (str r.stderr) (field "timing_ms" (int (pos r.timing_ms)) end)))))

dump_dependency : AxiomDependency → Json
unfolding texts
dump_dependency d =
    obj (field "declaration" (str d.declaration) (field "axioms" (arr (texts d.axioms)) end))

unfoldable pub dump_audit : AxiomAuditResult → Json
unfolding texts from_list dump_dependency
dump_audit r = obj (
    field "ok" (bool r.success) (
      field "trust_level" (str (trust_text r.trust_level)) (
        field "blocked_reasons" (arr (texts r.blocked_reasons))
          (field "dependencies" (arr (from_list (map dump_dependency r.dependencies))) end))))

-- `model_dump(mode="json")` of the result, as the client hands it to the graph
unfoldable pub dump_batch : BatchVerifyResult → Fields
unfolding dump_command dump_audit texts
dump_batch r = field "ok" (bool r.success) (
    field "build" (dump_command r.build) (
      field "axiom_audit" (dump_audit r.axiom_audit) (
        field "fresh_checker" (dump_command r.fresh_checker) (
          field "trust_level" (str (trust_text r.trust_level)) (
            field "reasons" (arr (texts r.reasons)) (
              field "axiom_evidence_real" (bool r.axiom_evidence_real)
                (field "fresh_evidence_real" (bool r.fresh_evidence_real) end)))))))
