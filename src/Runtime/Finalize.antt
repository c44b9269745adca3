-- ===== src/Runtime/Finalize.antt =====
-- runtime/nodes/handlers.py: `finalize`. The models of pydantic are parameters: each turns a
-- dictionary into the dump of the validated model, or refuses it. Time stamps and schema versions
-- are left out of the dumps.
pub mod Ends
use lean_lang_chain.Common.{
  String, Bool, true, ◌||◌, Option, none, some, [], ◌∷◌, ◌++◌, Result, ok, raise, value_error,
  type_error, ◌>>=◌, if◌then◌else◌,
}
use lean_lang_chain.Json.{
  Json, Fields, pos, null, bool, int, str, arr, obj, nil, end, field, has_key, truthy, or_dict,
}
use lean_lang_chain.Policy.Decision.{Decision, Trust, plain}
use lean_lang_chain.Runtime.State.{ObligationRuntimeState, Status}
use lean_lang_chain.Runtime.Dump.{dump_decision}

pub record Models : Type 0 where
  pub acceptance : Json → Option Json
  pub environment : Json → Option Json
  pub interactive : Json → Option Json
  pub decision : Json → Option Json

-- `AcceptanceSummary()`
abbrev pub default_acceptance : Json
default_acceptance = obj (
    field "ok" (bool true) (
      field "trust_level" (str "clean") (
        field "reasons" (arr nil) (
          field "build" (obj end)
            (field "axiom_audit" (obj end) (field "fresh_checker" (obj end) end))))))

-- `InteractiveCheckResult(ok=True, diagnostics=[], goals=[])`
abbrev pub default_interactive : Json
default_interactive = obj (
    field "ok" (bool true) (
      field "phase" (str "interactive") (
        field "diagnostics" (arr nil) (
          field "goals" (arr nil) (
            field "stdout" (str "")
              (field "stderr" (str "") (field "timing_ms" (int (pos 0)) end)))))))

-- `EnvironmentFingerprint` with its four texts empty
abbrev pub blank_environment : Json
blank_environment = obj (
    field "repo_id" (str "") (
      field "repo_url" null (
        field "commit_sha" (str "") (
          field "lean_toolchain" (str "") (
            field "lakefile_hash" (str "") (
              field "manifest_hash" null (
                field "target_platform" (str "linux/amd64") (
                  field "build_flags" (arr nil)
                    (field "os_family" (str "linux") (field "imported_packages" null end))))))))))

-- one of the four names that the fallback passes by name and by `**` too
abbrev pub names_twice : Fields → Bool
names_twice env =
    has_key "repo_id" env
    || has_key "commit_sha" env
    || has_key "lean_toolchain" env
    || has_key "lakefile_hash" env

-- a name passed twice is a TypeError
unfoldable pub environment_fallback : Fields → Result Json
environment_fallback env = if names_twice env then raise type_error else ok blank_environment

-- a value that is no dictionary is refused by the bundle itself
unfoldable pub validated_environment : Models → Json → Result Json
unfolding environment_fallback
validated_environment m (obj env) = elim (m.environment (obj env)) [
  | some v ↦ ok v
  | none ↦ environment_fallback env
]
validated_environment m _ = raise value_error

unfoldable pub validated : (Json → Option Json) → Json → Json → Result Json
validated model fallback (obj fs) = elim (model (obj fs)) [ some v ↦ ok v | none ↦ ok fallback ]
validated model fallback _ = raise value_error

unfoldable pub validated_acceptance : Models → Json → Json
unfolding truthy
validated_acceptance m batch =
    if truthy batch
    then elim (m.acceptance batch) [ some v ↦ v | none ↦ default_acceptance ]
    else default_acceptance

-- `approval_val if isinstance(approval_val, dict) else {}`
abbrev pub dict_or_empty : Json → Json
dict_or_empty (obj fs) = obj fs
dict_or_empty _ = obj end

abbrev pub bundle : String → String → Json → Json → Json → Json → Json → Json
bundle bundle_id obligation_id env inter acceptance policy approval = obj (
    field "bundle_id" (str bundle_id) (
      field "obligation_id" (str obligation_id) (
        field "environment_fingerprint" env (
          field "interactive" inter (
            field "acceptance" acceptance
              (field "policy" policy (field "approval" approval (field "trace" (obj end) end))))))))

abbrev pub witness_artifact : Json → Json
witness_artifact b = obj (field "kind" (str "witness_bundle") (field "bundle" b end))

-- `bundle_id` is what `new_id("wit")` returns
unfoldable pub finalize : Models → String → ObligationRuntimeState → Result ObligationRuntimeState
unfolding validated_environment validated validated_acceptance or_dict
finalize m bundle_id s = do
  env ← validated_environment m (or_dict s.environment_fingerprint)
  inter ← validated m.interactive default_interactive (or_dict s.interactive_result)
  policy ←
      validated m.decision (dump_decision (plain Decision.accepted Trust.clean []))
        (or_dict s.policy_decision)
  let b =
      bundle bundle_id s.obligation_id env inter (validated_acceptance m s.batch_result) policy
        (dict_or_empty s.approval_decision)
  ok (record s { status = Status.accepted; artifacts = s.artifacts ++ witness_artifact b ∷ [] })
