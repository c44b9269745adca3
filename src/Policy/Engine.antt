-- ===== src/Policy/Engine.antt =====
-- packages/policy/lean_langchain_policy/engine.py: `PolicyEngine.evaluate`. The lists `reasons` and
-- `rules` are empty until the branch that returns, so each branch builds its own; a stage is
-- `none` where the code goes on to the next test.
pub mod Stages
pub mod Acceptance
pub mod Audit
use Prim.Native.String.{◌++◌ as text_append}
use lean_lang_chain.Common.{
  ℕ, String, Bool, true, false, not, ◌&&◌, ◌||◌, Option, none, some, List, [], ◌∷◌, ◌++◌, any,
  is_empty, Result, ok, raise, attribute_error, type_error, value_error, ◌>>=◌, if◌then◌else◌,
}
use lean_lang_chain.Json.{
  Json, Fields, bool, str, arr, obj, nil, end, field, get, get_or, truthy, or_list, dict_get,
  dict_get_or, is_str, is_false, to_list,
}
use lean_lang_chain.Glob.{fnmatch, basename, slashes}
use lean_lang_chain.Policy.Decision.{Decision, Trust, RuleEffect, PolicyDecision, trust_text}
use lean_lang_chain.Policy.Pack.{PolicyPack, TrustGateRule, PathRule}

-- `return PolicyDecision(…)` with the pack's name and version, and the one resolved rule
unfoldable pub decide :
    PolicyPack → Decision → Trust → List String → String → RuleEffect → String → PolicyDecision
decide pack d t reasons rule_id effect reason_code = record {
  decision = d;
  trust_level = t;
  reasons = reasons;
  policy_pack_name = pack.name;
  policy_pack_version = pack.version;
  resolved_rules =
      record {
        rule_id = rule_id;
        source_pack = pack.name;
        matched = true;
        effect = effect;
        reason_code = reason_code;
      }
      ∷ [];
}

-- a review that one rule asks for, with one reason
unfoldable pub review : PolicyPack → Trust → String → String → PolicyDecision
unfolding decide
review pack t rule_id reason =
    decide pack Decision.needs_review t (reason ∷ []) rule_id RuleEffect.needs_review reason

abbrev pub accepted_by : PolicyPack → PolicyDecision
accepted_by pack =
    decide pack Decision.accepted Trust.clean [] "accept" RuleEffect.accepted "accepted"

characters : String → List Json
characters String.[] = []
characters (String.◌∷◌ c s) = str (String.◌∷◌ c String.[]) ∷ characters s

keys : Fields → List Json
keys end = []
keys (field k v fs) = str k ∷ keys fs

-- `for x in v`: what a loop over a JSON value goes through
unfoldable pub iterate : Json → Result (List Json)
unfolding characters keys to_list
iterate (arr xs) = ok (to_list xs)
iterate (obj fs) = ok (keys fs)
iterate (str s) = ok (characters s)
iterate _ = raise type_error

-- `[d for d in diagnostics if d.get("severity") == "error"]` is not empty
unfoldable pub any_error : List Json → Result Bool
unfolding dict_get
any_error [] = ok false
any_error (d ∷ ds) = do
  severity ← dict_get d "severity"
  rest ← any_error ds
  ok (is_str "error" severity || rest)

unfoldable pub interactive_errors : PolicyPack → PolicyDecision
unfolding decide
interactive_errors pack =
    decide pack Decision.rejected Trust.blocked ("interactive_errors_present" ∷ [])
      "interactive_errors" RuleEffect.rejected "interactive_errors_present"

unfoldable pub diagnostics_stage : Json → PolicyPack → Result (Option PolicyDecision)
unfolding iterate any_error truthy
diagnostics_stage diagnostics pack = if not (truthy diagnostics) then ok none else do
  ds ← iterate diagnostics
  error_like ← any_error ds
  ok (if error_like then some (interactive_errors pack) else none)

unfoldable pub interactive_stage : Json → PolicyPack → Result (Option PolicyDecision)
unfolding diagnostics_stage truthy dict_get
interactive_stage ir pack =
    if not (truthy ir)
    then ok none
    else do diagnostics ← dict_get ir "diagnostics"; diagnostics_stage diagnostics pack

-- `reasons: list[str]` of the model refuses anything but texts
unfoldable pub as_texts : List Json → Result (List String)
as_texts [] = ok []
as_texts (str s ∷ js) = do ss ← as_texts js; ok (s ∷ ss)
as_texts (_ ∷ js) = raise value_error

-- `reasons.append(code)` where `batch_result.get(part, {}).get("ok") is False`
unfoldable pub part_failed : Fields → String → String → Result (List String)
part_failed b part code = do
  is_ok ← dict_get (get_or part (obj end) b) "ok"
  ok (if is_false is_ok then code ∷ [] else [])

unfoldable pub failed_reasons : Fields → Result (List String)
unfolding part_failed
failed_reasons b = do
  build ← part_failed b "build" "lake_build_failed"
  fresh ← part_failed b "fresh_checker" "fresh_checker_failed"
  ok ("batch_verify_failed" ∷ (build ++ fresh))

-- one changed file against one pattern
unfoldable pub path_matches : String → List ℕ → Bool
path_matches g f = fnmatch f (slashes g) || fnmatch (basename f) (slashes g)

unfoldable pub gate_matches : TrustGateRule → Json → List (List ℕ) → Bool
unfolding path_matches
gate_matches tg trust_level files =
    any (λ t. is_str (trust_text t) trust_level) tg.when_trust_level
    && (if is_empty tg.path_globs
        then not (is_empty files)
        else any (λ f. any (λ g. path_matches g f) tg.path_globs) files)

unfoldable pub trust_gates_stage :
    List TrustGateRule → Json → List (List ℕ) → PolicyPack → Option PolicyDecision
unfolding gate_matches
trust_gates_stage [] trust_level files pack = none
trust_gates_stage (tg ∷ tgs) trust_level files pack =
    if gate_matches tg trust_level files && tg.require_human
    then some (review pack Trust.clean tg.rule_id tg.reason_code)
    else trust_gates_stage tgs trust_level files pack

-- what stands for a failed and for a blocked verification
unfoldable pub batch_failed : Fields → PolicyPack → Result (Option PolicyDecision)
unfolding failed_reasons decide
batch_failed b pack = do
  reasons ← failed_reasons b
  ok (
      some (
        decide pack Decision.rejected Trust.blocked reasons "batch_verify" RuleEffect.rejected
          "batch_verify_failed"))

unfoldable pub axiom_blocked : Json → PolicyPack → Result (Option PolicyDecision)
unfolding iterate as_texts decide
axiom_blocked blocked_reasons pack = do
  js ← iterate blocked_reasons
  reasons ← as_texts js
  ok (
      some (
        decide pack Decision.blocked Trust.blocked reasons "axiom_audit" RuleEffect.blocked
          "axiom_blocked"))

unfoldable pub trust_stage : Json → List (List ℕ) → PolicyPack → Option PolicyDecision
unfolding trust_gates_stage review
trust_stage trust_level files pack =
    if is_str "warning" trust_level && not pack.allow_trust_compiler
    then some (review pack Trust.warning "trust_compiler" "trust_compiler_detected")
    else trust_gates_stage pack.trust_gates trust_level files pack

unfoldable pub batch_dict_stage :
    Fields → List (List ℕ) → PolicyPack → Result (Option PolicyDecision)
unfolding batch_failed axiom_blocked trust_stage truthy dict_get_or
batch_dict_stage b files pack =
    if not (truthy (get_or "ok" (bool false) b)) then batch_failed b pack else do
      blocked_reasons ← dict_get_or (get_or "axiom_audit" (obj end) b) "blocked_reasons" (arr nil)
      if truthy blocked_reasons
          then axiom_blocked blocked_reasons pack
          else ok (trust_stage (get_or "trust_level" (str "clean") b) files pack)

batch_value_stage : Json → List (List ℕ) → PolicyPack → Result (Option PolicyDecision)
unfolding batch_dict_stage
batch_value_stage (obj b) files pack = batch_dict_stage b files pack
batch_value_stage _ files pack = raise attribute_error

unfoldable pub batch_stage : Json → List (List ℕ) → PolicyPack → Result (Option PolicyDecision)
unfolding batch_value_stage truthy
batch_stage br files pack = if not (truthy br) then ok none else batch_value_stage br files pack

unfoldable pub path_rules_stage : List PathRule → List (List ℕ) → PolicyPack → Option PolicyDecision
unfolding path_matches review
path_rules_stage [] files pack = none
path_rules_stage (rule ∷ rules) files pack =
    if any (path_matches rule.glob) files && rule.require_human
    then some (review pack Trust.clean (text_append "path_rule:" rule.glob) rule.reason_code)
    else path_rules_stage rules files pack

-- the tests of the patch metadata, in their order
unfoldable pub patch_stage : Fields → List (List ℕ) → PolicyPack → PolicyDecision
unfolding path_rules_stage review decide
patch_stage meta files pack =
    if truthy (get "trust_delta" meta) && pack.require_human_on_trust_delta
    then review pack Trust.clean "trust_delta" "trust_delta_requires_review"
    else elim (path_rules_stage pack.path_rules files pack) [
      | some d ↦ d
      | none ↦
          if truthy (get "protected_paths_touched" meta)
          then review pack Trust.clean "protected_paths" "protected_path_touched"
          else if truthy (get "imports_changed" meta) && pack.require_human_if_imports_change
          then review pack Trust.clean "imports_changed" "imports_changed_requires_review"
          else accepted_by pack
    ]

texts_of : List Json → List (List ℕ)
texts_of [] = []
texts_of (str s ∷ js) = slashes s ∷ texts_of js
texts_of (_ ∷ js) = texts_of js

-- `normalized`: the changed files that are texts, with forward slashes
unfoldable pub normalized : Fields → List (List ℕ)
unfolding texts_of to_list or_list
normalized meta = elim (or_list (get "changed_files" meta)) [
  | arr xs ↦ texts_of (to_list xs)
  | _ ↦ []
]

unfoldable pub evaluate : Json → Json → Fields → PolicyPack → Result PolicyDecision
unfolding interactive_stage batch_stage patch_stage normalized
evaluate interactive_result batch_result meta pack = do
  interactive ← interactive_stage interactive_result pack
  elim interactive [
    | some d ↦ ok d
    | none ↦ do
      batch ← batch_stage batch_result (normalized meta) pack
      elim batch [ some d ↦ ok d | none ↦ ok (patch_stage meta (normalized meta) pack) ]
  ]
