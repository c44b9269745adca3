-- ===== src/Tests/Runs.antt =====
-- The theorems on runs at a small run.
use lean_lang_chain.Common.{
  none, type_error, Result, raise, refl, ◌≡◌, ok, [], ◌∷◌, arith, false, true,
}
use lean_lang_chain.Runtime.Handlers.{
  dict_item, init_environment, interactive_check, draft_candidate, retrieve_context, batch_verify,
  evaluate_protocol, audit_trust,
}
use lean_lang_chain.Json.{dict_get_or, get_or, has_key, or_dict, obj, field, str, end}
use lean_lang_chain.Runtime.Review.{policy_review, load_pack_for_review}
use lean_lang_chain.Policy.Engine.{evaluate}
use lean_lang_chain.Policy.Patch.{summarize_patch}
use lean_lang_chain.Runtime.Dump.{dump_decision}
use lean_lang_chain.Runtime.State.{make_initial_state}
use lean_lang_chain.Tests.Samples.{deps, start}
use lean_lang_chain.Runtime.State.{ObligationRuntimeState, Status, resume_state, make_resume_state}
use lean_lang_chain.Runtime.Graph.{run_node, next_node, invoke, run, Node, route_start}
use lean_lang_chain.Runtime.Graph.Safety.{IsJustified}
use lean_lang_chain.Runtime.Graph.Accepted.{invoke-Justified}
use lean_lang_chain.Runtime.Graph.Resume.{blank_bundle, resume-approved}
use lean_lang_chain.Runtime.Finalize.{witness_artifact, finalize, Models}
use lean_lang_chain.Runtime.Graph.Evidence.{IsSound, invoke-IsSound}
use lean_lang_chain.Policy.Engine.Stages.{is_report, is_batch}
use lean_lang_chain.Json.{to_list}
use lean_lang_chain.Runtime.Finalize.Ends.{finalize-ends}
use lean_lang_chain.Runtime.Graph.Refused.{run-refused}
use lean_lang_chain.Policy.Protocol.{block}
use lean_lang_chain.Policy.Decision.{reason_evidence_incomplete}
use lean_lang_chain.Runtime.Graph.Limit.{run-fuel}

result_or : ObligationRuntimeState → Result ObligationRuntimeState → ObligationRuntimeState
result_or s (ok t) = t
result_or s (raise e) = s

abbrev final : ObligationRuntimeState
final = result_or start (invoke deps start []).0

final_accepted : ((invoke deps start []).0 ≡ ok final) × (final.status ≡ Status.accepted)
unfolding invoke result_or run_node make_initial_state init_environment dict_item dict_get_or get_or
    has_key next_node interactive_check draft_candidate retrieve_context batch_verify
    evaluate_protocol audit_trust policy_review evaluate dump_decision summarize_patch
    load_pack_for_review finalize
final_accepted = (refl, refl)

invoke-Justified_example : IsJustified deps final
invoke-Justified_example =
    invoke-Justified deps start final [] (unfold route_start make_initial_state in refl)
      final_accepted.0 final_accepted.1

run-fuel_example :
    run deps 9 Node.init_environment start [] ≡ run deps 25 Node.init_environment start []
run-fuel_example = run-fuel deps 9 25 Node.init_environment start [] (omega arith) (omega arith)

resume-approved_example : invoke deps (resume_state "t1" "approved") [] ≡ (
  ok (record (resume_state "t1" "approved") {
    approval_required = false;
    status = Status.accepted;
    artifacts = witness_artifact (blank_bundle deps.models deps.bundle_id) ∷ [];
  }),
  [],
)
resume-approved_example =
    resume-approved deps "t1" (resume_state "t1" "approved") [] (unfold make_resume_state in refl)

final_evidence : (is_report final.interactive_result ≡ true) × (is_batch final.batch_result ≡ true)
unfolding invoke result_or run_node make_initial_state init_environment dict_item dict_get_or get_or
    has_key next_node interactive_check draft_candidate retrieve_context batch_verify
    evaluate_protocol audit_trust policy_review evaluate dump_decision summarize_patch
    load_pack_for_review finalize to_list
final_evidence = (refl, refl)

invoke-IsSound_example : IsSound deps final
invoke-IsSound_example =
    invoke-IsSound deps start final [] (unfold route_start make_initial_state in refl)
      final_accepted.0 final_accepted.1 final_evidence.0 final_evidence.1

-- a record of models that refuse everything
abbrev strict_models : Models
strict_models = record {
  acceptance = λ j. none;
  environment = λ j. none;
  interactive = λ j. none;
  decision = λ j. none;
}

finalize-ends_test :
    finalize strict_models "wit_1"
      (record start { environment_fingerprint = obj (field "repo_id" (str "r") end) })
    ≡ raise type_error
unfolding or_dict has_key make_initial_state
finalize-ends_test =
    finalize-ends strict_models "wit_1"
      (record start { environment_fingerprint = obj (field "repo_id" (str "r") end) })
      (field "repo_id" (str "r") end) end end refl refl refl

-- a state in which the protocol has blocked
abbrev blocked_start : ObligationRuntimeState
blocked_start = record start { policy_decision = dump_decision (block reason_evidence_incomplete) }

run-refused_example :
    run deps 2 Node.policy_review blocked_start []
    ≡ (ok (record blocked_start { status = Status.auditing }), [])
run-refused_example =
    run-refused deps 1 blocked_start [] (block reason_evidence_incomplete) refl refl
