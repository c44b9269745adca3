-- ===== src/Tests/Traces.antt =====
-- A traced run.
use lean_lang_chain.Common.{◌≡◌, refl, ok, raise, List, [], ◌∷◌, ◌++◌, Result}
use lean_lang_chain.Runtime.Handlers.{
  init_environment, dict_item, interactive_check, draft_candidate, retrieve_context, batch_verify,
  evaluate_protocol, audit_trust,
}
use lean_lang_chain.Json.{dict_get_or, get_or, has_key}
use lean_lang_chain.Runtime.Review.{policy_review, load_pack_for_review}
use lean_lang_chain.Policy.Engine.{evaluate}
use lean_lang_chain.Policy.Patch.{summarize_patch}
use lean_lang_chain.Runtime.Dump.{dump_decision}
use lean_lang_chain.Runtime.State.{ObligationRuntimeState, make_initial_state}
use lean_lang_chain.Runtime.Finalize.{finalize}
use lean_lang_chain.Runtime.Graph.{run_node, next_node, invoke}
use lean_lang_chain.Runtime.Tracing.{Tracer, Event, traced_invoke}
use lean_lang_chain.Runtime.Tracing.Returned.{traced_invoke-returns}
use lean_lang_chain.Tests.Samples.{deps, start}

abbrev in_memory : Tracer (List Event)
in_memory = record { emit = λ e events. (ok tt, events ++ e ∷ []); env_hash = λ env. "0" }

result_or : ObligationRuntimeState → Result ObligationRuntimeState → ObligationRuntimeState
result_or s (ok t) = t
result_or s (raise e) = s

abbrev final : ObligationRuntimeState
final = result_or start (traced_invoke in_memory deps start ([], [])).0

traced_final : (traced_invoke in_memory deps start ([], [])).0 ≡ ok final
unfolding traced_invoke result_or run_node make_initial_state init_environment dict_item dict_get_or
    get_or has_key next_node interactive_check draft_candidate retrieve_context batch_verify
    evaluate_protocol audit_trust policy_review evaluate dump_decision summarize_patch
    load_pack_for_review finalize
traced_final = refl

traced_invoke-returns_example :
    ((invoke deps start []).0 ≡ ok final)
    × ((traced_invoke in_memory deps start ([], [])).1.0 ≡ (invoke deps start []).1)
traced_invoke-returns_example = traced_invoke-returns in_memory deps start final [] [] traced_final
