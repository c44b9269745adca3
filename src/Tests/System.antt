-- ===== src/Tests/System.antt =====
-- A run of the graph over the gateway.
use lean_lang_chain.Common.{◌≡◌, refl, true, false, ok, none, some, [], ◌∷◌, Result, raise, String}
use lean_lang_chain.Json.{Json, obj, str, end, field, dict_get_or, get_or, has_key, to_list}
use lean_lang_chain.Policy.Decision.{Trust}
use lean_lang_chain.Policy.Engine.{evaluate}
use lean_lang_chain.Policy.Patch.{summarize_patch}
use lean_lang_chain.Gateway.Batch.{Lanes, CommandResult, dump_batch}
use lean_lang_chain.Gateway.Interactive.{test_double}
use lean_lang_chain.Runtime.Dump.{dump_decision}
use lean_lang_chain.Runtime.Exec.{Client, pure}
use lean_lang_chain.Runtime.Finalize.{finalize}
use lean_lang_chain.Runtime.Graph.{Deps, invoke, route_start, run_node, next_node}
use lean_lang_chain.Runtime.Handlers.{
  init_environment, dict_item, interactive_check, draft_candidate, retrieve_context, batch_verify,
  evaluate_protocol, audit_trust,
}
use lean_lang_chain.Runtime.Review.{policy_review, load_pack_for_review}
use lean_lang_chain.Runtime.State.{ObligationRuntimeState, Status, make_initial_state}
use lean_lang_chain.System.{World, Service, client_of}
use lean_lang_chain.System.Accepted.{over_gateway, IsVerified, invoke-IsVerified}
use lean_lang_chain.Tests.Samples
use lean_lang_chain.Tests.Samples.{start}

abbrev finished : CommandResult
finished = record { success = true; command = []; stdout = ""; stderr = ""; timing_ms = 7 }

abbrev lanes : Lanes
lanes = record {
  run_build = λ workspace. finished;
  run_audit = λ workspace declarations. record {
    success = true;
    trust_level = Trust.clean;
    blocked_reasons = [];
    dependencies = [];
  };
  run_fresh = λ workspace. finished;
  axiom_real = true;
  fresh_real = true;
}

-- the calls that no handler serves
abbrev others : Client World
others = record {
  open_environment = λ repo path sha w. pure (obj (field "fingerprint_id" (str "f1") end)) w;
  create_session = λ fid w. pure (obj end) w;
  apply_patch = λ sid patch w. pure (obj end) w;
  interactive_check = λ sid file w. pure (obj end) w;
  batch_verify = λ sid files decls w. pure (obj end) w;
  create_pending_review = λ payload w. pure payload w;
}

json_text : Json → String
json_text (str s) = s
json_text _ = ""

-- a gateway in production
abbrev service : Service
service = record {
  lanes = lanes;
  strict_flag = false;
  production = true;
  transport = test_double;
  well_typed = λ fs. true;
  goal_typed = λ fs. true;
  shown = json_text;
  hex = λ n. "0a";
  worker_id = λ n. "wrk_0b";
  elapsed = 3;
  overlay_path = λ id. "/overlays";
  others = others;
}

abbrev world : World
world = record {
  disk = record { snapshots = ("f1", λ path. none) ∷ []; overlays = [] };
  sessions = [];
  pool = [];
  time = 0;
}

abbrev deps : Deps World
deps = over_gateway service (record {
  client = others;
  load_pack = Samples.deps.load_pack;
  env_pack = none;
  sha256 = λ s. s;
  models = Samples.deps.models;
  validate_review = λ j. some j;
  bundle_id = "wit_1";
})

result_or : ObligationRuntimeState → Result ObligationRuntimeState → ObligationRuntimeState
result_or s (ok t) = t
result_or s (raise e) = s

abbrev final : ObligationRuntimeState
final = result_or start (invoke deps start world).0

final_accepted : ((invoke deps start world).0 ≡ ok final) × (final.status ≡ Status.accepted)
unfolding invoke result_or run_node make_initial_state init_environment dict_item dict_get_or get_or
    has_key next_node interactive_check draft_candidate retrieve_context batch_verify
    evaluate_protocol audit_trust policy_review evaluate dump_decision summarize_patch
    load_pack_for_review finalize client_of json_text to_list dump_batch
final_accepted = (refl, refl)

invoke-IsVerified_example : IsVerified service deps final
invoke-IsVerified_example =
    invoke-IsVerified service deps start final world (unfold route_start make_initial_state in refl)
      final_accepted.0 final_accepted.1
