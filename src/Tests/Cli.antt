-- ===== src/Tests/Cli.antt =====
-- The commands at concrete arguments.
use lean_lang_chain.Common.{
  String, ◌≡◌, refl, none, some, [], ◌∷◌, Exc, ok, raise, file_not_found, true,
}
use lean_lang_chain.Json.{
  obj, arr, cons, nil, str, int, pos, field, end, get_or, dict_get_or, has_key,
}
use lean_lang_chain.Runtime.Handlers.{
  dict_item, init_environment, interactive_check, draft_candidate, retrieve_context, batch_verify,
  evaluate_protocol, audit_trust,
}
use lean_lang_chain.Runtime.Review.{policy_review, load_pack_for_review}
use lean_lang_chain.Policy.Engine.{evaluate}
use lean_lang_chain.Policy.Patch.{summarize_patch}
use lean_lang_chain.Runtime.Dump.{dump_decision}
use lean_lang_chain.Runtime.State.{make_initial_state}
use lean_lang_chain.Runtime.Graph.{run_node, next_node, invoke}
use lean_lang_chain.Runtime.Finalize.{finalize}
use lean_lang_chain.Tests.Samples.{deps}
use lean_lang_chain.Cli.{Files, PatchArgs, cmd_run_patch_obligation}
use lean_lang_chain.Cli.Reading.{cmd_artifacts}
use lean_lang_chain.Cli.Reported.{accepted_output, IsBacked, cmd_run_patch_obligation-IsBacked}

abbrev files : Files
files = record {
  read = λ path. ok "theorem t : True := trivial";
  events = λ path. raise file_not_found;
  name = λ path. "A.lean";
}

abbrev patch_args : PatchArgs
patch_args = record {
  thread_id = some "t1";
  obligation_id = none;
  repo_id = none;
  repo_path = none;
  target_files = some ("A.lean" ∷ []);
  target_declarations = [];
  patch_file = some "p/A.lean";
  patch_apply_path = none;
  policy_pack = none;
  protected_paths = none;
  protocol_events_file = none;
}

abbrev show_exc : Exc → String
show_exc e = "error"

patch_accepted :
    (cmd_run_patch_obligation deps files show_exc patch_args true []).0 ≡ ok (accepted_output 1)
unfolding cmd_run_patch_obligation invoke run_node make_initial_state init_environment dict_item
    dict_get_or get_or has_key next_node interactive_check draft_candidate retrieve_context
    batch_verify evaluate_protocol audit_trust policy_review evaluate dump_decision summarize_patch
    load_pack_for_review finalize
patch_accepted = refl

cmd_run_patch_obligation-IsBacked_example : IsBacked deps files show_exc patch_args []
cmd_run_patch_obligation-IsBacked_example =
    cmd_run_patch_obligation-IsBacked deps files show_exc patch_args [] 1 patch_accepted

-- the artifacts of a thread go to the file
artifacts_test :
    cmd_artifacts
      (λ thread. ok (some (obj (field "artifacts" (arr (cons (obj end) nil)) end))))
      show_exc
      true
      true
      (some "t1")
      (some "out.json")
    ≡ record {
      printed =
          obj (
            field "thread_id"
              (str "t1")
              (field "artifacts_count" (int (pos 1)) (field "written_to" (str "out.json") end)))
          ∷ [];
      written = ("out.json", arr (cons (obj end) nil)) ∷ [];
      code = 0;
    }
unfolding cmd_artifacts
artifacts_test = refl
