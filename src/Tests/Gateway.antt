-- ===== src/Tests/Gateway.antt =====
-- The theorems of the gateway and of the pack loader at concrete stores, lanes and files.
use mathlib.Core.List.{foldl}
use lean_lang_chain.Common.{
  String, ◌≡◌, refl, true, false, Option, none, some, List, [], ◌∷◌, ◌++◌, ok, Result, arith, ◌==◌,
  if◌then◌else◌,
}
use lean_lang_chain.Json.{Json, Fields, str, obj, end, field, update, set, get_or, to_list}
use lean_lang_chain.Policy.Decision.{Trust}
use lean_lang_chain.Policy.Engine.{evaluate, accepted_by}
use lean_lang_chain.Gateway.Reviews.{ReviewDecision, get_record}
use lean_lang_chain.Gateway.Reviews.History.{
  Request, handle, history-thread, create, decide, remove,
}
use lean_lang_chain.Gateway.Batch.{Lanes, verify, CommandResult, dump_batch}
use lean_lang_chain.Gateway.Batch.Acceptance.{lanes_pass, verify-success, accepted-lanes}
use lean_lang_chain.Gateway.Batch.Commands.{Process, ended}
use lean_lang_chain.Json.{pos}
use lean_lang_chain.Gateway.Queues.{plain, drain, enqueue_all, contents, drain-enqueue_all}
use lean_lang_chain.Gateway.Sessions.{SessionLease, acquire, acquire-again}
use lean_lang_chain.Loader.{merge_pack_layers}
use lean_lang_chain.Loader.Keys.{IsMerged, merge-IsMerged}
use lean_lang_chain.Policy.Pack.{default_pack}
use lean_lang_chain.Tests.Samples.{report, warning}

abbrev requests : List Request
requests =
    create "t1" end ∷ create "t2" end ∷ decide "t1" ReviewDecision.approved ∷ remove "t2" ∷ []

history-thread_example :
    get_record "t1" (foldl handle [] requests)
    ≡ some (record { payload = end; decision = some ReviewDecision.approved })
unfolding get_record
history-thread_example = history-thread "t1" requests []

abbrev passed_command : CommandResult
passed_command = record {
  success = true;
  command = "lake" ∷ "build" ∷ [];
  stdout = "";
  stderr = "";
  timing_ms = 12;
}

abbrev lanes : Lanes
lanes = record {
  run_build = λ workspace. passed_command;
  run_audit = λ workspace declarations. record {
    success = true;
    trust_level = Trust.clean;
    blocked_reasons = [];
    dependencies = [];
  };
  run_fresh = λ workspace. passed_command;
  axiom_real = true;
  fresh_real = true;
}

verify_test : (verify lanes false true "/w" []).success ≡ true
verify_test = verify-success lanes false true "/w" []

lanes_accepted :
    evaluate
      (report warning)
      (obj (dump_batch (verify lanes false true "/w" [])))
      end
      (default_pack "1" "p" "P")
    ≡ ok (accepted_by (default_pack "1" "p" "P"))
unfolding evaluate dump_batch verify get_or
lanes_accepted = refl

accepted-lanes_example :
    (lanes_pass lanes false true "/w" [] ≡ true) × ((lanes.run_audit "/w" []).blocked_reasons ≡ [])
unfolding get_or to_list
accepted-lanes_example =
    accepted-lanes lanes false true "/w" [] (report warning) end (default_pack "1" "p" "P") refl
      lanes_accepted

drain-enqueue_all_example :
    drain 3 "q" (enqueue_all (λ fs. "{}") "q" (plain "a" ∷ plain "b" ∷ []) [])
    ≡ contents "q" [] ++ "a" ∷ "b" ∷ []
drain-enqueue_all_example =
    drain-enqueue_all (λ fs. "{}") 3 "q" (plain "a" ∷ plain "b" ∷ []) []
      (unfold contents in omega arith)

abbrev lease : SessionLease
lease = record {
  session_id = "s1";
  fingerprint_id = "f1";
  workspace_path = "/w";
  started_at = 0;
  last_used_at = 0;
}

acquire_test :
    (acquire "f1" "/v" 2 "w2" (acquire "f1" "/w" 1 "w1" []).1).0
    ≡ record (acquire "f1" "/w" 1 "w1" []).0 { last_used_at = 2 }
acquire_test = acquire-again "f1" "/w" "/v" 1 2 "w1" "w2" []

abbrev pack_files : String → Option (Result Json)
pack_files path =
    if path == "base"
    then some (ok (obj (field "version" (str "1") end)))
    else if path == "child"
    then some (ok (obj (field "extends" (str "base") (field "name" (str "child") end))))
    else none

abbrev child : Fields
child = field "version" (str "1") (field "name" (str "child") end)

child_merged : merge_pack_layers pack_files (λ name. name) 13 "child" [] ≡ ok child
unfolding merge_pack_layers update set get_or
child_merged = refl

merge-IsMerged_example : IsMerged child
merge-IsMerged_example = merge-IsMerged pack_files (λ name. name) 13 "child" [] child child_merged

-- where every command ends at once with the exit code zero
abbrev spawn : String → List String → Process
spawn workspace command = ended "" "" (pos 0) 1
