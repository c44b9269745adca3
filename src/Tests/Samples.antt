-- ===== src/Tests/Samples.antt =====
-- A pack with every protocol check, event lists, and the collaborators of a small run.
use lean_lang_chain.Common.{String, none, some, true, List, [], ◌∷◌, raise, file_not_found}
use lean_lang_chain.Json.{Json, Fields, obj, str, bool, arr, nil, cons, end, field, null}
use lean_lang_chain.Policy.Pack.{PolicyPack, default_pack}
use lean_lang_chain.Policy.Events.{RawEvent, dict}
use lean_lang_chain.Runtime.Exec.{Client, pure}
use lean_lang_chain.Runtime.Graph.{Deps}
use lean_lang_chain.Runtime.State.{ObligationRuntimeState, make_initial_state}

abbrev pub full_pack : PolicyPack
full_pack = record (default_pack "1" "full" "Full") {
  single_owner_handoff = true;
  reviewer_gated_execution = true;
  lock_ownership_invariant = true;
  evidence_complete_execution_token = true;
  delegation_admissibility = true;
  state_transition_preservation = true;
  artifact_admissibility = true;
  side_effect_authorization = true;
}

abbrev pub event : String → String → Fields
event kind agent =
    field "kind" (str kind)
      (field "actor" (obj (field "agent_id" (str agent) end)) (field "task" (obj end) end))

abbrev pub claimed_twice : List RawEvent
claimed_twice =
    dict (event "claim" "ann") ∷ dict (event "claim" "bob") ∷ dict (event "delegate" "bob") ∷ []

abbrev pub approved_run : List RawEvent
approved_run = dict (event "approve" "ann") ∷ dict (event "execute" "bob") ∷ []

abbrev pub locked : List RawEvent
locked = dict (event "lock" "ann") ∷ dict (event "release" "ann") ∷ []

-- an execute event whose payload is a text
abbrev pub text_payload : Fields
text_payload =
    field "kind" (str "execute")
      (field "payload" (str "done") (field "task" (obj end) (field "actor" (obj end) end)))

abbrev pub warning : Json
warning = obj (field "severity" (str "warning") end)

abbrev pub error : Json
error = obj (field "severity" (str "error") end)

abbrev pub report : Json → Json
report diagnostic =
    obj (field "ok" (bool true) (field "diagnostics" (arr (cons diagnostic nil)) end))

abbrev pub passed : Json
passed = obj (field "ok" (bool true) (field "trust_level" (str "clean") end))

abbrev pub edited : Fields
edited =
    field "imports_changed" (bool true) (field "changed_files" (arr (cons (str "A.lean") nil)) end)

abbrev pub client : Client (List String)
client = record {
  open_environment =
      λ repo path sha g. pure (obj (field "fingerprint_id" (str "f1") end)) ("open" ∷ g);
  create_session = λ fid g. pure (obj (field "session_id" (str "s1") end)) ("session" ∷ g);
  apply_patch = λ sid patch g. pure (obj end) ("patch" ∷ g);
  interactive_check = λ sid file g. pure (report warning) ("check" ∷ g);
  batch_verify = λ sid files decls g. pure passed ("batch" ∷ g);
  create_pending_review = λ payload g. pure payload ("review" ∷ g);
}

abbrev pub deps : Deps (List String)
deps = record {
  client = client;
  load_pack = λ name. raise file_not_found;
  env_pack = none;
  sha256 = λ s. s;
  models = record {
    acceptance = λ j. some j;
    environment = λ j. some j;
    interactive = λ j. some j;
    decision = λ j. some j;
  };
  validate_review = λ j. some j;
  bundle_id = "wit_1";
}

abbrev pub start : ObligationRuntimeState
start = make_initial_state (record {
  thread_id = "t1";
  obligation_id = "o1";
  obligation = end;
  target_files = "A.lean" ∷ [];
  target_declarations = [];
  current_patch = ("A.lean", "theorem t : True := trivial") ∷ [];
  repo_path = "";
  session_id = null;
  policy_pack_name = none;
  protocol_events = [];
})
