-- ===== src/Runtime/State.antt =====
-- apps/orchestrator/lean_langchain_orchestrator/runtime/state.py and initial_state.py.
use lean_lang_chain.Common.{
  ℕ, String, Bool, true, false, ◌||◌, Option, none, List, [], Result, ok, raise, value_error,
  if◌then◌else◌, ◌==◌,
}
use lean_lang_chain.Json.{Json, Fields, null, str, obj, end, get_or}
use lean_lang_chain.Policy.Patch.{Patch}
use lean_lang_chain.Policy.Events.{RawEvent}

pub data Status : Type 0 where
  initialized retrieving_context drafting checking_interactive repairing auditing : Status
  awaiting_approval batch_verifying accepted rejected failed : Status

-- A key of the dictionary that may be missing is an `Option`, or the empty list for the events.
pub record ObligationRuntimeState : Type 0 where
  pub thread_id : String
  pub obligation_id : String
  pub environment_fingerprint : Json
  pub session_id : Json
  pub obligation : Json
  pub target_files : List String
  pub target_declarations : List String
  pub current_patch : Patch
  pub patch_history : List Patch
  pub interactive_result : Json
  pub goal_snapshots : List Json
  pub batch_result : Json
  pub policy_decision : Json
  pub trust_level : Json
  pub approval_required : Bool
  pub approval_decision : Json
  pub status : Status
  pub attempt_count : ℕ
  pub max_attempts : ℕ
  pub artifacts : List Json
  pub trace_events : List Json
  pub protocol_events : List RawEvent
  pub policy_pack_name : Option String
  pub repo_path : String

-- the keyword arguments of `make_initial_state`
pub record InitialArgs : Type 0 where
  pub thread_id : String
  pub obligation_id : String
  pub obligation : Fields
  pub target_files : List String
  pub target_declarations : List String
  pub current_patch : Patch
  pub repo_path : String
  pub session_id : Json
  pub policy_pack_name : Option String
  pub protocol_events : List RawEvent

unfoldable pub make_initial_state : InitialArgs → ObligationRuntimeState
make_initial_state a = record {
  thread_id = a.thread_id;
  obligation_id = a.obligation_id;
  environment_fingerprint = get_or "environment_fingerprint" (obj end) a.obligation;
  session_id = a.session_id;
  obligation = obj a.obligation;
  target_files = a.target_files;
  target_declarations = a.target_declarations;
  current_patch = a.current_patch;
  patch_history = [];
  interactive_result = null;
  goal_snapshots = [];
  batch_result = null;
  policy_decision = null;
  trust_level = null;
  approval_required = false;
  approval_decision = null;
  status = Status.initialized;
  attempt_count = 0;
  max_attempts = 3;
  artifacts = [];
  trace_events = [];
  protocol_events = a.protocol_events;
  policy_pack_name = a.policy_pack_name;
  repo_path = a.repo_path;
}

-- the state of a resumed thread, for a decision that has been checked
abbrev pub resume_state : String → String → ObligationRuntimeState
resume_state thread decision = record {
  thread_id = thread;
  obligation_id = "";
  environment_fingerprint = obj end;
  session_id = null;
  obligation = obj end;
  target_files = [];
  target_declarations = [];
  current_patch = [];
  patch_history = [];
  interactive_result = null;
  goal_snapshots = [];
  batch_result = null;
  policy_decision = null;
  trust_level = null;
  approval_required = true;
  approval_decision = str decision;
  status = Status.awaiting_approval;
  attempt_count = 0;
  max_attempts = 3;
  artifacts = [];
  trace_events = [];
  protocol_events = [];
  policy_pack_name = none;
  repo_path = "";
}

unfoldable pub make_resume_state : String → String → Result ObligationRuntimeState
make_resume_state thread decision =
    if decision == "approved" || decision == "rejected"
    then ok (resume_state thread decision)
    else raise value_error
