-- ===== src/Cli.antt =====
-- apps/orchestrator/lean_langchain_orchestrator/cli.py: the commands on the arguments that argparse
-- has read. An exception that leaves a command ends the process. `message` is Python's `str` on an
-- exception. A run is on a thread of which no earlier run left a checkpoint.
pub mod Resumed
pub mod Reported
pub mod Reading
use lean_lang_chain.Common.{
  ℕ, String, Bool, true, false, not, ◌||◌, Option, none, some, List, [], ◌∷◌, Exc, Result, ok,
  raise, ◌==◌, if◌then◌else◌, length, is_empty, is_some,
}
use lean_lang_chain.Json.{
  Json, Fields, null, str, int, arr, pos, obj, end, nil, field, get, to_list,
}
use lean_lang_chain.Text.{strip, lower}
use lean_lang_chain.Policy.Pack.{PolicyPack}
use lean_lang_chain.Policy.Events.{RawEvent, texts}
use lean_lang_chain.Policy.Patch.{Patch}
use lean_lang_chain.Policy.Protocol.{evaluate_protocol_obligation}
use lean_lang_chain.Runtime.Dump.{dump_decision}
use lean_lang_chain.Runtime.State.{
  ObligationRuntimeState, InitialArgs, make_initial_state, make_resume_state,
}
use lean_lang_chain.Runtime.Exec.{Exec, Client}
use lean_lang_chain.Runtime.Graph.{Deps, invoke}
use lean_lang_chain.Orchestrator.{Checkpointer, status_text}

-- what a command prints, the files that it writes, and its exit code
pub record Output : Type 0 where
  pub printed : List Json
  pub written : List (String × Json)
  pub code : ℕ

abbrev pub tells : ℕ → Fields → Output
tells code fs = record { printed = obj fs ∷ []; written = []; code = code }

abbrev pub fails : String → Output
fails reason = tells 1 (field "error" (str reason) end)

abbrev pub failed : String → Output
failed reason = tells 1 (field "error" (str reason) (field "status" (str "failed") end))

abbrev pub no_langgraph : Output
no_langgraph = failed "langgraph not installed"

-- `value or default`, of an argument that may not be given
unfoldable pub or_text : Option String → String → String
or_text none default = default
or_text (some v) default = if v == "" then default else v

abbrev or_list : Option (List String) → List String → List String
or_list none default = default
or_list (some []) default = default
or_list (some (x ∷ xs)) default = x ∷ xs

-- what is told of a finished run
abbrev pub reported : ObligationRuntimeState → Output
reported s = tells 0 (
    field "status" (str (status_text s.status))
      (field "artifacts_count" (int (pos (length s.artifacts))) end))

abbrev pub report_run : {G : Type 0} → Result ObligationRuntimeState × G → Result Output × G
report_run (ok s, g) = (ok (reported s), g)
report_run (raise e, g) = (raise e, g)

-- the decision of `cmd_resume`
unfoldable pub resume_decision : Option String → String
unfolding or_text
resume_decision decision =
    let word = lower (strip (or_text decision "approved")) in
    if not (word == "approved" || word == "rejected") then "approved" else word

abbrev pub start_resume :
    {G : Type 0} → Deps G → Result ObligationRuntimeState → G → Result Output × G
start_resume d (ok s) g = report_run (invoke d s g)
start_resume d (raise e) g = (raise e, g)

unfoldable pub cmd_resume :
    {G : Type 0}
    → Deps G
    → (has_langgraph : Bool) → (thread decision : Option String) → Exec G Output
unfolding resume_decision or_text make_resume_state invoke
cmd_resume d has_langgraph thread decision g =
    if not has_langgraph
    then (ok no_langgraph, g)
    else if or_text thread "" == ""
    then (ok (fails "thread_id required for resume"), g)
    else start_resume d (make_resume_state (or_text thread "") (resume_decision decision)) g

-- the arguments of `run-patch-obligation`
pub record PatchArgs : Type 0 where
  pub thread_id : Option String
  pub obligation_id : Option String
  pub repo_id : Option String
  pub repo_path : Option String
  pub target_files : Option (List String)
  pub target_declarations : List String
  pub patch_file : Option String
  pub patch_apply_path : Option String
  pub policy_pack : Option String
  pub protected_paths : Option (List String)
  pub protocol_events_file : Option String

abbrev protecting : List String → Fields
protecting [] = end
protecting (p ∷ ps) = field "policy" (obj (field "protected_paths" (arr (texts (p ∷ ps))) end)) end

unfoldable pub obligation_of : PatchArgs → Fields
unfolding or_text texts
obligation_of a =
    field "target" (obj (field "repo_id" (str (or_text a.repo_id "default")) end))
      (protecting (or_list a.protected_paths []))

-- `initial`, with the events and the patch that the files give
unfoldable pub initial_of : PatchArgs → List RawEvent → Patch → ObligationRuntimeState
unfolding or_text obligation_of make_initial_state
initial_of a events patch = make_initial_state (record {
  thread_id = or_text a.thread_id "cli-thread";
  obligation_id = or_text a.obligation_id "cli-ob";
  obligation = obligation_of a;
  target_files = or_list a.target_files ("Main.lean" ∷ []);
  target_declarations = a.target_declarations;
  current_patch = patch;
  repo_path = or_text a.repo_path "";
  session_id = null;
  policy_pack_name = a.policy_pack;
  protocol_events = events;
})

-- the files of the machine: a text, the events that the JSON of a file lists, and the last part of a path
pub record Files : Type 0 where
  pub read : String → Result String
  pub events : String → Result (List RawEvent)
  pub name : String → String

unfoldable pub events_of : Files → Option String → Result (List RawEvent)
unfolding or_text
events_of files file = if or_text file "" == "" then ok [] else files.events (or_text file "")

abbrev patched : String → Result String → Result Patch
patched key (ok content) = ok ((key, content) ∷ [])
patched key (raise e) = raise e

unfoldable pub patch_of : Files → Option String → Option String → Result Patch
unfolding or_text
patch_of files file apply_path =
    if or_text file "" == ""
    then ok []
    else patched (or_text apply_path (or_text (some (files.name (or_text file ""))) "Main.lean"))
        (files.read (or_text file ""))

module _ {G : Type 0} (d : Deps G) (files : Files) (message : Exc → String) (a : PatchArgs) where
  unfoldable pub with_patch : List RawEvent → Result Patch → Exec G Output
  unfolding initial_of invoke
  with_patch events (ok patch) g = report_run (invoke d (initial_of a events patch) g)
  with_patch events (raise e) g = (ok (failed (message e)), g)

  unfoldable pub with_events : Result (List RawEvent) → Exec G Output
  unfolding with_patch patch_of
  with_events (ok events) g = with_patch events (patch_of files a.patch_file a.patch_apply_path) g
  with_events (raise e) g = (ok (failed (message e)), g)

  unfoldable pub cmd_run_patch_obligation : (has_langgraph : Bool) → Exec G Output
  unfolding with_events events_of
  cmd_run_patch_obligation has_langgraph g =
      if has_langgraph
      then with_events (events_of files a.protocol_events_file) g
      else (ok no_langgraph, g)
