-- ===== src/Cli/Reading.antt =====
-- The commands of cli.py that start no run: `run-protocol-obligation`, `review` and `artifacts`.
use Prim.Native.String.{◌++◌ as text_append}
use lean_lang_chain.Common.{
  String, Bool, Option, some, [], ◌∷◌, Exc, Result, ok, raise, ◌==◌, if◌then◌else◌, length, ◌>>=◌,
}
use lean_lang_chain.Json.{
  Json, Fields, Items, str, int, arr, obj, pos, nil, end, field, get, get_or, to_list,
}
use lean_lang_chain.Policy.Pack.{PolicyPack}
use lean_lang_chain.Policy.Protocol.{evaluate_protocol_obligation}
use lean_lang_chain.Runtime.Dump.{dump_decision}
use lean_lang_chain.Runtime.Exec.{Exec}
use lean_lang_chain.Cli.{Output, Files, tells, fails, or_text, events_of, no_langgraph, not}

abbrev pub prints : Json → Output
prints j = record { printed = j ∷ []; written = []; code = 0 }

unfoldable pub cmd_run_protocol_obligation :
    (files : Files) (load_pack : String → Result PolicyPack)
    (events_file pack obligation_class : Option String)
    → Result Output
unfolding events_of or_text evaluate_protocol_obligation dump_decision
cmd_run_protocol_obligation files load_pack events_file pack obligation_class = do
  events ← events_of files events_file
  loaded ← load_pack (or_text pack "single_owner_handoff_v1")
  decision ←
      evaluate_protocol_obligation (or_text obligation_class "handoff_legality") events loaded
  ok (prints (dump_decision decision))

abbrev reviewed : {G : Type 0} → (Exc → String) → Result Json × G → Output × G
reviewed message (ok payload, g) = (prints payload, g)
reviewed message (raise e, g) = (fails (message e), g)

-- the browser is opened outside the model
unfoldable pub cmd_review :
    {G : Type 0}
    → (get_review_payload : String → Exec G Json) → (message : Exc → String) → (open_browser : Bool)
    → (thread : Option String) → G
    → Output × G
unfolding or_text
cmd_review get_review_payload message open_browser thread g =
    if open_browser
    then (record { printed = []; written = []; code = 0 }, g)
    else if or_text thread "" == ""
    then (fails "thread_id required for review payload", g)
    else reviewed message (get_review_payload (or_text thread "") g)

abbrev values_of : Option Json → Fields
values_of (some (obj fs)) = fs
values_of _ = end

abbrev artifact_items : Json → Items
artifact_items (arr xs) = xs
artifact_items _ = nil

-- the artifacts go to a file where one is named
unfoldable pub export : String → Option String → Items → Output
unfolding or_text to_list
export thread output artifacts =
    if or_text output "" == "" then prints (arr artifacts) else record {
      printed =
          obj (
            field "thread_id" (str thread) (
              field "artifacts_count" (int (pos (length (to_list artifacts))))
                (field "written_to" (str (or_text output "")) end)))
          ∷ [];
      written = (or_text output "", arr artifacts) ∷ [];
      code = 0;
    }

unfoldable pub artifacts_of : String → Option String → Fields → Output
unfolding export get_or
artifacts_of thread output end =
    tells 0
      (field "message" (str "No checkpoint state for thread") (field "thread_id" (str thread) end))
artifacts_of thread output values = export thread output (artifact_items (get "artifacts" values))

abbrev snapshot_output : (Exc → String) → String → Option String → Result (Option Json) → Output
snapshot_output message thread output (ok values) = artifacts_of thread output (values_of values)
snapshot_output message thread output (raise e) = tells 1 (
    field "error" (str (text_append "Failed to get state: " (message e)))
      (field "thread_id" (str thread) end))

-- `get_state` gives the values of the thread's snapshot, if it has one
unfoldable pub cmd_artifacts :
    (get_state : String → Result (Option Json)) (message : Exc → String)
    (has_checkpointer has_langgraph : Bool) (thread output : Option String)
    → Output
unfolding or_text artifacts_of
cmd_artifacts get_state message has_checkpointer has_langgraph thread output =
    if or_text thread "" == ""
    then fails "thread_id required for artifacts; use --thread-id"
    else if not has_checkpointer
    then fails
        "Artifacts require a checkpointer (set CHECKPOINTER=postgres and DATABASE_URL, or use MemorySaver)"
    else if not has_langgraph
    then no_langgraph
    else snapshot_output message (or_text thread "") output (get_state (or_text thread ""))
