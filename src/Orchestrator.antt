-- ===== src/Orchestrator.antt =====
-- apps/orchestrator/lean_langchain_orchestrator: http_server.py and orchestrator_capabilities.py. Which
-- optional packages can be imported is an argument; the set-up of a checkpointer's tables is left out.
pub mod Answers
use Prim.Native.String.{◌++◌ as text_append}
use lean_lang_chain.Common.{
  ℕ, String, Bool, true, false, not, ◌&&◌, ◌||◌, Option, none, some, List, [], ◌∷◌, ◌++◌, Result,
  ok, raise, ◌==◌, if◌then◌else◌, length, is_empty, is_some,
}
use lean_lang_chain.Json.{Json, Fields, bool, str, int, pos, obj, end, field}
use lean_lang_chain.Text.{strip, lower}
use lean_lang_chain.Gateway.Runners.{Env, or_default}
use lean_lang_chain.Gateway.Reviews.{Response, answer, http_error, detail, internal_error}
use lean_lang_chain.Config.{is_set, says_yes}
use lean_lang_chain.Runtime.State.{Status, ObligationRuntimeState, make_resume_state}
use lean_lang_chain.Runtime.Graph.{Deps, invoke}

pub data Checkpointer : Type 0 where
  postgres : (uri : String) → Checkpointer
  memory : Checkpointer

-- the optional packages that are there
pub record Packages : Type 0 where
  pub has_postgres : Bool
  pub has_memory : Bool
  pub has_langgraph : Bool

abbrev memory_saver : Packages → Option Checkpointer
memory_saver p = if p.has_memory then some memory else none

-- `_get_checkpointer`
unfoldable pub get_checkpointer : Env → Packages → Option Checkpointer
get_checkpointer env p =
    if (or_default "" (env "CHECKPOINTER") == "postgres" || is_set (env "DATABASE_URL"))
      && is_set (env "DATABASE_URL")
      && p.has_postgres
    then some (postgres (or_default "" (env "DATABASE_URL")))
    else memory_saver p

abbrev pub status_text : Status → String
status_text Status.initialized = "initialized"
status_text Status.retrieving_context = "retrieving_context"
status_text Status.drafting = "drafting"
status_text Status.checking_interactive = "checking_interactive"
status_text Status.repairing = "repairing"
status_text Status.auditing = "auditing"
status_text Status.awaiting_approval = "awaiting_approval"
status_text Status.batch_verifying = "batch_verifying"
status_text Status.accepted = "accepted"
status_text Status.rejected = "rejected"
status_text Status.failed = "failed"

-- what the handler tells of a finished run
abbrev pub resumed : String → String → ℕ → Response Json
resumed thread status artifacts = answer (
    obj (
      field "ok" (bool true) (
        field "thread_id" (str thread)
          (field "status" (str status) (field "artifacts_count" (int (pos artifacts)) end)))))

abbrev pub bad_decision : Response Json
bad_decision = http_error 400 (detail "bad_request" "decision must be 'approved' or 'rejected'")

abbrev pub no_checkpointer : Response Json
no_checkpointer = http_error 503 (
    detail "service_unavailable"
      "Resume requires a checkpointer (set CHECKPOINTER=postgres and DATABASE_URL)")

-- the runtime cannot be imported; `missing` is the text of the ImportError
abbrev pub no_runtime : (missing : String) → Response Json
no_runtime missing =
    http_error 503
      (detail "service_unavailable" (text_append "Orchestrator runtime not available: " missing))

abbrev pub finished : {G : Type 0} → String → Result ObligationRuntimeState × G → Response Json × G
finished thread (ok s, g) = (resumed thread (status_text s.status) (length s.artifacts), g)
finished thread (raise e, g) = (internal_error, g)

abbrev pub started :
    {G : Type 0} → Deps G → String → Result ObligationRuntimeState → G → Response Json × G
started d thread (ok s) g = finished thread (invoke d s g)
started d thread (raise e) g = (internal_error, g)

-- `missing` is the text of the ImportError of the runtime, where it cannot be imported
unfoldable pub resume_decided :
    {G : Type 0}
    → Deps G
    → Option Checkpointer
    → (missing : Option String) → String
    → String
    → G
    → Response Json × G
unfolding make_resume_state invoke
resume_decided d checkpointer missing thread decision g =
    if not (decision == "approved" || decision == "rejected")
    then (bad_decision, g)
    else if not (is_some checkpointer)
    then (no_checkpointer, g)
    else elim missing [
      | some e ↦ (no_runtime e, g)
      | none ↦ started d thread (make_resume_state thread decision) g
    ]

-- the ImportError of `runtime.graph`, which imports langgraph
abbrev pub missing_runtime : Packages → String → Option String
missing_runtime p text = if p.has_langgraph then none else some text

-- the handler `resume`; `missing` is the text of the ImportError, should the runtime raise it
unfoldable pub resume :
    {G : Type 0}
    → Deps G
    → Env
    → Packages
    → (missing : String) → String
    → String
    → G
    → Response Json × G
unfolding resume_decided get_checkpointer
resume d env p missing thread decision g =
    resume_decided d (get_checkpointer env p) (missing_runtime p missing) thread
      (lower (strip decision)) g

-- `_checkpointer_kind`
pub data CheckpointerKind : Type 0 where
  postgres memory unavailable : CheckpointerKind

unfoldable pub checkpointer_kind : Env → Packages → CheckpointerKind
checkpointer_kind env p =
    if or_default "" (env "CHECKPOINTER") == "postgres"
      && not (strip (or_default "" (env "DATABASE_URL")) == "")
    then (if p.has_postgres then CheckpointerKind.postgres else CheckpointerKind.unavailable)
    else if p.has_memory
    then CheckpointerKind.memory
    else CheckpointerKind.unavailable

abbrev kind_reason : CheckpointerKind → List String
kind_reason CheckpointerKind.postgres = []
kind_reason CheckpointerKind.memory = "checkpointer_memory" ∷ []
kind_reason CheckpointerKind.unavailable = "checkpointer_unavailable" ∷ []

abbrev unless : Bool → String → List String
unless b reason = if b then [] else reason ∷ []

-- `env or "strict_patch_gate_v1"`
abbrev pack_ref : Option String → String
pack_ref none = "strict_patch_gate_v1"
pack_ref (some v) = if v == "" then "strict_patch_gate_v1" else v

-- the degraded reasons of `compute_orchestrator_capabilities`; `pack_loads` says whether `load_pack`
-- returns for a name
unfoldable pub degraded_reasons : Env → Packages → (String → Bool) → List String
unfolding checkpointer_kind
degraded_reasons env p pack_loads =
    if lower (strip (or_default "" (env "OBR_ENV"))) == "production"
    then []
    else kind_reason (checkpointer_kind env p)
      ++ (unless p.has_langgraph "langgraph_unavailable"
          ++ unless (pack_loads (strip (pack_ref (env "OBR_POLICY_PACK"))))
              "policy_pack_unresolved")

unfoldable pub fail_ready_on_degraded : Env → Bool
fail_ready_on_degraded env =
    says_yes (lower (strip (or_default "" (env "OBR_ORCHESTRATOR_READY_FAIL_ON_DEGRADED"))))

-- what the handler `ready` answers: the service is ready, or the reason why it is not
unfoldable pub ready : Env → Packages → (String → Bool) → Option String
unfolding degraded_reasons fail_ready_on_degraded get_checkpointer
ready env p pack_loads =
    if fail_ready_on_degraded env && not (is_empty (degraded_reasons env p pack_loads))
    then some "degraded_capabilities"
    else if is_some (get_checkpointer env p)
    then none
    else some "checkpointer_unavailable"
