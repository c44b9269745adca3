-- ===== src/Mcp/Tools.antt =====
-- apps/orchestrator/lean_langchain_orchestrator/mcp_server.py: the tools of build_mcp_tools, with the
-- parameters of each, over the session store in memory. `perform` is a call of the SDK's client; `shown` is
-- the text of an identifier.
use lean_lang_chain.Common.{
  String, Bool, true, ◌&&◌, Option, none, some, List, [], ◌∷◌, Exc, value_error, Result, ok, raise,
  ◌==◌, if◌then◌else◌, any,
}
use lean_lang_chain.Json.{
  Json, Fields, null, int, pos, str, arr, obj, nil, end, field, get, get_or, has_key, truthy,
}
use lean_lang_chain.Sdk.{ApiError, Outcome, returned, raised, not_json}
use lean_lang_chain.Sdk.Methods.{Call}
use lean_lang_chain.Mcp.Store
use lean_lang_chain.Mcp.Store.{Data, or_else}
use lean_lang_chain.Mcp.Session.{
  Context, CreateSessionResponse, resolve_session, created, created_record,
}

pub data Tool : Type 0 where
  open_environment create_session apply_patch check_interactive get_goal batch_verify : Tool
  get_review_payload submit_review_decision hover definition resume : Tool

-- a parameter, with its default where it has one
pub record Parameter : Type 0 where
  pub name : String
  pub default : Option Json

abbrev required : String → Parameter
required name = record { name = name; default = none }

abbrev optional : String → Json → Parameter
optional name d = record { name = name; default = some d }

abbrev with_session : List Parameter → List Parameter
with_session ps = optional "session_id" null ∷ optional "thread_id" null ∷ ps

abbrev with_position : List Parameter → List Parameter
with_position ps = with_session (
    optional "file_path" (str "")
    ∷ optional "line" (int (pos 0))
    ∷ optional "column" (int (pos 0))
    ∷ ps)

-- the signatures of the tools
unfoldable pub parameters : Tool → List Parameter
parameters Tool.open_environment =
    required "repo_id"
    ∷ optional "repo_path" null
    ∷ optional "repo_url" null
    ∷ optional "commit_sha" (str "HEAD")
    ∷ []
parameters Tool.create_session = required "fingerprint_id" ∷ optional "thread_id" null ∷ []
parameters Tool.apply_patch = with_session (optional "files" null ∷ [])
parameters Tool.check_interactive = with_session (optional "file_path" (str "") ∷ [])
parameters Tool.get_goal = with_position (optional "goal_kind" (str "plainGoal") ∷ [])
parameters Tool.batch_verify =
    with_session (optional "target_files" null ∷ optional "target_declarations" null ∷ [])
parameters Tool.get_review_payload = required "thread_id" ∷ []
parameters Tool.submit_review_decision = required "thread_id" ∷ required "decision" ∷ []
parameters Tool.hover = with_position []
parameters Tool.definition = with_position []
parameters Tool.resume = required "thread_id" ∷ []

-- the dictionary that `build_mcp_tools` returns
unfoldable pub build_mcp_tools : List (String × Tool)
build_mcp_tools =
    ("obligation/open_environment", Tool.open_environment)
    ∷ ("obligation/create_session", Tool.create_session)
    ∷ ("obligation/apply_patch", Tool.apply_patch)
    ∷ ("obligation/check_interactive", Tool.check_interactive)
    ∷ ("obligation/get_goal", Tool.get_goal)
    ∷ ("obligation/batch_verify", Tool.batch_verify)
    ∷ ("obligation/get_review_payload", Tool.get_review_payload)
    ∷ ("obligation/submit_review_decision", Tool.submit_review_decision)
    ∷ ("obligation/hover", Tool.hover)
    ∷ ("obligation/definition", Tool.definition)
    ∷ ("obligation/resume", Tool.resume)
    ∷ []

-- every argument is one of a parameter
unfoldable pub all_known : List Parameter → Fields → Bool
all_known ps end = true
all_known ps (field k v fs) = any (λ p. p.name == k) ps && all_known ps fs

-- the value of a parameter: the argument, the default, or none
abbrev pub value_of : Parameter → Fields → Option Json
value_of p args = if has_key p.name args then some (get p.name args) else p.default

abbrev with_value : String → Option Json → Option Fields → Option Fields
with_value name (some v) (some fs) = some (field name v fs)
with_value name _ _ = none

unfoldable pub bind_values : List Parameter → Fields → Option Fields
unfolding has_key get_or
bind_values [] args = some end
bind_values (p ∷ ps) args = with_value p.name (value_of p args) (bind_values ps args)

-- the binding of `tools[name](**args)`, where none is a TypeError
unfoldable pub bind_arguments : List Parameter → Fields → Option Fields
unfolding all_known bind_values
bind_arguments ps args = if all_known ps args then bind_values ps args else none

-- what a tool ends with
pub data Answer : Type 0 where
  done : Json → Answer
  refused : ApiError → Answer
  failed : Exc → Answer

-- the session of the client, the store, and the gateway
pub record Server (W : Type 0) : Type 0 where
  pub context : Context
  pub store : Data
  pub gateway : W

abbrev answer_of : Outcome → Answer
answer_of (returned j) = done j
answer_of (raised e) = refused e
answer_of not_json = failed value_error

-- `x or d`
abbrev or_value : Json → Json → Json
or_value x d = if truthy x then x else d

-- the response that the client's model accepts
abbrev response_of : Json → Json → Json → Option CreateSessionResponse
response_of (str s) (str f) (str w) =
    some (record { session_id = s; fingerprint_id = f; workspace_path = w })
response_of _ _ _ = none

abbrev session_response : Json → Option CreateSessionResponse
session_response (obj fs) =
    response_of (get "session_id" fs) (get "fingerprint_id" fs) (get "workspace_path" fs)
session_response _ = none

position : Fields → Fields → Fields
unfolding get_or
position b rest =
    field "file_path" (get "file_path" b)
      (field "line" (get "line" b) (field "column" (get "column" b) rest))

module _ {W : Type 0} (perform : Call → W → Outcome × W) (shown : Json → String) where
  -- an identifier among the arguments, where it counts
  abbrev given : String → Fields → Option String
  given k b = if truthy (get k b) then some (shown (get k b)) else none

  abbrev performed : Call → Server W → Answer × Server W
  performed call s = let (o, w) = perform call s.gateway in (answer_of o, record s { gateway = w })

  abbrev in_resolved : (String → Call) → Result String → Server W → Answer × Server W
  in_resolved call (raise e) s = (failed e, s)
  in_resolved call (ok sid) s = performed (call sid) s

  -- a tool that calls the gateway for a session
  unfoldable pub in_session : Fields → (String → Call) → Server W → Answer × Server W
  unfolding resolve_session truthy get_or
  in_session b call s =
      let (sid, c) =
        resolve_session (some (λ k. Store.get k s.store)) (given "session_id" b)
          (given "thread_id" b) s.context in
      in_resolved call sid (record s { context = c })

  abbrev session_saved :
      Option String → Server W → Json → Option CreateSessionResponse → Answer × Server W
  session_saved thread s j none = (
    failed value_error,
    record s { context = record s.context { thread_id = or_else thread s.context.thread_id } },
  )
  session_saved thread s j (some r) =
      let c = created thread r s.context in
      (done j, record s { context = c; store = Store.set (created_record r c) s.store })

  abbrev session_made : Option String → Server W → Outcome → Answer × Server W
  session_made thread s (returned j) = session_saved thread s j (session_response j)
  session_made thread s o = (
    answer_of o,
    record s { context = record s.context { thread_id = or_else thread s.context.thread_id } },
  )

  unfoldable pub make_session : Fields → Server W → Answer × Server W
  unfolding created created_record Store.set truthy get_or
  make_session b s =
      let (o, w) =
        perform (Call.create_session (field "fingerprint_id" (get "fingerprint_id" b) end))
          s.gateway in
      session_made (given "thread_id" b) (record s { gateway = w }) o

  -- the body of a tool, on its values
  unfoldable pub run_tool : Tool → Fields → Server W → Answer × Server W
  unfolding in_session make_session position truthy get_or
  run_tool Tool.open_environment b s = performed (Call.open_environment b) s
  run_tool Tool.create_session b s = make_session b s
  run_tool Tool.apply_patch b s =
      in_session b
        (λ sid. Call.apply_patch sid (field "files" (or_value (get "files" b) (obj end)) end)) s
  run_tool Tool.check_interactive b s =
      in_session b (λ sid. Call.interactive_check sid (field "file_path" (get "file_path" b) end)) s
  run_tool Tool.get_goal b s =
      in_session b
        (λ sid. Call.get_goal sid (position b (field "goal_kind" (get "goal_kind" b) end))) s
  run_tool Tool.batch_verify b s =
      in_session b
        (λ sid. Call.batch_verify sid (
          field "target_files" (or_value (get "target_files" b) (arr nil))
            (field "target_declarations" (or_value (get "target_declarations" b) (arr nil)) end)))
        s
  run_tool Tool.get_review_payload b s =
      performed (Call.get_review_payload (shown (get "thread_id" b))) s
  run_tool Tool.submit_review_decision b s =
      performed
        (Call.submit_review_decision (shown (get "thread_id" b)) (shown (get "decision" b)) end) s
  run_tool Tool.hover b s = in_session b (λ sid. Call.hover sid (position b end)) s
  run_tool Tool.definition b s = in_session b (λ sid. Call.definition sid (position b end)) s
  run_tool Tool.resume b s = performed (Call.resume (shown (get "thread_id" b))) s
