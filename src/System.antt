-- ===== src/System.antt =====
-- The orchestrator over the gateway: the client of the graph, whose calls for sessions, checks and batch
-- verifications reach the handlers of apps/lean-gateway/lean_langchain_gateway/api (routes_environment.py,
-- routes_sessions.py, routes_batch.py) and come back through packages/sdk-py/lean_langchain_sdk/client.py.
-- The other calls of the client are what `others` says they are.
pub mod Accepted
use Prim.Native.String.{◌++◌ as text_append}
use lean_lang_chain.Common.{
  ℕ, suc, String, Bool, Option, none, some, List, Result, ok, raise, api_error,
}
use lean_lang_chain.Json.{Json, Fields, str, obj, end, field}
use lean_lang_chain.Environment.{Disk, create_session}
use lean_lang_chain.Gateway.Batch.{Lanes, BatchVerifyResult, batch_verify, dump_batch}
use lean_lang_chain.Gateway.Interactive.{Transport, open_session}
use lean_lang_chain.Gateway.Reviews.{Response, answer, http_error}
use lean_lang_chain.Gateway.Routes.{interactive_check}
use lean_lang_chain.Gateway.Sessions.{SessionLease, Sessions, WorkerPool, get_lease}
use lean_lang_chain.Runtime.Exec.{Client, Exec}
use lean_lang_chain.Sdk.{normalize_batch_verify_dict}

-- the gateway's state, with a clock that counts the calls
pub record World : Type 0 where
  pub disk : Disk
  pub sessions : Sessions
  pub pool : WorkerPool
  pub time : ℕ

-- How the gateway is set up: the lanes of the batch verification, the transport and the models of the
-- checks; `shown` is the text of a value in a path, `hex` and `worker_id` give fresh identifiers, and `elapsed` is the time of a check.
pub record Service : Type 1 where
  pub lanes : Lanes
  pub strict_flag : Bool
  pub production : Bool
  pub transport : Transport
  pub well_typed : Fields → Bool
  pub goal_typed : Fields → Bool
  pub shown : Json → String
  pub hex : ℕ → String
  pub worker_id : ℕ → String
  pub elapsed : ℕ
  pub overlay_path : String → String
  pub others : Client World

-- A response as the client's caller gets it
abbrev pub received : Response Json → Result Json
received (answer j) = ok j
received (http_error status j) = raise api_error

module _ (v : Service) where
  -- the identifier of the next session
  abbrev pub next_session : World → String
  next_session w = text_append "sess_" (v.hex w.time)

  abbrev session_opened : String → World → Result String × Disk → Result Json × World
  session_opened fid w (raise e, disk) = (raise api_error, record w { disk = disk })
  session_opened fid w (ok session, disk) =
      let workspace = v.overlay_path session in
      let (lease, (sessions, pool)) =
        open_session session fid workspace w.time (v.worker_id w.time) w.sessions w.pool in
      (
        ok (
            obj (
              field "session_id" (str lease.session_id)
                (field "fingerprint_id" (str fid) (field "workspace_path" (str workspace) end)))),
        record { disk = disk; sessions = sessions; pool = pool; time = suc w.time },
      )

  -- `client.create_session` over the handler `create_session`
  unfoldable pub call_create_session : Json → Exec World Json
  unfolding create_session open_session
  call_create_session (str fid) w =
      session_opened fid w (create_session fid (next_session w) w.disk)
  call_create_session _ w = (raise api_error, w)

  -- `client.interactive_check` over the handler `interactive_check`
  unfoldable pub call_interactive_check : Json → String → Exec World Json
  unfolding interactive_check
  call_interactive_check session file w =
      let (r, sessions) =
        interactive_check v.well_typed v.goal_typed v.transport w.time v.elapsed w.sessions
          (v.shown session) file in
      (received r, record w { sessions = sessions; time = suc w.time })

  abbrev batch_received : Option BatchVerifyResult → Result Json
  batch_received none = raise api_error
  batch_received (some r) = ok (obj (normalize_batch_verify_dict (dump_batch r)))

  abbrev workspace_of : Result SessionLease → Option String
  workspace_of (ok lease) = some lease.workspace_path
  workspace_of (raise e) = none

  -- `client.batch_verify` over the handler `batch_verify`
  unfoldable pub call_batch_verify : Json → List String → List String → Exec World Json
  unfolding batch_verify get_lease normalize_batch_verify_dict dump_batch
  call_batch_verify session files declarations w = (
    batch_received (
        batch_verify (λ id. workspace_of (get_lease id w.sessions)) v.lanes v.strict_flag
          v.production (v.shown session) declarations),
    record w { time = suc w.time },
  )

  unfoldable pub client_of : Client World
  unfolding call_create_session call_interactive_check call_batch_verify
  client_of = record v.others {
    create_session = call_create_session;
    interactive_check = call_interactive_check;
    batch_verify = call_batch_verify;
  }
