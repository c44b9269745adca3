-- ===== src/Mcp/Session.antt =====
-- apps/orchestrator/lean_langchain_orchestrator/mcp_server.py: the session of an MCP client, and the
-- tools that need one. `stored` is the `get` of the session store, where there is a store.
pub mod Reconnect
use lean_lang_chain.Common.{
  String, Bool, true, false, not, ◌&&◌, Option, none, some, List, Result, ok, raise, value_error,
  ◌>>=◌, ◌==◌, if◌then◌else◌,
}
use lean_lang_chain.Mcp.Store.{SessionRecord, Data, get, set, or_else, is_set}

-- `MCPSessionContext`
pub record Context : Type 0 where
  pub session_id : Option String
  pub thread_id : Option String
  pub fingerprint_id : Option String
  pub workspace_path : Option String

abbrev pub empty : Context
empty = record { session_id = none; thread_id = none; fingerprint_id = none; workspace_path = none }

-- `MCPSessionContext.load_from_dict`
unfoldable pub load_from : SessionRecord → Context → Context
load_from r c = record {
  session_id = or_else (some r.session_id) c.session_id;
  thread_id = or_else r.thread_id c.thread_id;
  fingerprint_id = or_else (some r.fingerprint_id) c.fingerprint_id;
  workspace_path = or_else (some r.workspace_path) c.workspace_path;
}

abbrev pub Stored : Type 0
Stored = String → Option SessionRecord

abbrev loaded : Option SessionRecord → Context → Context
loaded none c = c
loaded (some r) c = load_from r c

-- `_maybe_restore`
unfoldable pub maybe_restore : Option Stored → Option String → Context → Context
unfolding load_from
maybe_restore none key c = c
maybe_restore (some stored) none c = c
maybe_restore (some stored) (some key) c =
    if not (key == "") && not (is_set c.session_id) then loaded (stored key) c else c

abbrev session_result : Option String → Result String
session_result none = raise value_error
session_result (some s) = if s == "" then raise value_error else ok s

-- `_session_id`
unfoldable pub resolve_session :
    Option Stored → Option String → Option String → Context → Result String × Context
unfolding maybe_restore
resolve_session stored session thread c =
    let c1 =
      if is_set thread && not (is_set c.session_id) then maybe_restore stored thread c else c in
    let key = or_else session c1.session_id in
    let c2 = if is_set key then maybe_restore stored key c1 else c1 in
    (session_result (or_else session c2.session_id), c2)

-- what the gateway answers to `create_session`
pub record CreateSessionResponse : Type 0 where
  pub session_id : String
  pub fingerprint_id : String
  pub workspace_path : String

abbrev unless_empty : String → Option String
unless_empty s = if s == "" then none else some s

-- the context after the tool `obligation/create_session`
unfoldable pub created : Option String → CreateSessionResponse → Context → Context
created thread r c = record {
  session_id = some r.session_id;
  thread_id = or_else thread c.thread_id;
  fingerprint_id = some r.fingerprint_id;
  workspace_path = unless_empty r.workspace_path;
}

-- what the tool puts in the store
unfoldable pub created_record : CreateSessionResponse → Context → SessionRecord
created_record r c = record {
  session_id = r.session_id;
  thread_id = c.thread_id;
  fingerprint_id = r.fingerprint_id;
  workspace_path = r.workspace_path;
}

-- the tool `obligation/create_session` with the store in memory
unfoldable pub create_session :
    Option String → CreateSessionResponse → Context → Data → Context × Data
unfolding created created_record set
create_session thread r c d = let c' = created thread r c in (c', set (created_record r c') d)

-- a tool that calls the gateway for the session: apply_patch, check_interactive, get_goal,
-- batch_verify, hover and definition differ in the call
unfoldable pub session_tool {ℓ} :
    {A : Type ℓ}
    → (String → Result A)
    → Option Stored
    → Option String
    → Option String
    → Context
    → Result A × Context
unfolding resolve_session
session_tool call stored session thread c =
    let (sid, c') = resolve_session stored session thread c in (sid >>= call, c')
