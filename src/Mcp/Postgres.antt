-- ===== src/Mcp/Postgres.antt =====
-- apps/orchestrator/lean_langchain_orchestrator/mcp_session_store.py: PostgresMCPSessionStore over a table, and
-- the choice of the store. The table is a parameter, with what SQL documents of the statements for a
-- primary key; a select of one row gives any row that fits. The connection and its errors are left out,
-- and so is a path that is NULL.
pub mod Keyed
pub mod Agreement
use lean_lang_chain.Common.{
  String, Bool, true, false, ◌||◌, Option, none, some, ◌≡◌, ◌==◌, if◌then◌else◌,
}
use lean_lang_chain.Text.{lower}
use lean_lang_chain.Mcp.Store.{SessionRecord, Change, save, remove}

-- the columns that are read
pub record Row : Type 0 where
  pub session_id : String
  pub thread_id : String
  pub fingerprint_id : String
  pub workspace_path : String

-- `thread_id or ""`
abbrev pub text_of : Option String → String
text_of none = ""
text_of (some t) = t

-- the values of an insert
abbrev pub row_of : SessionRecord → Row
row_of r = record {
  session_id = r.session_id;
  thread_id = text_of r.thread_id;
  fingerprint_id = r.fingerprint_id;
  workspace_path = r.workspace_path;
}

abbrev pub record_of : Row → SessionRecord
record_of r = record {
  session_id = r.session_id;
  thread_id = some r.thread_id;
  fingerprint_id = r.fingerprint_id;
  workspace_path = r.workspace_path;
}

-- `WHERE session_id = key OR thread_id = key`
abbrev pub names : String → Row → Bool
names key r = r.session_id == key || r.thread_id == key

-- The statements on the table obr_mcp_session, in the states `S`: `row_at` is the row of a session, which
-- is the primary key.
pub record SessionTable (S : Type 0) : Type 0 where
  pub row_at : String → S → Option Row
  pub select : String → S → Option Row
  pub upsert : Row → S → S
  pub erase : String → S → S
  pub select-some :
      (key : String) (s : S) (r : Row)
      → select key s ≡ some r
      → (row_at r.session_id s ≡ some r) × (names key r ≡ true)
  pub select-none :
      (key session : String) (s : S) (r : Row)
      → select key s ≡ none
      → row_at session s ≡ some r
      → names key r ≡ false
  pub row_at-upsert :
      (r : Row) (session : String) (s : S)
      → row_at session (upsert r s) ≡ (if r.session_id == session then some r else row_at session s)
  pub row_at-erase :
      (erased session : String) (s : S)
      → row_at session (erase erased s) ≡ (if erased == session then none else row_at session s)

abbrev pub read_row : Option Row → Option SessionRecord
read_row none = none
read_row (some r) = some (record_of r)

module _ {S : Type 0} (table : SessionTable S) where
  unfoldable pub postgres_get : String → S → Option SessionRecord
  postgres_get key s = read_row (table.select key s)

  unfoldable pub postgres_set : SessionRecord → S → S
  postgres_set r s = table.upsert (row_of r) s

  unfoldable pub postgres_delete : String → S → S
  postgres_delete session s = table.erase session s

  unfoldable pub postgres_apply : S → Change → S
  unfolding postgres_set postgres_delete
  postgres_apply s (save r) = postgres_set r s
  postgres_apply s (remove session) = postgres_delete session s

-- the class of the store
pub data StoreClass : Type 0 where
  in_memory redis postgres : StoreClass

abbrev or_memory : Option String → String
or_memory none = "memory"
or_memory (some s) = s

-- of OBR_MCP_SESSION_STORE
unfoldable pub get_mcp_session_store : Option String → StoreClass
unfolding lower
get_mcp_session_store backend =
    if lower (or_memory backend) == "redis"
    then redis
    else if lower (or_memory backend) == "postgres"
    then postgres
    else in_memory
