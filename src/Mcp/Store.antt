-- ===== src/Mcp/Store.antt =====
-- apps/orchestrator/lean_langchain_orchestrator/mcp_session_store.py: InMemoryMCPSessionStore.
use lean_lang_chain.Common.{String, Bool, false, not, Option, none, some, List, ◌==◌, if◌then◌else◌}
use lean_lang_chain.Gateway.Map.{lookup, store, erase}

-- what is kept of a session
pub record SessionRecord : Type 0 where
  pub session_id : String
  pub thread_id : Option String
  pub fingerprint_id : String
  pub workspace_path : String

-- `x or y` on optional texts; a text counts where it is not empty
abbrev pub or_else : Option String → Option String → Option String
or_else none y = y
or_else (some s) y = if s == "" then y else some s

-- `bool(x)`
abbrev pub is_set : Option String → Bool
is_set none = false
is_set (some s) = not (s == "")

abbrev pub Data : Type 0
Data = List (String × SessionRecord)

unfoldable pub get : String → Data → Option SessionRecord
unfolding lookup
get key d = lookup key d

-- the record under the thread, where it has one; `key` is what the backend makes of a name
abbrev pub store_thread {ℓ} :
    {V : Type ℓ} → (String → String) → Option String → V → List (String × V) → List (String × V)
store_thread key none r d = d
store_thread key (some t) r d = if t == "" then d else store (key t) r d

unfoldable pub set : SessionRecord → Data → Data
unfolding store
set r d = store_thread (λ t. t) r.thread_id r (store r.session_id r d)

abbrev pub erase_thread {ℓ} :
    {V : Type ℓ} → (String → String) → Option String → List (String × V) → List (String × V)
erase_thread key none d = d
erase_thread key (some t) d = if t == "" then d else erase (key t) d

abbrev pub thread_of : Option SessionRecord → Option String
thread_of none = none
thread_of (some r) = r.thread_id

unfoldable pub delete : String → Data → Data
unfolding lookup erase
delete session d = erase_thread (λ t. t) (thread_of (lookup session d)) (erase session d)

-- the changes of a store
pub data Change : Type 0 where
  save : SessionRecord → Change
  remove : (session : String) → Change

unfoldable pub apply : Data → Change → Data
unfolding set delete
apply d (save r) = set r d
apply d (remove session) = delete session d
