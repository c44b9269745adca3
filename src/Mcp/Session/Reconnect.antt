-- ===== src/Mcp/Session/Reconnect.antt =====
-- Which session a tool of mcp_server.py works on.
use lean_lang_chain.Common.{String, ◌≡◌, true, false, Option, some, ok, ◌==◌, arith}
use lean_lang_chain.Mcp.Store.{or_else, is_set}
use lean_lang_chain.Mcp.Session.{Context, Stored, maybe_restore, resolve_session}

-- A tool works on the session that its caller names, and where none is named on the session of the
-- context, if there is one, whatever thread the caller names and the store holds.
pub resolve_session-known :
    (stored : Option Stored) (session thread : Option String) (c : Context) (s : String)
    → (s == "") ≡ false
    → or_else session c.session_id ≡ some s
    → is_set c.session_id ≡ true
    → resolve_session stored session thread c ≡ (ok s, c)
unfolding resolve_session maybe_restore
resolve_session-known stored session thread c s h e live = ground arith
