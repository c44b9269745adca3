-- ===== src/Gateway/Routes.antt =====
-- apps/lean-gateway/lean_langchain_gateway/api/routes_sessions.py: the handlers of checks, goals, hover
-- and definition. `asks` are the optional methods of the transport.
use lean_lang_chain.Common.{
  ℕ, String, Bool, true, false, not, Option, none, some, List, [], Result, ok, raise, key_error,
  is_some, map,
}
use lean_lang_chain.Json.{Json, Fields, bool, str, int, arr, obj, pos, end, field, from_list}
use lean_lang_chain.Gateway.Reviews.{Response, answer, internal_error}
use lean_lang_chain.Gateway.Sessions.{SessionLease, Sessions, get_lease}
use lean_lang_chain.Gateway.Files.{no_session}
use lean_lang_chain.Gateway.Interactive.{Transport, language_server, Report, check_interactive}

-- a file and a position in it
pub record Position : Type 0 where
  pub file_path : String
  pub line : ℕ
  pub column : ℕ

-- the methods that only a transport of the language server has
pub record Questions : Type 0 where
  pub get_goal : String → Position → String → Result (List Json)
  pub hover : String → Position → Result Json
  pub definition : String → Position → Result (List Json)

-- an exception that no handler of the route catches is left to the application
abbrev handled {ℓ} : {A : Type ℓ} → (A → Response Json) → Result A → Response Json
handled f (ok a) = f a
handled f (raise e) = internal_error

-- the session has to be there
abbrev pub for_session : Result SessionLease → Response Json → Response Json
for_session (ok lease) r = r
for_session (raise key_error) r = no_session
for_session (raise _) r = internal_error

-- `transport_get_goal`, `transport_hover` and `transport_definition`
abbrev pub asked {ℓ} : {A : Type ℓ} → A → (Questions → Result A) → Option Questions → Result A
asked default ask none = ok default
asked default ask (some q) = ask q

position_fields : Position → Fields → Fields
position_fields p rest = field "line" (int (pos p.line)) (field "column" (int (pos p.column)) rest)

-- the handler `goal`
unfoldable pub goal : Option Questions → Sessions → String → Position → String → Response Json
unfolding get_lease position_fields from_list
goal asks s session p kind = for_session (get_lease session s) (
    handled
      (λ goals. answer (
        obj (
          field "ok" (bool true) (
            field "goal_kind" (str kind) (
              field "goals" (arr (from_list goals))
                (position_fields p (field "lsp_required" (bool (not (is_some asks))) end)))))))
      (asked [] (λ q. q.get_goal session p kind) asks))

-- the handler `hover`
unfoldable pub hover : Option Questions → Sessions → String → Position → Response Json
unfolding get_lease position_fields
hover asks s session p = for_session (get_lease session s) (
    handled
      (λ contents. answer (
        obj (
          field "ok" (bool true) (
            field "contents" contents (
              field "file_path" (str p.file_path)
                (position_fields p (field "lsp_required" (bool (not (is_some asks))) end)))))))
      (asked (str "") (λ q. q.hover session p) asks))

-- the handler `definition`
unfoldable pub definition : Option Questions → Sessions → String → Position → Response Json
unfolding get_lease position_fields from_list
definition asks s session p = for_session (get_lease session s) (
    handled
      (λ locations. answer (
        obj (
          field "ok" (bool true) (
            field "locations" (arr (from_list locations)) (
              field "file_path" (str p.file_path)
                (position_fields p (field "lsp_required" (bool (not (is_some asks))) end)))))))
      (asked [] (λ q. q.definition session p) asks))

abbrev pub is_language_server : Transport → Bool
is_language_server (language_server run_check) = true
is_language_server _ = false

abbrev report_fields : Report → Bool → Fields
report_fields r lsp_required = field "ok" (bool r.passed) (
    field "diagnostics" (arr (from_list (map (λ d. obj d) r.diagnostics))) (
      field "goals" (arr (from_list (map (λ d. obj d) r.goals)))
        (field "timing_ms" (int (pos r.timing_ms)) (field "lsp_required" (bool lsp_required) end))))

abbrev pub checked_response : Transport → Result Report × Sessions → Response Json × Sessions
checked_response t (r, s) =
    (handled (λ report. answer (obj (report_fields report (not (is_language_server t))))) r, s)

abbrev pub checked_session :
    Transport → Result SessionLease → Sessions → Response Json × Sessions → Response Json × Sessions
checked_session t (ok lease) s r = r
checked_session t (raise e) s r = (for_session (raise e) internal_error, s)

-- the handler `interactive_check`, on the fields of the report that depend on the check
unfoldable pub interactive_check :
    (Fields → Bool)
    → (Fields → Bool)
    → Transport
    → ℕ
    → ℕ
    → Sessions
    → String
    → String
    → Response Json × Sessions
unfolding get_lease check_interactive from_list
interactive_check well_typed goal_typed t now elapsed s session file =
    checked_session t (get_lease session s) s
      (checked_response t (check_interactive well_typed goal_typed t now elapsed session file s))
