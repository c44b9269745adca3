-- ===== src/Gateway/Lsp/Messages.antt =====
-- apps/lean-gateway/lean_langchain_gateway/server/lsp_client.py: the messages that a request sends, and
-- whole requests. `show` is Python's `str` on a JSON value; `reply` is the first message that is read
-- after the request, and none where nothing was read.
use lean_lang_chain.Common.{ℕ, String, Option, none, some, List, [], ◌∷◌, if◌then◌else◌}
use lean_lang_chain.Json.{Json, Fields, int, str, obj, pos, end, field}
use lean_lang_chain.Text.Lines.{contains}
use lean_lang_chain.Gateway.Lsp.Requests.{goals_of, hover_of, locations_of, result_field}

-- the messages sent, and what the request returns
pub record Exchange (A : Type 0) : Type 0 where
  pub sent : List Fields
  pub result : A

-- a place in a file of the workspace, as the server is asked about it
pub record Place : Type 0 where
  pub uri : String
  pub file_path : String
  pub line : ℕ
  pub column : ℕ

abbrev rpc : String → Fields → Fields
rpc method params =
    field "jsonrpc" (str "2.0") (field "method" (str method) (field "params" (obj params) end))

abbrev rpc_request : ℕ → String → Fields → Fields
rpc_request id method params =
    field "jsonrpc" (str "2.0")
      (field "id" (int (pos id)) (field "method" (str method) (field "params" (obj params) end)))

unfoldable pub did_open : String → String → Fields
did_open uri source = rpc "textDocument/didOpen" (
    field "textDocument"
      (obj (
        field "uri" (str uri) (
          field "languageId" (str "lean4")
            (field "version" (int (pos 1)) (field "text" (str source) end)))))
      end)

abbrev at_place : Place → Fields
at_place p = field "textDocument" (obj (field "uri" (str p.uri) end)) (
    field "position"
      (obj (field "line" (int (pos p.line)) (field "character" (int (pos p.column)) end))) end)

unfoldable pub goal_method : String → String
unfolding contains
goal_method kind = if contains "plain" kind then "$/lean/plainGoal" else "$/lean/plainTermGoal"

-- a file is read and opened, and then one question is asked; without a process or a file nothing is
-- sent
unfoldable pub asked_at :
    {A : Type 0}
    → Option ℕ
    → Option String
    → A
    → (Json → A)
    → String
    → Fields
    → Option Fields
    → Exchange A
unfolding did_open result_field
asked_at none source empty_answer read uri question reply = record {
  sent = [];
  result = empty_answer;
}
asked_at (some p) none empty_answer read uri question reply = record {
  sent = [];
  result = empty_answer;
}
asked_at (some p) (some source) empty_answer read uri question reply = record {
  sent = did_open uri source ∷ question ∷ [];
  result = read (result_field reply);
}

module _ (process : Option ℕ) (source : Option String) (p : Place) (reply : Option Fields) where
  unfoldable pub run_get_goal : (Json → String) → String → Exchange (List Json)
  unfolding asked_at goal_method goals_of
  run_get_goal show kind =
      asked_at process source [] (goals_of show kind p.file_path p.line p.column) p.uri
        (rpc_request 2 (goal_method kind) (at_place p)) reply

  unfoldable pub run_hover : (Json → String) → Exchange Json
  unfolding asked_at hover_of
  run_hover show =
      asked_at process source (str "") (hover_of show) p.uri
        (rpc_request 3 "textDocument/hover" (at_place p)) reply

  unfoldable pub run_definition : Exchange (List Json)
  unfolding asked_at locations_of
  run_definition =
      asked_at process source [] locations_of p.uri
        (rpc_request 4 "textDocument/definition" (at_place p)) reply
