-- ===== src/Mcp/Requests.antt =====
-- apps/orchestrator/lean_langchain_orchestrator/mcp_server_main.py: handle_mcp_request. `dumps` is that of the
-- json module, `exc_text` and `api_text` are the texts of exceptions, and `call_text` that of the TypeError of
-- a call that does not fit.
pub mod Listed
use Prim.Native.String.{◌++◌ as text_append}
use lean_lang_chain.Common.{
  ℕ, String, Option, none, some, Exc, type_error, attribute_error, Result, ok, raise, ◌==◌,
  if◌then◌else◌, [], ◌∷◌, List,
}
use lean_lang_chain.Text.{strip}
use lean_lang_chain.Json.{
  ℤ, negsuc, pos, Json, Fields, int, str, arr, obj, nil, cons, end, field, get, get_or, truthy,
}
use lean_lang_chain.Gateway.Map.{lookup}
use lean_lang_chain.Sdk.{ApiError, Outcome}
use lean_lang_chain.Sdk.Methods.{Call}
use lean_lang_chain.Mcp.Catalog.{build_mcp_tool_schemas}
use lean_lang_chain.Mcp.Tools.{
  Tool, Parameter, Server, Answer, done, refused, failed, parameters, build_mcp_tools,
  bind_arguments, run_tool,
}

-- an answer with an error; `n` stands for the code -(n + 1)
abbrev pub error_answer : ℕ → String → Json
error_answer n message =
    obj
      (field "error" (obj (field "code" (int (negsuc n)) (field "message" (str message) end))) end)

abbrev pub unknown_tool : String → Json
unknown_tool name = error_answer 32600 (text_append "Unknown tool: " name)

abbrev server_info : Json
server_info = obj (
    field "protocolVersion" (str "0.1") (
      field "capabilities" (obj (field "tools" (obj end) end)) (
        field "serverInfo"
          (obj (field "name" (str "lean-langchain") (field "version" (str "0.1.0") end))) end)))

-- `(x or "").strip()`
unfoldable pub stripped_name : Json → Result String
unfolding truthy strip
stripped_name (str s) = ok (strip s)
stripped_name j = if truthy j then raise attribute_error else ok ""

-- the arguments, where they are a dictionary
abbrev pub arguments_of : Json → Fields
arguments_of (obj fs) = fs
arguments_of _ = end

-- how a tool reaches the gateway, and the texts of values and errors
pub record Surroundings (W : Type 0) : Type 0 where
  pub perform : Call → W → Outcome × W
  pub shown : Json → String
  pub dumps : Json → String
  pub exc_text : Exc → String
  pub api_text : ApiError → String
  pub call_text : Tool → Fields → String

module _ {W : Type 0} (v : Surroundings W) where
  abbrev invalid_arguments : String → Json
  invalid_arguments e = error_answer 32601 (text_append "Invalid arguments: " e)

  abbrev api_data : ApiError → Json
  api_data e = obj (
      field "api_code" e.code
        (field "api_message" e.message (field "status_code" (int (pos e.status_code)) end)))

  -- what is replied when a tool has ended
  unfoldable pub reply : Answer → Json
  reply (done j) =
      let content = obj (field "type" (str "text") (field "text" (str (v.dumps j)) end)) in
      obj (field "result" (obj (field "content" (arr (cons content nil)) end)) end)
  reply (refused e) = obj (
      field "error"
        (obj (
          field "code" (int (negsuc 31999))
            (field "message" (str (v.api_text e)) (field "data" (api_data e) end))))
        end)
  reply (failed type_error) = invalid_arguments (v.exc_text type_error)
  reply (failed e) = error_answer 31999 (v.exc_text e)

  abbrev pub replied : Answer × Server W → Result Json × Server W
  replied (a, s) = (ok (reply a), s)

  abbrev called_bound : Tool → Fields → Option Fields → Server W → Result Json × Server W
  called_bound t args none s = (ok (invalid_arguments (v.call_text t args)), s)
  called_bound t args (some b) s = replied (run_tool v.perform v.shown t b s)

  abbrev called : String → Fields → Option Tool → Server W → Result Json × Server W
  called name args none s = (ok (unknown_tool name), s)
  called name args (some t) s = called_bound t args (bind_arguments (parameters t) args) s

  abbrev named_call : Fields → Result String → Server W → Result Json × Server W
  named_call args (raise e) s = (raise e, s)
  named_call args (ok name) s = called name args (lookup name build_mcp_tools) s

  unfoldable pub handle_mcp_request : String → Fields → Server W → Result Json × Server W
  unfolding build_mcp_tool_schemas stripped_name lookup bind_arguments parameters build_mcp_tools
      run_tool reply get_or
  handle_mcp_request method params s =
      if method == "initialize"
      then (ok (obj (field "result" server_info end)), s)
      else if method == "tools/list"
      then (ok (obj (field "result" (obj (field "tools" build_mcp_tool_schemas end)) end)), s)
      else if method == "tools/call"
      then named_call (arguments_of (get "arguments" params)) (stripped_name (get "name" params)) s
      else (ok (error_answer 32600 (text_append "Method not found: " method)), s)
