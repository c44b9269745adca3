-- ===== src/Tests/Tools.antt =====
-- A request for a tool, over a gateway that keeps no state.
use lean_lang_chain.Common.{String, refl, [], ◌∷◌}
use lean_lang_chain.Json.{Json, Fields, str, obj, end, field, get_or, has_key, null}
use lean_lang_chain.Sdk.{returned}
use lean_lang_chain.Text.{strip}
use lean_lang_chain.Mcp.Session.{empty}
use lean_lang_chain.Mcp.Catalog.{operations, get_mcp_tool_name}
use lean_lang_chain.Mcp.Tools.{Server}
use lean_lang_chain.Mcp.Requests.{Surroundings, handle_mcp_request}
use lean_lang_chain.Mcp.Requests.Listed.{IsServed, handle-IsServed, keys_in, listed_in}

text_of_json : Json → String
text_of_json (str s) = s
text_of_json _ = ""

abbrev surroundings : Surroundings (Unit {0})
surroundings = record {
  perform = λ call w. (returned null, w);
  shown = text_of_json;
  dumps = λ j. "null";
  exc_text = λ e. "";
  api_text = λ e. "";
  call_text = λ t args. "";
}

abbrev server : Server (Unit {0})
server = record { context = empty; store = []; gateway = tt }

abbrev arguments : Fields
arguments = field "thread_id" (str "t1") end

abbrev request : Fields
request = field "name" (str "obligation/resume ") (field "arguments" (obj arguments) end)

handle-IsServed_example :
    IsServed surroundings "obligation/resume " arguments server
      (handle_mcp_request surroundings "tools/call" request server)
unfolding get_or has_key strip keys_in listed_in operations get_mcp_tool_name
handle-IsServed_example =
    handle-IsServed surroundings "obligation/resume " request arguments server ("thread_id" ∷ [])
      refl refl refl refl refl
