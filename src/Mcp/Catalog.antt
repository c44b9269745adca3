-- ===== src/Mcp/Catalog.antt =====
-- packages/schemas/lean_langchain_schemas/operation_catalog.py: the operations, and the list of tools that
-- is made of them.
use Prim.Native.String.{◌++◌ as text_append}
use lean_lang_chain.Common.{String, ◌||◌, List, [], ◌∷◌, ◌==◌, if◌then◌else◌, map}
use lean_lang_chain.Json.{Json, Fields, str, arr, obj, end, field, from_list}

pub record Operation : Type 0 where
  pub name : String
  pub params : List String
  pub description : String

abbrev operation : String → List String → String → Operation
operation name params description = record {
  name = name;
  params = params;
  description = description;
}

unfoldable pub operations : List Operation
operations =
    operation "open_environment" ("repo_id" ∷ "repo_path" ∷ "repo_url" ∷ "commit_sha" ∷ [])
      "Open a Lean environment by repo_id (and optional repo_path, repo_url, commit_sha)."
    ∷ operation "create_session" ("fingerprint_id" ∷ "thread_id" ∷ [])
        "Create a session for a fingerprint."
    ∷ operation "apply_patch" ("session_id" ∷ "thread_id" ∷ "files" ∷ [])
        "Apply patch (files) to session."
    ∷ operation "check_interactive" ("session_id" ∷ "thread_id" ∷ "file_path" ∷ [])
        "Run interactive check on file."
    ∷ operation "get_goal"
        ("session_id" ∷ "thread_id" ∷ "file_path" ∷ "line" ∷ "column" ∷ "goal_kind" ∷ [])
        "Get goal at position."
    ∷ operation "hover" ("session_id" ∷ "thread_id" ∷ "file_path" ∷ "line" ∷ "column" ∷ [])
        "Get hover contents at position (LSP)."
    ∷ operation "definition" ("session_id" ∷ "thread_id" ∷ "file_path" ∷ "line" ∷ "column" ∷ [])
        "Get definition locations at position (LSP)."
    ∷ operation "batch_verify"
        ("session_id" ∷ "thread_id" ∷ "target_files" ∷ "target_declarations" ∷ [])
        "Run batch verification."
    ∷ operation "get_review_payload" ("thread_id" ∷ []) "Get review payload for thread."
    ∷ operation "submit_review_decision" ("thread_id" ∷ "decision" ∷ [])
        "Submit approve or reject for thread."
    ∷ operation "resume" ("thread_id" ∷ [])
        "Resume graph after approve/reject (requires checkpointer)."
    ∷ []

unfoldable pub get_mcp_tool_name : String → String
get_mcp_tool_name operation_name = text_append "obligation/" operation_name

abbrev typed : String → Json
typed t = obj (field "type" (str t) end)

unfoldable pub operation_param_schema : String → Json
operation_param_schema p =
    if p == "line" || p == "column"
    then typed "integer"
    else if p == "target_files" || p == "target_declarations"
    then obj (field "type" (str "array") (field "items" (typed "string") end))
    else if p == "files"
    then typed "object"
    else typed "string"

properties : List String → Fields
properties [] = end
properties (p ∷ ps) = field p (operation_param_schema p) (properties ps)

unfoldable pub tool_schema : Operation → Json
unfolding get_mcp_tool_name operation_param_schema properties
tool_schema op = obj (
    field "name" (str (get_mcp_tool_name op.name)) (
      field "description" (str op.description) (
        field "inputSchema"
          (obj (field "type" (str "object") (field "properties" (obj (properties op.params)) end)))
          end)))

unfoldable pub build_mcp_tool_schemas : Json
unfolding operations tool_schema from_list
build_mcp_tool_schemas = arr (from_list (map tool_schema operations))
