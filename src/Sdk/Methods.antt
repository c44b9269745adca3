-- ===== src/Sdk/Methods.antt =====
-- packages/sdk-py/lean_langchain_sdk/client.py: the request that each method of the client makes, with
-- the paths of packages/schemas/lean_langchain_schemas/api_paths.py. The model that a response is
-- validated by is left out.
use Prim.Native.String.{◌++◌ as text_append}
use lean_lang_chain.Common.{String, Bool, true, false, Option, none, some, ◌==◌, if◌then◌else◌}
use lean_lang_chain.Json.{Fields, end}

-- the methods of `ObligationRuntimeClient`, with what the caller gives
pub data Call : Type 0 where
  open_environment : Fields → Call
  create_session : Fields → Call
  apply_patch : (session : String) → Fields → Call
  interactive_check : (session : String) → Fields → Call
  get_goal : (session : String) → Fields → Call
  hover : (session : String) → Fields → Call
  definition : (session : String) → Fields → Call
  batch_verify : (session : String) → Fields → Call
  get_review_payload : (thread : String) → Call
  create_pending_review : Fields → Call
  submit_review_decision : (thread decision : String) → Fields → Call
  resume : (thread : String) → Call

pub data Method : Type 0 where
  post get : Method

-- a request; the time limit of batch_verify is its own
pub record Request : Type 0 where
  pub method : Method
  pub path : String
  pub payload : Option Fields
  pub is_batch : Bool

-- `path_session` and `path_review` with the templates of one parameter
unfoldable pub path_session : String → String → String
path_session session action = text_append "/v1/sessions/" (text_append session action)

unfoldable pub path_review : String → String → String
path_review thread action = text_append "/v1/reviews/" (text_append thread action)

abbrev posted : String → Fields → Request
posted path payload = record {
  method = Method.post;
  path = path;
  payload = some payload;
  is_batch = false;
}

-- `submit_review_decision`: any other decision is the last part of the path
unfoldable pub decision_path : String → String → String
unfolding path_review
decision_path thread decision =
    if decision == "approve"
    then path_review thread "/approve"
    else if decision == "reject"
    then path_review thread "/reject"
    else text_append (path_review thread "") (text_append "/" decision)

unfoldable pub request_of : Call → Request
unfolding path_session path_review decision_path
request_of (open_environment p) = posted "/v1/environments/open" p
request_of (create_session p) = posted "/v1/sessions" p
request_of (apply_patch s p) = posted (path_session s "/apply-patch") p
request_of (interactive_check s p) = posted (path_session s "/interactive-check") p
request_of (get_goal s p) = posted (path_session s "/goal") p
request_of (hover s p) = posted (path_session s "/hover") p
request_of (definition s p) = posted (path_session s "/definition") p
request_of (batch_verify s p) = record {
  method = Method.post;
  path = path_session s "/batch-verify";
  payload = some p;
  is_batch = true;
}
request_of (get_review_payload t) = record {
  method = Method.get;
  path = path_review t "";
  payload = none;
  is_batch = false;
}
request_of (create_pending_review p) = posted "/v1/reviews" p
request_of (submit_review_decision t d p) = posted (decision_path t d) p
request_of (resume t) = posted (path_review t "/resume") end
