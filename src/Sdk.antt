-- ===== src/Sdk.antt =====
-- packages/sdk-py/lean_langchain_sdk: client.py and exceptions.py, with the paths of
-- packages/schemas/lean_langchain_schemas/api_paths.py. `loads` is `json.loads`, which gives none where
-- it raises.
pub mod Envelope
pub mod Methods
use Prim.Native.String.{◌++◌ as text_append}
use lean_lang_chain.Common.{
  ℕ, zero, suc, String, Bool, true, false, Option, none, some, List, [], ◌∷◌, leb, ◌==◌,
  if◌then◌else◌,
}
use lean_lang_chain.Json.{
  ℤ, pos, Json, Fields, null, bool, int, str, arr, obj, nil, end, field, get, get_or, has_key, set,
  truthy,
}

-- `fs.setdefault(k, v)`
unfoldable pub setdefault : String → Json → Fields → Fields
unfolding has_key set
setdefault k v fs = if has_key k fs then fs else set k v fs

-- the fields of a command's result
unfoldable pub command_defaults : Json → Fields → Fields
unfolding setdefault
command_defaults passed fs = setdefault "timing_ms" (int (pos 0)) (
    setdefault "stderr" (str "")
      (setdefault "stdout" (str "") (setdefault "command" (arr nil) (setdefault "ok" passed fs))))

unfoldable pub audit_defaults : Fields → Fields
unfolding setdefault
audit_defaults fs = setdefault "trust_level" (str "clean") (setdefault "ok" (bool true) fs)

-- a nested dictionary is completed, anything else stays
unfoldable pub completed : String → (Fields → Fields) → Fields → Json → Fields
unfolding set
completed k fill d (obj fs) = set k (obj (fill fs)) d
completed k fill d _ = d

-- `_normalize_batch_verify_dict`
unfoldable pub normalize_batch_verify_dict : Fields → Fields
unfolding completed command_defaults audit_defaults get_or truthy
normalize_batch_verify_dict raw =
    let d1 = completed "axiom_audit" audit_defaults raw (get "axiom_audit" raw) in
    let passed = bool (truthy (get_or "ok" (bool true) d1)) in
    let d2 = completed "build" (command_defaults passed) d1 (get "build" d1) in
    completed "fresh_checker" (command_defaults (bool true)) d2 (get "fresh_checker" d2)

-- the body of a response: none, a text, or bytes that are no UTF-8 with the text that replaces them
pub data Body : Type 0 where
  no_body : Body
  text : String → Body
  undecodable : String → Body

-- `s[:n]`
unfoldable pub take_text : ℕ → String → String
take_text zero s = ""
take_text (suc n) String.[] = ""
take_text (suc n) (String.◌∷◌ c s) = String.◌∷◌ c (take_text n s)

abbrev error_fields : Json → Json → Json → Json × Json
error_fields code message (obj err) = (get_or "code" code err, get_or "message" message err)
error_fields code message _ = (code, message)

abbrev error_data : Json → Json → Json → Json × Json
error_data code message (obj fs) = error_fields code message (get "error" fs)
error_data code message _ = (code, message)

abbrev decoded_error : Json → Json → String → Option Json → Json × Json
decoded_error code message s none = (code, str (take_text 500 s))
decoded_error code message s (some j) = error_data code message j

-- `_parse_error_response`; `shown` is the status as a text
unfoldable pub parse_error_response : (String → Option Json) → String → Body → Json × Json
unfolding take_text get_or
parse_error_response loads shown no_body = (str "unknown", str (text_append "HTTP " shown))
parse_error_response loads shown (text s) =
    if s == ""
    then (str "unknown", str (text_append "HTTP " shown))
    else decoded_error (str "unknown") (str (text_append "HTTP " shown)) s (loads s)
parse_error_response loads shown (undecodable s) = (str "unknown", str (take_text 500 s))

-- `ObligationRuntimeAPIError`
pub record ApiError : Type 0 where
  pub status_code : ℕ
  pub code : Json
  pub message : Json
  pub body : Json

abbrev or_value : Json → Json → Json
or_value x d = if truthy x then x else d

-- its constructor
unfoldable pub api_error_of : ℕ → Json → Json → Json → ApiError
unfolding truthy
api_error_of status code message body = record {
  status_code = status;
  code = or_value code (str "unknown");
  message = message;
  body = or_value body (obj end);
}

-- what a request to the gateway ends with
pub data Outcome : Type 0 where
  returned : Json → Outcome
  raised : ApiError → Outcome
  not_json : Outcome

abbrev body_json : (String → Option Json) → Body → Option Json
body_json loads (text s) = if s == "" then none else loads s
body_json loads _ = none

abbrev or_empty : Option Json → Json
or_empty none = obj end
or_empty (some j) = j

abbrev or_not_json : Option Json → Outcome
or_not_json none = not_json
or_not_json (some j) = returned j

-- `_post` and `_get` after the response has come
unfoldable pub handle_response : (String → Option Json) → (ℕ → String) → ℕ → Body → Outcome
unfolding parse_error_response api_error_of
handle_response loads show status body =
    if leb 400 status
    then (let (code, message) = parse_error_response loads (show status) body in
        raised (api_error_of status code message (or_empty (body_json loads body))))
    else or_not_json (body_json loads body)
