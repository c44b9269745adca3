-- ===== src/Gateway/Errors.antt =====
-- apps/lean-gateway/lean_langchain_gateway/api/errors.py, and the exception handlers of api/app.py.
-- `text_of` is Python's `str` on a JSON value.
use lean_lang_chain.Common.{
  ℕ, String, Exc, attribute_error, key_error, type_error, value_error, file_not_found,
  runtime_error, api_error, Bool, if◌then◌else◌,
}
use lean_lang_chain.Json.{Json, Fields, str, obj, end, field, get_or}

abbrev pub bad_request : String
bad_request = "bad_request"

-- `error_envelope` with no details
unfoldable pub error_envelope : Json → Json → String → Fields
error_envelope code message request_id =
    field "error"
      (obj (
        field "code" code (
          field "message" message
            (field "request_id" (str request_id) (field "details" (obj end) end)))))
      end

-- `_detail_code_and_message`
unfoldable pub detail_code_and_message : (Json → String) → Json → Json × Json
unfolding get_or
detail_code_and_message text_of (obj fs) =
    (get_or "code" (str bad_request) fs, get_or "message" (str (text_of (obj fs))) fs)
detail_code_and_message text_of j = (str bad_request, str (text_of j))

-- a response on its way to the client
pub record HttpResponse : Type 0 where
  pub status : ℕ
  pub content : Json

-- `http_exception_handler`
unfoldable pub http_exception_handler : (Json → String) → String → ℕ → Json → HttpResponse
unfolding detail_code_and_message error_envelope
http_exception_handler text_of request_id status detail =
    let (code, message) = detail_code_and_message text_of detail in
    record { status = status; content = obj (error_envelope code message request_id) }

-- the code and the status of an exception that no handler raised on purpose; `escapes` says whether the
-- text of a ValueError has the word
unfoldable pub exception_class : Bool → Exc → String × ℕ
exception_class escapes file_not_found = ("not_found", 404)
exception_class escapes key_error = ("not_found", 404)
exception_class escapes value_error =
    (if escapes then "path_traversal" else "validation_error", 400)
exception_class escapes attribute_error = ("internal_error", 500)
exception_class escapes type_error = ("internal_error", 500)
exception_class escapes runtime_error = ("internal_error", 500)
exception_class escapes api_error = ("internal_error", 500)

-- `unhandled_exception`, with the redacted text of the exception
unfoldable pub unhandled_exception : Bool → String → String → Exc → HttpResponse
unfolding exception_class error_envelope
unhandled_exception escapes request_id message e =
    let (code, status) = exception_class escapes e in
    record { status = status; content = obj (error_envelope (str code) (str message) request_id) }
