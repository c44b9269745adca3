-- ===== src/Sdk/Envelope.antt =====
-- The errors of the gateway (api/errors.py, api/app.py) as the client (client.py) raises them, and the
-- results of the gateway as the client completes them.
use lean_lang_chain.Common.{
  ℕ, String, ◌≡◌, refl, Bool, true, false, Option, some, Exc, file_not_found, key_error,
  value_error, attribute_error, type_error, runtime_error, api_error, ◌==◌, leb,
}
use lean_lang_chain.Json.{Json, str, obj}
use lean_lang_chain.Gateway.Reviews.{detail}
use lean_lang_chain.Gateway.Errors.{
  error_envelope, HttpResponse, http_exception_handler, exception_class, unhandled_exception,
}
use lean_lang_chain.Gateway.Batch.{BatchVerifyResult, dump_batch, dump_command, dump_audit}
use lean_lang_chain.Sdk.{
  text, ApiError, raised, handle_response, parse_error_response, normalize_batch_verify_dict,
}

-- the error that carries a response
abbrev pub carried : HttpResponse → String → String → ApiError
carried r code message = record {
  status_code = r.status;
  code = str code;
  message = str message;
  body = r.content;
}

-- A dump that already has every field is not changed by the client's completion.
pub normalize-dump_batch :
    (r : BatchVerifyResult) → normalize_batch_verify_dict (dump_batch r) ≡ dump_batch r
unfolding normalize_batch_verify_dict dump_batch dump_command dump_audit
normalize-dump_batch r = refl

module _ (dumps : Json → String) (loads : String → Option Json) (show : ℕ → String) where
  -- JSON keeps the value, and its text is not empty
  abbrev pub Kept : Json → Type 0
  Kept j = (loads (dumps j) ≡ some j) × ((dumps j == "") ≡ false)

  handle_envelope :
      (status : ℕ) (code message request_id : String)
      → leb 400 status ≡ true
      → (code == "") ≡ false
      → Kept (obj (error_envelope (str code) (str message) request_id))
      → let content = obj (error_envelope (str code) (str message) request_id) in
        handle_response loads show status (text (dumps content))
        ≡ raised (record {
          status_code = status;
          code = str code;
          message = str message;
          body = content;
        })
  unfolding handle_response parse_error_response error_envelope
  handle_envelope status code message request_id h k (loads-dumps, filled) =
      rw (h, filled, loads-dumps, k) refl

  -- an error of the gateway reaches the client's caller with its status, code and message
  abbrev Arrives : HttpResponse → String → String → Type 0
  Arrives r code message =
      handle_response loads show r.status (text (dumps r.content)) ≡ raised (carried r code message)

  unhandled-Arrives :
      (request_id message : String) (escapes : Bool) (e : Exc)
      → Kept (unhandled_exception escapes request_id message e).content
      → Arrives
          (unhandled_exception escapes request_id message e)
          (exception_class escapes e).0
          message
  unfolding unhandled_exception
  unhandled-Arrives request_id message escapes file_not_found kept =
      handle_envelope 404 "not_found" message request_id refl refl kept
  unhandled-Arrives request_id message escapes key_error kept =
      handle_envelope 404 "not_found" message request_id refl refl kept
  unhandled-Arrives request_id message true value_error kept =
      handle_envelope 400 "path_traversal" message request_id refl refl kept
  unhandled-Arrives request_id message false value_error kept =
      handle_envelope 400 "validation_error" message request_id refl refl kept
  unhandled-Arrives request_id message escapes attribute_error kept =
      handle_envelope 500 "internal_error" message request_id refl refl kept
  unhandled-Arrives request_id message escapes type_error kept =
      handle_envelope 500 "internal_error" message request_id refl refl kept
  unhandled-Arrives request_id message escapes runtime_error kept =
      handle_envelope 500 "internal_error" message request_id refl refl kept
  unhandled-Arrives request_id message escapes api_error kept =
      handle_envelope 500 "internal_error" message request_id refl refl kept

  -- An error that a handler raises with a code and a message, and any exception that no handler catches,
  -- makes the client raise an error with the same status, code and message, where JSON keeps the
  -- gateway's envelope, the status is 400 or more and the code is not empty.
  pub error-Arrives :
      (text_of : Json → String) (request_id : String) (status : ℕ) (code message : String)
      (escapes : Bool) (e : Exc)
      → leb 400 status ≡ true
      → (code == "") ≡ false
      → Kept (http_exception_handler text_of request_id status (detail code message)).content
      → Kept (unhandled_exception escapes request_id message e).content
      → Arrives
          (http_exception_handler text_of request_id status (detail code message))
          code
          message
        × Arrives
            (unhandled_exception escapes request_id message e)
            (exception_class escapes e).0
            message
  unfolding http_exception_handler
  error-Arrives text_of request_id status code message escapes e h k kept kept' = (
    handle_envelope status code message request_id h k kept,
    unhandled-Arrives request_id message escapes e kept',
  )
