-- ===== src/Gateway/Webhooks.antt =====
-- apps/lean-gateway/lean_langchain_gateway/api/webhooks.py: the delivery of an event with its retries.
-- What an attempt ends with is an argument: the status of the response, or none for an exception.
-- `hmac` is the hex digest of HMAC-SHA256, and `dumps` is `json.dumps`.
use Prim.Native.String.{◌++◌ as text_append}
use lean_lang_chain.Common.{
  is_some, length, not, ◌&&◌, ◌≡◌, ◌≤◌, arith, ℕ, zero, suc, ◌+◌, ◌-◌, String, Bool, true, false,
  Option, none, some, List, [], ◌∷◌, ltb, if◌then◌else◌, ◌==◌,
}
use lean_lang_chain.Json.{Fields, str, end, field, update}
use lean_lang_chain.Text.{strip}
use lean_lang_chain.Gateway.Runners.{Env, or_default}

-- the numbers of the attempts made, the seconds waited, and whether one succeeded
pub record Delivery : Type 0 where
  pub attempts : List ℕ
  pub waited : ℕ
  pub delivered : Bool

abbrev pub retries : ℕ
retries = 2

-- the backoff after an attempt: one second, then two
abbrev backoff : ℕ → ℕ
backoff zero = 1
backoff (suc n) = 2

-- whether an attempt has succeeded
abbrev pub succeeded : Option ℕ → Bool
succeeded none = false
succeeded (some status) = ltb status 400

abbrev also : ℕ → ℕ → Delivery → Delivery
also attempt seconds d = record {
  attempts = attempt ∷ d.attempts;
  waited = seconds + d.waited;
  delivered = d.delivered;
}

-- the loop of `_emit_event`, with the attempts that are left
unfoldable pub deliver : (ℕ → Option ℕ) → ℕ → ℕ → Delivery
deliver outcome zero attempt = record { attempts = []; waited = 0; delivered = false }
deliver outcome (suc left) attempt =
    let again = deliver outcome left (attempt + 1) in
    if succeeded (outcome attempt)
    then record { attempts = attempt ∷ []; waited = 0; delivered = true }
    else also attempt (if ltb attempt retries then backoff attempt else 0) again

-- the body of an event
unfoldable pub event_body : String → String → String → Fields → Fields
unfolding update
event_body event thread timestamp payload =
    update
      (field "event" (str event)
        (field "thread_id" (str thread) (field "timestamp" (str timestamp) end)))
      payload

abbrev signed : (String → String → String) → String → String → Fields → Fields
signed hmac secret body headers =
    if secret == ""
    then headers
    else update headers
        (field "X-Webhook-Signature" (str (text_append "sha256=" (hmac secret body))) end)

-- the headers of a request
unfoldable pub event_headers : (String → String → String) → Env → String → Fields
unfolding update
event_headers hmac env body =
    signed hmac (strip (or_default "" (env "OBR_WEBHOOK_SECRET"))) body
      (field "Content-Type" (str "application/json") end)

-- `_emit_event`: no attempt without an address
unfoldable pub emit_event : Env → (ℕ → Option ℕ) → Delivery
unfolding deliver
emit_event env outcome =
    if strip (or_default "" (env "OBR_WEBHOOK_URL")) == ""
    then record { attempts = []; waited = 0; delivered = false }
    else deliver outcome (suc retries) 0

-- the first of the attempts that succeeds
abbrev pub first_success : (ℕ → Option ℕ) → ℕ → ℕ → Option ℕ
first_success outcome zero attempt = none
first_success outcome (suc left) attempt =
    let later = first_success outcome left (attempt + 1) in
    if succeeded (outcome attempt) then some attempt else later

-- as many attempts as were made up to the first success, and all of them without one
abbrev pub attempts_up_to : Option ℕ → ℕ → ℕ → ℕ
attempts_up_to none left attempt = left
attempts_up_to (some k) left attempt = suc k - attempt

-- An event is posted at most three times, with at most three seconds of waiting, and not after a
-- success: it is delivered exactly when one of the first three attempts succeeds and there is an
-- address, and the attempts are those up to the first success.
pub emit_event_lem :
    (env : Env) (outcome : ℕ → Option ℕ)
    → let d = emit_event env outcome in
      let has_address = not (strip (or_default "" (env "OBR_WEBHOOK_URL")) == "") in
      (d.delivered ≡ (has_address && is_some (first_success outcome (suc retries) 0)))
      × (length d.attempts ≡ (
          if has_address
          then attempts_up_to (first_success outcome (suc retries) 0) (suc retries) 0
          else 0))
      × (d.waited ≤ 3)
unfolding emit_event deliver
emit_event_lem env outcome = ground arith
