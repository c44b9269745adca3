-- ===== src/Gateway/Reviews.antt =====
-- apps/lean-gateway/lean_langchain_gateway/api/review_store.py (InMemoryReviewStore) and the
-- handlers of api/routes_reviews.py. The webhooks that a handler queues are left out.
pub mod History
pub mod Postgres
pub mod Agreement
use lean_lang_chain.Common.{
  ℕ, not, String, Bool, true, false, Option, none, some, List, ◌==◌, if◌then◌else◌,
}
use lean_lang_chain.Json.{Json, Fields, null, str, obj, field, end, set, get_or}
use lean_lang_chain.Json.Equality.{nat_eq}
use lean_lang_chain.Gateway.Map.{lookup, store, erase}

pub data ReviewDecision : Type 0 where
  approved rejected : ReviewDecision

abbrev pub decision_text : ReviewDecision → String
decision_text ReviewDecision.approved = "approved"
decision_text ReviewDecision.rejected = "rejected"

pub record ReviewRecord : Type 0 where
  pub payload : Fields
  pub decision : Option ReviewDecision

abbrev pub ReviewStore : Type 0
ReviewStore = List (String × ReviewRecord)

unfoldable pub put : String → Fields → ReviewStore → ReviewStore
unfolding store
put thread payload s = store thread (record { payload = payload; decision = none }) s

unfoldable pub get_record : String → ReviewStore → Option ReviewRecord
unfolding lookup
get_record thread s = lookup thread s

-- the status of a decided review is its decision
unfoldable pub shown : ReviewRecord → Fields
shown r = elim r.decision [
  | none ↦ r.payload
  | some d ↦ set "status" (str (decision_text d)) r.payload
]

unfoldable pub get_payload : String → ReviewStore → Option Fields
unfolding get_record shown
get_payload thread s = elim (get_record thread s) [ none ↦ none | some r ↦ some (shown r) ]

unfoldable pub set_decision : String → ReviewDecision → ReviewStore → Bool × ReviewStore
unfolding get_record store
set_decision thread d s = elim (get_record thread s) [
  | none ↦ (false, s)
  | some r ↦ (true, store thread (record { payload = r.payload; decision = some d }) s)
]

unfoldable pub delete : String → ReviewStore → Bool × ReviewStore
unfolding get_record erase
delete thread s = elim (get_record thread s) [ none ↦ (false, s) | some r ↦ (true, erase thread s) ]

-- a handler answers, or raises an HTTPException with a status and a detail
pub data Response (A : Type 0) : Type 0 where
  answer : A → Response A
  http_error : ℕ → Json → Response A

abbrev pub detail : String → String → Json
detail code message = obj (field "code" (str code) (field "message" (str message) end))

-- an exception that no handler catches
abbrev pub internal_error : {A : Type 0} → Response A
internal_error = http_error 500 null

abbrev validated_answer : Option Json → Response Json
validated_answer (some j) = answer j
validated_answer none = internal_error

-- `validate` is `ReviewPayload.model_validate`
unfoldable pub get_review : (Fields → Option Json) → String → ReviewStore → Response Json
unfolding get_payload
get_review validate thread s = elim (get_payload thread s) [
  | none ↦ http_error 404 (detail "review_not_found" "Review not found")
  | some raw ↦ validated_answer (validate raw)
]

unfoldable pub create_pending_review : String → Fields → ReviewStore → Response String × ReviewStore
unfolding put
create_pending_review thread payload s = (answer thread, put thread payload s)

abbrev pub no_pending : Json
no_pending = detail "bad_request" "No pending review for thread"

-- `approve_review` and `reject_review`
unfoldable pub decide_review :
    ReviewDecision → String → ReviewStore → Response ReviewDecision × ReviewStore
unfolding set_decision
decide_review d thread s =
    let (found, s') = set_decision thread d s in
    if found then (answer d, s') else (http_error 400 no_pending, s')

-- the orchestrator's response; `parsed` is none where the body is no JSON
pub record HttpResponse : Type 0 where
  pub status : ℕ
  pub is_json : Bool
  pub parsed : Option Json
  pub body_text : String

abbrev message_of : HttpResponse → Json
message_of r = obj (field "message" (str r.body_text) end)

-- `body.get("detail", body) if isinstance(body, dict) else {"message": response.text}`
detail_of : HttpResponse → Json → Json
unfolding get_or
detail_of r (obj fs) = get_or "detail" (obj fs) fs
detail_of r _ = message_of r

relay_error : HttpResponse → Response Json
unfolding detail_of
relay_error r =
    if r.is_json
    then elim r.parsed [ some j ↦ http_error r.status (detail_of r j) | none ↦ internal_error ]
    else http_error r.status (detail_of r (message_of r))

-- `validate` is `ReviewResumeProxyResponse.model_validate`
relay_answer : (Fields → Option Json) → Json → Response Json
relay_answer validate (obj fs) = validated_answer (validate fs)
relay_answer validate _ =
    http_error 503 (detail "service_unavailable" "Invalid orchestrator response")

unfoldable pub relay : (Fields → Option Json) → HttpResponse → Response Json
unfolding relay_error relay_answer
relay validate r =
    if not (nat_eq r.status 200)
    then relay_error r
    else elim r.parsed [ some j ↦ relay_answer validate j | none ↦ internal_error ]

-- the decision that the handler sends on, or its refusal
unfoldable pub ready_decision : String → ReviewStore → Response ReviewDecision
unfolding get_record
ready_decision thread s = elim (get_record thread s) [
  | none ↦ http_error 404 (detail "review_not_found" "Review not found")
  | some r ↦ elim r.decision [
    | none ↦
        http_error 400 (detail "bad_request" "Approve or reject the review first, then call resume")
    | some d ↦ answer d
  ]
]

-- `post` is the request to the orchestrator at its base URL; none is a failed connection, whose
-- text is left out of the detail
unfoldable pub resume_review :
    (Fields → Option Json)
    → String
    → (String → String → ReviewDecision → Option HttpResponse)
    → String
    → ReviewStore
    → Response Json
unfolding ready_decision relay
resume_review validate url post thread s = elim (ready_decision thread s) [
  | http_error status d ↦ http_error status d
  | answer d ↦
      if url == ""
      then http_error 503 (
          detail "service_unavailable"
            "Resume requires OBR_ORCHESTRATOR_URL (orchestrator service base URL)")
      else elim (post url thread d) [
        | none ↦ http_error 503 (detail "service_unavailable" "Orchestrator request failed")
        | some r ↦ relay validate r
      ]
]
