-- ===== src/Tests/Protocol.antt =====
-- The check of single ownership on concrete events.
use lean_lang_chain.Common.{String, true, false, [], ◌∷◌, ◌≡◌, ◌↔◌, refl}
use lean_lang_chain.Json.{Json, str, field, end}
use lean_lang_chain.Policy.Events.{ProtocolEvent, EventKind}
use lean_lang_chain.Protocol.{validate_single_owner}
use lean_lang_chain.Protocol.Owners.{IsHanded, validate_single_owner-accepted_iff}

abbrev show_text : Json → String
show_text (str s) = s
show_text _ = "None"

-- `from` hands the task to `to`
abbrev handed : String → String → ProtocolEvent
handed from to = record {
  event_id = "e";
  kind = EventKind.delegate;
  actor = record { agent_id = from; role = "prover" };
  task = record { task_id = "t1"; task_class = "proof" };
  payload = field "to_agent_id" (str to) end;
  prior_event_ids = [];
}

accepted_test : validate_single_owner show_text (handed "a" "b" ∷ handed "b" "c" ∷ []) ≡ (true, [])
unfolding validate_single_owner
accepted_test = refl

refused_test :
    validate_single_owner show_text (handed "a" "b" ∷ handed "a" "c" ∷ [])
    ≡ (false, "multiple_active_owners" ∷ [])
unfolding validate_single_owner
refused_test = refl

validate_single_owner-accepted_iff_example :
    (validate_single_owner show_text (handed "a" "b" ∷ handed "b" "c" ∷ []) ≡ (true, []))
    ↔ IsHanded show_text (handed "a" "b" ∷ handed "b" "c" ∷ [])
validate_single_owner-accepted_iff_example =
    validate_single_owner-accepted_iff show_text (handed "a" "b" ∷ handed "b" "c" ∷ [])
