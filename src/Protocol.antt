-- ===== src/Protocol.antt =====
-- packages/protocol/lean_langchain_protocol/validators.py. `show` is Python's `str` on a JSON value.
pub mod Owners
use lean_lang_chain.Common.{
  String, Bool, true, false, not, ◌&&◌, Option, none, some, List, [], ◌∷◌, ◌==◌, if◌then◌else◌,
  is_empty,
}
use lean_lang_chain.Json.{Json, get, get_or}
use lean_lang_chain.Policy.Events.{ProtocolEvent, EventKind}
use lean_lang_chain.Gateway.Map.{lookup, store}

unfoldable pub is_delegate : EventKind → Bool
is_delegate EventKind.delegate = true
is_delegate _ = false

-- `task_id in owners and owners[task_id] != event.actor.agent_id`
unfoldable pub is_disputed : List (String × String) → ProtocolEvent → Bool
unfolding lookup
is_disputed owners event = elim (lookup event.task.task_id owners) [
  | none ↦ false
  | some owner ↦ not (owner == event.actor.agent_id)
]

module _ (show : Json → String) where
  -- `owners` after the event
  unfoldable pub take_over : List (String × String) → ProtocolEvent → List (String × String)
  unfolding is_delegate store get_or
  take_over owners event =
      if is_delegate event.kind
      then store event.task.task_id (show (get "to_agent_id" event.payload)) owners
      else owners

  -- the loop: `owners` before it, and the reasons that it appends
  unfoldable pub single_owner_reasons : List (String × String) → List ProtocolEvent → List String
  unfolding is_delegate is_disputed take_over
  single_owner_reasons owners [] = []
  single_owner_reasons owners (event ∷ events) =
      let rest = single_owner_reasons (take_over owners event) events in
      if is_delegate event.kind && is_disputed owners event
      then "multiple_active_owners" ∷ rest
      else rest

  unfoldable pub validate_single_owner : List ProtocolEvent → Bool × List String
  unfolding single_owner_reasons
  validate_single_owner events =
      let reasons = single_owner_reasons [] events in (is_empty reasons, reasons)
