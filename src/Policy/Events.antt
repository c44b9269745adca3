-- ===== src/Policy/Events.antt =====
-- packages/protocol/lean_langchain_protocol/models.py, and the normalisation of events at the head
-- of packages/policy/lean_langchain_policy/protocol_evaluator.py.
pub mod Typed
use lean_lang_chain.Common.{false, refl, ◌≡◌, String, Bool, List, [], ◌∷◌}
use lean_lang_chain.Json.{
  truthy, Json, Fields, Items, str, arr, obj, nil, cons, end, field, get, set, is_str, or_dict,
  dict_get?,
}

pub record AgentRef : Type 0 where
  pub agent_id : String
  pub role : String

pub record TaskRef : Type 0 where
  pub task_id : String
  pub task_class : String

pub data EventKind : Type 0 where
  claim delegate approve reject lock release execute recover : EventKind

abbrev pub kind_text : EventKind → String
kind_text EventKind.claim = "claim"
kind_text EventKind.delegate = "delegate"
kind_text EventKind.approve = "approve"
kind_text EventKind.reject = "reject"
kind_text EventKind.lock = "lock"
kind_text EventKind.release = "release"
kind_text EventKind.execute = "execute"
kind_text EventKind.recover = "recover"

pub record ProtocolEvent : Type 0 where
  pub event_id : String
  pub kind : EventKind
  pub actor : AgentRef
  pub task : TaskRef
  pub payload : Fields
  pub prior_event_ids : List String

unfoldable pub texts : List String → Items
texts [] = nil
texts (s ∷ ss) = cons (str s) (texts ss)

-- `ev.model_dump(mode="json")`
unfoldable pub event_dump : ProtocolEvent → Fields
unfolding texts
event_dump ev = field "event_id" (str ev.event_id) (
    field "kind" (str (kind_text ev.kind)) (
      field "actor"
        (obj (field "agent_id" (str ev.actor.agent_id) (field "role" (str ev.actor.role) end)))
        (field "task"
          (obj (
            field "task_id" (str ev.task.task_id)
              (field "task_class" (str ev.task.task_class) end)))
          (field "payload" (obj ev.payload)
            (field "prior_event_ids" (arr (texts ev.prior_event_ids)) end)))))

-- what the list of events may hold: a dictionary, a model, or anything else
pub data RawEvent : Type 0 where
  dict : Fields → RawEvent
  model : ProtocolEvent → RawEvent
  other : RawEvent

unfoldable pub event_to_dict : RawEvent → Fields
unfolding event_dump
event_to_dict (dict d) = d
event_to_dict (model ev) = event_dump ev
event_to_dict other = end

-- a value that is no dictionary is replaced by the empty one
abbrev pub as_dict : Json → Json
as_dict (obj fs) = obj fs
as_dict _ = obj end

unfoldable pub normalize_event : Fields → Fields
normalize_event d = set "task" (as_dict (get "task" d)) (set "actor" (as_dict (get "actor" d)) d)

abbrev pub keep_event : Fields → List Fields → List Fields
keep_event end out = out
keep_event d out = normalize_event d ∷ out

unfoldable pub validate_events : List RawEvent → List Fields
unfolding event_to_dict normalize_event
validate_events [] = []
validate_events (ev ∷ evs) = keep_event (event_to_dict ev) (validate_events evs)

-- what an evaluator reads of a normalised event
abbrev pub is_kind : String → Fields → Bool
is_kind k ev = is_str k (get "kind" ev)

unfoldable pub agent_id : Fields → Json
unfolding or_dict dict_get?
agent_id ev = dict_get? (or_dict (get "actor" ev)) "agent_id"

unfoldable pub task_id : Fields → Json
unfolding or_dict dict_get?
task_id ev = dict_get? (or_dict (get "task" ev)) "task_id"

-- A list of texts that is falsy is empty.
pub texts-empty : (ss : List String) → truthy (arr (texts ss)) ≡ false → ss ≡ []
unfolding truthy texts
texts-empty [] h = refl
texts-empty (s ∷ ss) h = cc
