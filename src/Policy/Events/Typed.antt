-- ===== src/Policy/Events/Typed.antt =====
-- What the evaluators may rely on after the events are normalised.
use lean_lang_chain.Common.{
  String, true, List, [], ◌∷◌, ◌≡◌, refl, ap, sym, ◌∙◌, ◌==◌, map, Bool-cases, inl, inr,
}
use lean_lang_chain.Json.{Json, Fields, obj, end, field, get, get_or, set, is_dict, null}
use lean_lang_chain.Json.Laws.{get_or-set}
use lean_lang_chain.Policy.Events.{
  RawEvent, dict, as_dict, normalize_event, keep_event, event_to_dict, validate_events,
}

-- the actor and the task are dictionaries
abbrev pub IsEvent : Fields → Type 0
IsEvent ev = (is_dict (get "actor" ev) ≡ true) × (is_dict (get "task" ev) ≡ true)

abbrev pub AreEvents : List Fields → Type 0
AreEvents [] = Unit {0}
AreEvents (ev ∷ evs) = IsEvent ev × AreEvents evs

as_dict-IsDict : (j : Json) → is_dict (as_dict j) ≡ true
as_dict-IsDict (obj fs) = refl
as_dict-IsDict _ = refl

as_dict-fixed : (j : Json) → is_dict j ≡ true → as_dict j ≡ j
as_dict-fixed (obj fs) h = refl
as_dict-fixed _ h = cc

set-get : (k : String) (v : Json) (fs : Fields) → get k fs ≡ v → is_dict v ≡ true → set k v fs ≡ fs
unfolding set get_or
set-get k v end g h = absurd (cc)
set-get k v (field j w fs) g h = elim (Bool-cases (j == k)) [
  | inl e ↦ rw e (ap (λ x. field j x fs) (sym (rw e at g)))
  | inr e ↦ rw e (ap (λ x. field j w x) (set-get k v fs (rw e at g) h))
]

normalize_event-IsEvent : (d : Fields) → IsEvent (normalize_event d)
unfolding normalize_event
normalize_event-IsEvent d =
    let actor = as_dict (get "actor" d) in
    let task = as_dict (get "task" d) in
    (
      ap is_dict (
            get_or-set "task" "actor" null task (set "actor" actor d)
            ∙ get_or-set "actor" "actor" null actor d)
          ∙ as_dict-IsDict (get "actor" d),
      ap is_dict (get_or-set "task" "task" null task (set "actor" actor d))
          ∙ as_dict-IsDict (get "task" d),
    )

IsEvent-fixed : (ev : Fields) → IsEvent ev → normalize_event ev ≡ ev
unfolding normalize_event
IsEvent-fixed ev (a, t) =
    rw
      (
        as_dict-fixed (get "actor" ev) a,
        set-get "actor" (get "actor" ev) ev refl a,
        as_dict-fixed (get "task" ev) t,
        set-get "task" (get "task" ev) ev refl t,
      )
      refl

keep-IsEvent :
    (ev : Fields) (out : List Fields) → IsEvent ev → keep_event ev out ≡ normalize_event ev ∷ out
unfolding get_or
keep-IsEvent end out h = absurd cc
keep-IsEvent (field k v fs) out h = refl

keep-AreEvents : (d : Fields) (out : List Fields) → AreEvents out → AreEvents (keep_event d out)
keep-AreEvents end out h = h
keep-AreEvents (field k v fs) out h = (normalize_event-IsEvent (field k v fs), h)

validated-AreEvents : (events : List RawEvent) → AreEvents (validate_events events)
unfolding validate_events
validated-AreEvents [] = tt
validated-AreEvents (ev ∷ evs) =
    keep-AreEvents (event_to_dict ev) (validate_events evs) (validated-AreEvents evs)

AreEvents-fixed : (evs : List Fields) → AreEvents evs → validate_events (map dict evs) ≡ evs
unfolding validate_events event_to_dict
AreEvents-fixed [] h = refl
AreEvents-fixed (ev ∷ evs) (h, k) =
    rw (AreEvents-fixed evs k) (keep-IsEvent ev evs h ∙ ap (λ x. x ∷ evs) (IsEvent-fixed ev h))

-- Each event that is kept has a dictionary for its actor and one for its task, whatever was given, and
-- to normalise the kept events again changes nothing.
pub validate_events-AreEvents :
    (events : List RawEvent)
    → AreEvents (validate_events events)
      × (validate_events (map dict (validate_events events)) ≡ validate_events events)
validate_events-AreEvents events = (
  validated-AreEvents events,
  AreEvents-fixed (validate_events events) (validated-AreEvents events),
)
