-- ===== src/Protocol/Owners.antt =====
-- Which lists of events the check of single ownership accepts, told without its dictionary.
use lean_lang_chain.Common.{
  String, ◌≡◌, refl, ap, sym, subst, Bool, true, false, not, ◌&&◌, Option, none, some, List, [],
  ◌∷◌, ◌++◌, ◌==◌, ◌↔◌, if◌then◌else◌, is_empty, arith, eq_iff, Bool-cases, inl, inr,
}
use lean_lang_chain.Json.{Json, get}
use lean_lang_chain.Policy.Events.{ProtocolEvent}
use lean_lang_chain.Gateway.Map.{lookup, lookup-store}
use lean_lang_chain.Protocol.{
  is_delegate, is_disputed, take_over, single_owner_reasons, validate_single_owner,
}

module _ (show : Json → String) where
  -- whom the delegate event names
  abbrev pub delegate_of : ProtocolEvent → String
  delegate_of event = show (get "to_agent_id" event.payload)

  abbrev pub hands_over : String → ProtocolEvent → Bool
  hands_over task event = is_delegate event.kind && event.task.task_id == task

  -- whom the last delegate event of the task names, or who owned it before
  unfoldable pub owner_after : Option String → String → List ProtocolEvent → Option String
  owner_after before task [] = before
  owner_after before task (event ∷ events) =
      owner_after (if hands_over task event then some (delegate_of event) else before) task events

  -- each delegate event comes from the agent that the last delegate event of its task named
  abbrev Handed : List (String × String) → List ProtocolEvent → Type 0
  Handed owners events =
      (pre : List ProtocolEvent) (event : ProtocolEvent) (post : List ProtocolEvent)
      (owner : String)
      → events ≡ pre ++ event ∷ post
      → is_delegate event.kind ≡ true
      → owner_after (lookup event.task.task_id owners) event.task.task_id pre ≡ some owner
      → owner ≡ event.actor.agent_id

  lookup-take_over :
      (owners : List (String × String)) (event : ProtocolEvent) (task : String)
      → lookup task (take_over show owners event)
        ≡ (if hands_over task event then some (delegate_of event) else lookup task owners)
  unfolding take_over
  lookup-take_over owners event task = ground (
    arith,
    eq_iff event.task.task_id task,
    lookup-store event.task.task_id task (delegate_of event) owners,
  )

  undisputed :
      (owners : List (String × String)) (event : ProtocolEvent) (owner : String)
      → is_disputed owners event ≡ false
      → lookup event.task.task_id owners ≡ some owner
      → owner ≡ event.actor.agent_id
  unfolding is_disputed
  undisputed owners event owner h named = ground (arith, eq_iff owner event.actor.agent_id)

  IsAgent-free :
      (before : Option String) (agent : String)
      → ((owner : String) → before ≡ some owner → owner ≡ agent)
      → elim before [ none ↦ false | some owner ↦ not (owner == agent) ] ≡ false
  IsAgent-free none agent h = refl
  IsAgent-free (some x) agent h = ground (arith, eq_iff x agent, h x refl)

  Handed-tail :
      (owners : List (String × String)) (event : ProtocolEvent) (events : List ProtocolEvent)
      → Handed owners (event ∷ events)
      → Handed (take_over show owners event) events
  unfolding owner_after
  Handed-tail owners event events h pre e post owner eq d named =
      h (event ∷ pre) e post owner (ap (λ l. event ∷ l) eq) d
        (rw (sym (lookup-take_over owners event e.task.task_id)) named)

  same_head : (x y : ProtocolEvent) (xs ys : List ProtocolEvent) → x ∷ xs ≡ y ∷ ys → y ≡ x
  same_head x y xs ys eq = cc

  Handed-cons :
      (owners : List (String × String)) (event : ProtocolEvent) (events : List ProtocolEvent)
      → (is_delegate event.kind ≡ true → is_disputed owners event ≡ false)
      → Handed (take_over show owners event) events
      → Handed owners (event ∷ events)
  unfolding owner_after
  Handed-cons owners event events first rest [] e post owner eq d named =
      cc (undisputed owners e owner (cc (first (cc))) named)
  Handed-cons owners event events first rest (x ∷ pre) e post owner eq d named =
      rest pre e post owner (cc) d (
        rw (lookup-take_over owners event e.task.task_id) (
          subst
            (λ y. owner_after (lookup e.task.task_id owners) e.task.task_id (y ∷ pre) ≡ some owner)
            (same_head event x events (pre ++ e ∷ post) eq) named))

  Handed-free :
      (owners : List (String × String)) (event : ProtocolEvent) (events : List ProtocolEvent)
      → Handed owners (event ∷ events)
      → is_delegate event.kind && is_disputed owners event ≡ false
  unfolding is_disputed owner_after
  Handed-free owners event events h = elim (Bool-cases (is_delegate event.kind)) [
    | inl t ↦ rw t (
        IsAgent-free (lookup event.task.task_id owners) event.actor.agent_id
          (λ owner named. h [] event events owner refl t named))
    | inr f ↦ rw f refl
  ]

  Handed-reasons :
      (owners : List (String × String)) (events : List ProtocolEvent)
      → Handed owners events
      → single_owner_reasons show owners events ≡ []
  unfolding single_owner_reasons
  Handed-reasons owners [] h = refl
  Handed-reasons owners (event ∷ events) h =
      rw (Handed-free owners event events h)
        (Handed-reasons (take_over show owners event) events (Handed-tail owners event events h))

  Handed-nil : (owners : List (String × String)) → Handed owners []
  Handed-nil owners [] e post owner eq d named = cc
  Handed-nil owners (x ∷ pre) e post owner eq d named = cc

  kept_empty :
      (b : Bool) (x : String) (xs : List String)
      → is_empty (if b then x ∷ xs else xs) ≡ true
      → (b ≡ false) × (is_empty xs ≡ true)
  kept_empty true x xs h = cc
  kept_empty false x xs h = (refl, h)

  reasons-Handed :
      (owners : List (String × String)) (events : List ProtocolEvent)
      → is_empty (single_owner_reasons show owners events) ≡ true
      → Handed owners events
  unfolding single_owner_reasons
  reasons-Handed owners [] h = Handed-nil owners
  reasons-Handed owners (event ∷ events) h =
      let kept =
        kept_empty (is_delegate event.kind && is_disputed owners event) "multiple_active_owners"
          (single_owner_reasons show (take_over show owners event) events) h in
      Handed-cons owners event events (λ d. ground (arith, kept.0))
        (reasons-Handed (take_over show owners event) events kept.1)

  -- whenever a delegate event follows an earlier one of its task, it comes from the agent that the
  -- last such event names
  abbrev pub IsHanded : List ProtocolEvent → Type 0
  IsHanded events =
      (pre : List ProtocolEvent) (event : ProtocolEvent) (post : List ProtocolEvent)
      (owner : String)
      → events ≡ pre ++ event ∷ post
      → is_delegate event.kind ≡ true
      → owner_after none event.task.task_id pre ≡ some owner
      → owner ≡ event.actor.agent_id

  -- The check of single ownership accepts a list of events, without a reason, exactly when each
  -- delegate event that follows an earlier one of its task comes from the agent that the last such
  -- event names.
  pub validate_single_owner-accepted_iff :
      (events : List ProtocolEvent)
      → (validate_single_owner show events ≡ (true, [])) ↔ IsHanded events
  unfolding validate_single_owner lookup
  validate_single_owner-accepted_iff events =
      (λ h. reasons-Handed [] events (ap (λ r. r.0) h), λ h. rw (Handed-reasons [] events h) refl)
