-- ===== src/Policy/Protocol/Ownership.antt =====
-- Handoffs, delegations and locks: which event lists their evaluators accept.
use lean_lang_chain.Common.{
  ◌≡◌, refl, ◌↔◌, Bool, true, not, ◌&&◌, ◌||◌, List, ok, arith, if◌then◌else◌,
}
use lean_lang_chain.Json.{Json, Fields, null, get, is_null}
use lean_lang_chain.Json.Laws.{is_str-ne}
use lean_lang_chain.Json.Equality.{py_eq}
use lean_lang_chain.Policy.Pack.{PolicyPack}
use lean_lang_chain.Policy.Events.{RawEvent, validate_events, is_kind, agent_id, task_id}
use lean_lang_chain.Policy.Protocol.{
  accept, handoff_step, evaluate_handoff_legality, Claim, no_claim, delegation_step,
  evaluate_delegation_admissibility, lock_step, evaluate_lock_ownership_invariant,
}
use lean_lang_chain.Policy.Protocol.Scan.{Guards, EachGood, scan-accepted_iff}

-- a delegate needs a claim before it, and the claim's agent
abbrev pub may_hand_off : Json → Fields → Bool
may_hand_off owner ev =
    not (is_kind "delegate" ev) || not (is_null owner) && py_eq (agent_id ev) owner

-- the agent of the last claim
abbrev pub claimant : Json → Fields → Json
claimant owner ev = if is_kind "claim" ev then agent_id ev else owner

handoff_step-Guards : Guards handoff_step may_hand_off claimant
unfolding handoff_step
handoff_step-Guards = record {
  passes = λ s ev h. ground (arith, is_str-ne "claim" "delegate" refl (get "kind" ev));
  refuses = λ s ev h. ground (arith, is_str-ne "claim" "delegate" refl (get "kind" ev));
}

-- Under single-owner handoff, a list of events is accepted exactly when each delegate event comes
-- from the agent of the last claim before it, that agent being known.
pub handoff-accepted_iff :
    (events : List RawEvent) (pack : PolicyPack)
    → pack.single_owner_handoff ≡ true
    → (evaluate_handoff_legality events pack ≡ ok accept)
      ↔ EachGood may_hand_off claimant null (validate_events events)
unfolding evaluate_handoff_legality
handoff-accepted_iff events pack on =
    rw on (scan-accepted_iff handoff_step-Guards null (validate_events events))

-- a delegate event needs the claim's agent, and where both name a task, the claim's task
abbrev pub may_delegate : Claim → Fields → Bool
may_delegate c ev =
    not (is_kind "delegate" ev)
    || not (is_null c.owner)
      && py_eq (agent_id ev) c.owner
      && (is_null c.task || is_null (task_id ev) || py_eq (task_id ev) c.task)

abbrev pub last_claim : Claim → Fields → Claim
last_claim c ev =
    if is_kind "claim" ev then record { owner = agent_id ev; task = task_id ev } else c

delegation_step-Guards : Guards delegation_step may_delegate last_claim
unfolding delegation_step
delegation_step-Guards = record {
  passes = λ s ev h. ground (arith, is_str-ne "claim" "delegate" refl (get "kind" ev));
  refuses = λ s ev h. ground (arith, is_str-ne "claim" "delegate" refl (get "kind" ev));
}

-- Under delegation admissibility, a list of events is accepted exactly when each delegate event
-- comes from the known agent of the last claim before it, and names the same task as that claim
-- or one of the two names none.
pub delegation-accepted_iff :
    (events : List RawEvent) (pack : PolicyPack)
    → pack.delegation_admissibility ≡ true
    → (evaluate_delegation_admissibility events pack ≡ ok accept)
      ↔ EachGood may_delegate last_claim no_claim (validate_events events)
unfolding evaluate_delegation_admissibility
delegation-accepted_iff events pack on =
    rw on (scan-accepted_iff delegation_step-Guards no_claim (validate_events events))

-- a lock is taken where it is free or the agent's own, and released by its holder
abbrev pub keeps_lock : Json → Fields → Bool
keeps_lock holder ev =
    (not (is_kind "lock" ev) || is_null holder || py_eq holder (agent_id ev))
    && (not (is_kind "release" ev) || not (is_null holder) && py_eq (agent_id ev) holder)

abbrev pub holder_after : Json → Fields → Json
holder_after holder ev =
    if is_kind "lock" ev then agent_id ev else if is_kind "release" ev then null else holder

lock_step-Guards : Guards lock_step keeps_lock holder_after
unfolding lock_step
lock_step-Guards = record {
  passes = λ s ev h. ground (arith, is_str-ne "lock" "release" refl (get "kind" ev));
  refuses = λ s ev h. ground (arith, is_str-ne "lock" "release" refl (get "kind" ev));
}

-- Under lock ownership, a list of events is accepted exactly when no event locks what another
-- agent holds, and each release comes from the present holder.
pub lock-accepted_iff :
    (events : List RawEvent) (pack : PolicyPack)
    → pack.lock_ownership_invariant ≡ true
    → (evaluate_lock_ownership_invariant events pack ≡ ok accept)
      ↔ EachGood keeps_lock holder_after null (validate_events events)
unfolding evaluate_lock_ownership_invariant
lock-accepted_iff events pack on =
    rw on (scan-accepted_iff lock_step-Guards null (validate_events events))
