-- ===== src/Policy/Protocol/Approval.antt =====
-- Approvals, artifacts and evidence: which event lists their evaluators accept.
use lean_lang_chain.Common.{
  String, ◌≡◌, refl, ◌↔◌, ◌∙◌, Bool, true, false, not, ◌&&◌, ◌||◌, List, [], ◌∷◌, ◌++◌, Exc, ok,
  raise, arith, if◌then◌else◌, any, Bool-cases, inl, inr,
}
use lean_lang_chain.Json.{Json, Fields, null, get, is_str, is_hashable, is_dict}
use lean_lang_chain.Policy.Decision.{
  reason_missing_approval_token, reason_evidence_incomplete, reason_invalid_state_transition,
}
use lean_lang_chain.Policy.Pack.{PolicyPack}
use lean_lang_chain.Policy.Events.{RawEvent, validate_events, is_kind}
use lean_lang_chain.Policy.Protocol.{
  next, stop, throw, accept, block, scan, is_effect, approval_step,
  evaluate_state_transition_preservation, evaluate_side_effect_authorization, reviewer_step,
  evaluate_reviewer_gated, has_artifact, artifact_step, evaluate_artifact_admissibility, payload,
  evidence_complete, evidence_step, evaluate_evidence_complete_execution_token,
}
use lean_lang_chain.Policy.Protocol.Scan.{
  Guards, EachGood, scan-accepted_iff, scan-next, scan-stop, scan-throw,
}

abbrev pub is_authorized : Bool → Fields → Bool
is_authorized seen ev = not (is_effect ev) || seen

abbrev pub seen_after : Bool → Fields → Bool
seen_after seen ev = seen || is_kind "approve" ev

approval_step-Guards : (reason : String) → Guards (approval_step reason) is_authorized seen_after
unfolding approval_step
approval_step-Guards reason = record {
  passes = λ s ev h. ground (arith);
  refuses = λ s ev h. ground (arith);
}

-- Under side-effect authorization, a list of events is accepted exactly when an approve event
-- stands before each execute and each recover event.
pub side_effect-accepted_iff :
    (events : List RawEvent) (pack : PolicyPack)
    → pack.side_effect_authorization ≡ true
    → (evaluate_side_effect_authorization events pack ≡ ok accept)
      ↔ EachGood is_authorized seen_after false (validate_events events)
unfolding evaluate_side_effect_authorization
side_effect-accepted_iff events pack on =
    rw on (scan-accepted_iff (approval_step-Guards _) false (validate_events events))

-- A pack with both flags gets the same acceptance from state-transition preservation.
pub transition-accepted_iff :
    (events : List RawEvent) (pack : PolicyPack)
    → pack.state_transition_preservation ≡ true
    → pack.side_effect_authorization ≡ true
    → (evaluate_state_transition_preservation events pack ≡ ok accept)
      ↔ (evaluate_side_effect_authorization events pack ≡ ok accept)
unfolding evaluate_state_transition_preservation
transition-accepted_iff events pack on on' = simp on (λ h. b.1 (a.0 h), λ h. a.1 (b.0 h))
  where
    a :
        (scan (approval_step reason_invalid_state_transition) accept false (validate_events events)
          ≡ ok accept)
        ↔ EachGood is_authorized seen_after false (validate_events events)
    a =
        scan-accepted_iff (approval_step-Guards reason_invalid_state_transition) false
          (validate_events events)

    b :
        (evaluate_side_effect_authorization events pack ≡ ok accept)
        ↔ EachGood is_authorized seen_after false (validate_events events)
    b = side_effect-accepted_iff events pack on'

reviewer-scan :
    (evs : List Fields)
    → scan reviewer_step (block reason_missing_approval_token) tt evs
      ≡ ok (if any (is_kind "approve") evs then accept else block reason_missing_approval_token)
unfolding scan reviewer_step
reviewer-scan [] = refl
reviewer-scan (ev ∷ evs) = elim (Bool-cases (is_kind "approve" ev)) [
  | inl t ↦ rw (t, scan)
  | inr f ↦ rw (f, scan) (reviewer-scan evs)
]

-- Under reviewer-gated execution the answer is acceptance where some event approves, and the block
-- for a missing approval token where none does.
pub reviewer_gated_lem :
    (events : List RawEvent) (pack : PolicyPack)
    → pack.reviewer_gated_execution ≡ true
    → evaluate_reviewer_gated events pack
      ≡ ok (
          if any (is_kind "approve") (validate_events events)
          then accept
          else block reason_missing_approval_token)
unfolding evaluate_reviewer_gated
reviewer_gated_lem events pack on = rw on (reviewer-scan (validate_events events))

-- an event with artifacts approves or executes
abbrev pub may_carry : Unit {0} → Fields → Bool
may_carry s ev = not (has_artifact ev) || is_kind "approve" ev || is_kind "execute" ev

str_hashable : (k : String) (j : Json) → is_str k j ≡ true → is_hashable j ≡ true
str_hashable k null h = refl
str_hashable k j h = ground arith

artifact_step-Guards : Guards artifact_step may_carry (λ s ev. s)
unfolding artifact_step
artifact_step-Guards = record {
  passes = λ s ev h.
      ground
        (arith, str_hashable "approve" (get "kind" ev), str_hashable "execute" (get "kind" ev));
  refuses = λ s ev h. ground (arith);
}

-- Under artifact admissibility, a list of events is accepted exactly when each event with a
-- non-empty artifact payload approves or executes.
pub artifact-accepted_iff :
    (events : List RawEvent) (pack : PolicyPack)
    → pack.artifact_admissibility ≡ true
    → (evaluate_artifact_admissibility events pack ≡ ok accept)
      ↔ EachGood may_carry (λ s ev. s) tt (validate_events events)
unfolding evaluate_artifact_admissibility
artifact-accepted_iff events pack on =
    rw on (scan-accepted_iff artifact_step-Guards tt (validate_events events))

-- the payload says that the evidence is complete
abbrev pub shows_evidence : Fields → Bool
shows_evidence ev = is_dict (payload ev) && evidence_complete (payload ev)

-- an execute event whose payload is no dictionary
abbrev pub is_malformed : Fields → Bool
is_malformed ev = is_kind "execute" ev && not (is_dict (payload ev))

module _ (ev : Fields) where
  evidence_step-shows :
      is_malformed ev ≡ false → shows_evidence ev ≡ true → evidence_step tt ev ≡ stop accept
  unfolding evidence_step
  evidence_step-shows h e = ground arith

  evidence_step-silent :
      is_malformed ev ≡ false → shows_evidence ev ≡ false → evidence_step tt ev ≡ next tt
  unfolding evidence_step
  evidence_step-silent h e = ground arith

  evidence_step-malformed : is_malformed ev ≡ true → evidence_step tt ev ≡ throw Exc.attribute_error
  unfolding evidence_step
  evidence_step-malformed h = ground arith

evidence-scan :
    (evs : List Fields)
    → any is_malformed evs ≡ false
    → scan evidence_step (block reason_evidence_incomplete) tt evs
      ≡ ok (if any shows_evidence evs then accept else block reason_evidence_incomplete)
evidence-scan [] h = unfold scan in refl
evidence-scan (ev ∷ evs) h = elim (Bool-cases (shows_evidence ev)) [
  | inl t ↦
      simp t (scan-stop evidence_step _ tt ev evs accept (evidence_step-shows ev (ground arith) t))
  | inr f ↦ simp f (
      scan-next evidence_step _ tt tt ev evs (evidence_step-silent ev (ground arith) f)
      ∙ evidence-scan evs (ground arith))
]

-- Where no execute event has a payload that is no dictionary, the evidence token's answer is
-- acceptance if some payload says that the evidence is complete, and the block otherwise.
pub evidence_token_lem :
    (events : List RawEvent) (pack : PolicyPack)
    → pack.evidence_complete_execution_token ≡ true
    → any is_malformed (validate_events events) ≡ false
    → evaluate_evidence_complete_execution_token events pack
      ≡ ok (
          if any shows_evidence (validate_events events)
          then accept
          else block reason_evidence_incomplete)
unfolding evaluate_evidence_complete_execution_token
evidence_token_lem events pack on h = rw on (evidence-scan (validate_events events) h)

evidence-raise :
    (pre : List Fields) (ev : Fields) (post : List Fields)
    → any is_malformed pre ≡ false
    → any shows_evidence pre ≡ false
    → is_malformed ev ≡ true
    → scan evidence_step (block reason_evidence_incomplete) tt (pre ++ ev ∷ post)
      ≡ raise Exc.attribute_error
evidence-raise [] ev post h k m =
    scan-throw evidence_step _ tt ev post _ (evidence_step-malformed ev m)
evidence-raise (x ∷ pre) ev post h k m =
    scan-next evidence_step _ tt tt x (pre ++ ev ∷ post)
      (evidence_step-silent x (ground arith) (ground arith))
    ∙ evidence-raise pre ev post (ground arith) (ground arith) m

-- An execute event whose payload is a non-empty value but no dictionary makes the evidence token's
-- evaluator raise AttributeError, if no earlier event settles the answer.
pub evidence_token-raise :
    (events : List RawEvent) (pack : PolicyPack) (pre : List Fields) (ev : Fields)
    (post : List Fields)
    → pack.evidence_complete_execution_token ≡ true
    → validate_events events ≡ pre ++ ev ∷ post
    → any is_malformed pre ≡ false
    → any shows_evidence pre ≡ false
    → is_malformed ev ≡ true
    → evaluate_evidence_complete_execution_token events pack ≡ raise Exc.attribute_error
unfolding evaluate_evidence_complete_execution_token
evidence_token-raise events pack pre ev post on e h k m =
    simp (on, e) (evidence-raise pre ev post h k m)
