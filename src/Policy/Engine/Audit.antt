-- ===== src/Policy/Engine/Audit.antt =====
-- The audit trail: what every stage of the engine returns.
use lean_lang_chain.Common.{
  ◌⊎◌, inl, inr, refl, subst, sym, ok-injective, ℕ, String, ◌≢◌, Bool, true, false, not, ◌&&◌,
  Option, none, some, List, [], ◌∷◌, any, Exc, Result, ok, raise, ◌>>=◌, if◌then◌else◌, ◌≡◌,
}
use lean_lang_chain.Json.{
  truthy, dict_get, dict_get_or, nil, str, bool, end, is_str, Json, Fields, obj, arr, get_or, get,
}
use lean_lang_chain.Policy.Decision.{
  Decision, Trust, RuleEffect, PolicyDecision, PolicyResolvedRule,
}
use lean_lang_chain.Policy.Pack.{PolicyPack, TrustGateRule, PathRule}
use lean_lang_chain.Policy.Engine.{
  accepted_by, evaluate, patch_stage, normalized, gate_matches, path_matches, decide, review,
  iterate, any_error, as_texts, failed_reasons, interactive_errors, diagnostics_stage,
  interactive_stage, batch_dict_stage, batch_stage, batch_value_stage, batch_failed, axiom_blocked,
  trust_stage, trust_gates_stage, path_rules_stage,
}

-- the effect that a rule records for a decision
abbrev pub effect_of : Decision → RuleEffect
effect_of Decision.accepted = RuleEffect.accepted
effect_of Decision.rejected = RuleEffect.rejected
effect_of Decision.blocked = RuleEffect.blocked
effect_of Decision.needs_review = RuleEffect.needs_review
effect_of _ = RuleEffect.none

module _ (pack : PolicyPack) where
  -- a decision other than acceptance, with its rule
  pub data Turned : PolicyDecision → Type 0 where
    turned :
        (d : Decision) (t : Trust) (rs : List String) (rule_id code : String)
        → d ≢ Decision.accepted
        → Turned (decide pack d t rs rule_id (effect_of d) code)

  -- a stage goes on, turns the patch down, or raises
  pub data Outcome : Result (Option PolicyDecision) → Type 0 where
    goes_on : Outcome (ok none)
    turns : {d : PolicyDecision} → Turned d → Outcome (ok (some d))
    raises : (e : Exc) → Outcome (raise e)

module _ {pack : PolicyPack} where
  Outcome-if :
      (b : Bool) (v w : Result (Option PolicyDecision))
      → Outcome pack v
      → Outcome pack w
      → Outcome pack (if b then v else w)
  Outcome-if true v w p q = p
  Outcome-if false v w p q = q

  Outcome-ok_if :
      (b : Bool) (d : PolicyDecision) (o : Option PolicyDecision)
      → Turned pack d
      → Outcome pack (ok o)
      → Outcome pack (ok (if b then some d else o))
  Outcome-ok_if true d o p q = turns p
  Outcome-ok_if false d o p q = q

  Outcome-bind {ℓ} :
      {A : Type ℓ} (m : Result A) (f : A → Result (Option PolicyDecision))
      → ((a : A) → Outcome pack (f a))
      → Outcome pack (m >>= f)
  Outcome-bind (ok a) f h = h a
  Outcome-bind (raise e) f h = raises e

rejected-ne : Decision.rejected ≢ Decision.accepted
rejected-ne = λ e. cc

blocked-ne : Decision.blocked ≢ Decision.accepted
blocked-ne = λ e. cc

review-ne : Decision.needs_review ≢ Decision.accepted
review-ne = λ e. cc

review-Turned :
    (pack : PolicyPack) (t : Trust) (id code : String) → Turned pack (review pack t id code)
unfolding review
review-Turned pack t id code = turned Decision.needs_review t (code ∷ []) id code review-ne

module _ (pack : PolicyPack) where
  interactive_stage-Outcome : (ir : Json) → Outcome pack (interactive_stage ir pack)
  unfolding interactive_stage diagnostics_stage interactive_errors
  interactive_stage-Outcome ir = Outcome-if (not (truthy ir)) _ _ goes_on (
      Outcome-bind (dict_get ir "diagnostics") _ λ j. Outcome-if (not (truthy j)) _ _ goes_on (
        Outcome-bind (iterate j) _ λ ds. Outcome-bind (any_error ds) _ λ b.
          Outcome-ok_if b (interactive_errors pack) none
            (turned Decision.rejected Trust.blocked _ _ _ rejected-ne) goes_on))

  gates-Outcome :
      (tgs : List TrustGateRule) (tl : Json) (files : List (List ℕ))
      → Outcome pack (ok (trust_gates_stage tgs tl files pack))
  unfolding trust_gates_stage
  gates-Outcome [] tl files = goes_on
  gates-Outcome (tg ∷ tgs) tl files =
      Outcome-ok_if (gate_matches tg tl files && tg.require_human) _ _ (review-Turned pack _ _ _)
        (gates-Outcome tgs tl files)

  rules-Outcome :
      (rules : List PathRule) (files : List (List ℕ))
      → Outcome pack (ok (path_rules_stage rules files pack))
  unfolding path_rules_stage
  rules-Outcome [] files = goes_on
  rules-Outcome (r ∷ rules) files =
      Outcome-ok_if (any (path_matches r.glob) files && r.require_human) _ _
        (review-Turned pack _ _ _) (rules-Outcome rules files)

  batch_dict_stage-Outcome :
      (b : Fields) (files : List (List ℕ)) → Outcome pack (batch_dict_stage b files pack)
  unfolding batch_dict_stage batch_failed axiom_blocked trust_stage
  batch_dict_stage-Outcome b files =
      let tl = get_or "trust_level" (str "clean") b in
      Outcome-if (not (truthy (get_or "ok" (bool false) b))) _ _
        (Outcome-bind (failed_reasons b) _
          λ rs. turns (turned Decision.rejected Trust.blocked rs _ _ rejected-ne))
        (Outcome-bind (dict_get_or (get_or "axiom_audit" (obj end) b) "blocked_reasons" (arr nil)) _
          λ j.
            Outcome-if (truthy j) _ _
              (Outcome-bind (iterate j) _ λ js.
                Outcome-bind (as_texts js) _
                  λ rs. turns (turned Decision.blocked Trust.blocked rs _ _ blocked-ne))
              (Outcome-ok_if (is_str "warning" tl && not pack.allow_trust_compiler) _ _
                (review-Turned pack _ _ _) (gates-Outcome pack.trust_gates tl files)))

  batch_value_stage-Outcome :
      (j : Json) (files : List (List ℕ)) → Outcome pack (batch_value_stage j files pack)
  unfolding batch_value_stage
  batch_value_stage-Outcome (obj b) files = batch_dict_stage-Outcome b files
  batch_value_stage-Outcome _ files = raises Exc.attribute_error

  pub batch_stage-Outcome :
      (j : Json) (files : List (List ℕ)) → Outcome pack (batch_stage j files pack)
  unfolding batch_stage
  batch_stage-Outcome j files =
      Outcome-if (not (truthy j)) _ _ goes_on (batch_value_stage-Outcome j files)

  -- a decision in the end: the patch is turned down, or accepted
  abbrev pub Final : PolicyDecision → Type 0
  Final d = Turned pack d ⊎ (d ≡ accepted_by pack)

  Final-if : (b : Bool) (d e : PolicyDecision) → Final d → Final e → Final (if b then d else e)
  Final-if true d e p q = p
  Final-if false d e p q = q

  patch_stage-Final : (meta : Fields) (files : List (List ℕ)) → Final (patch_stage meta files pack)
  unfolding patch_stage
  patch_stage-Final meta files =
      Final-if (truthy (get "trust_delta" meta) && pack.require_human_on_trust_delta) _ _
        (inl (review-Turned pack _ _ _))
        (go (path_rules_stage pack.path_rules files pack) (rules-Outcome pack.path_rules files))
    where
      last : PolicyDecision
      last =
          if truthy (get "protected_paths_touched" meta)
          then review pack Trust.clean "protected_paths" "protected_path_touched"
          else if truthy (get "imports_changed" meta) && pack.require_human_if_imports_change
          then review pack Trust.clean "imports_changed" "imports_changed_requires_review"
          else accepted_by pack

      last-Final : Final last
      last-Final =
          Final-if (truthy (get "protected_paths_touched" meta)) _ _
            (inl (review-Turned pack _ _ _))
            (Final-if (truthy (get "imports_changed" meta) && pack.require_human_if_imports_change)
              _ _ (inl (review-Turned pack _ _ _)) (inr refl))

      turned_by :
          (o : Option PolicyDecision)
          → Outcome pack (ok o)
          → Final (elim o [ some d ↦ d | none ↦ last ])
      turned_by none h = last-Final
      turned_by (some d) (turns t) = inl t

      go :
          (o : Option PolicyDecision)
          → Outcome pack (ok o)
          → Final (elim o [ some d ↦ d | none ↦ last ])
      go = turned_by

  -- every decision of the engine turns the patch down by a rule, or accepts it
  pub evaluate-Final :
      (ir br : Json) (meta : Fields) (d : PolicyDecision)
      → evaluate ir br meta pack ≡ ok d
      → Final d
  unfolding evaluate
  evaluate-Final ir br meta d h =
      on_interactive (interactive_stage ir pack) (interactive_stage-Outcome ir) h
    where
      on_batch :
          (m : Result (Option PolicyDecision))
          → Outcome pack m
          → (m >>= λ o. elim o [
            | some d ↦ ok d
            | none ↦ ok (patch_stage meta (normalized meta) pack)
          ])
            ≡ ok d
          → Final d
      on_batch m (goes_on) e =
          subst Final (ok-injective e) (patch_stage-Final meta (normalized meta))
      on_batch m (turns t) e = inl (subst (Turned pack) (ok-injective e) t)
      on_batch m (raises x) e = cc

      on_interactive :
          (m : Result (Option PolicyDecision))
          → Outcome pack m
          → (m >>= λ o. elim o [
            | some d ↦ ok d
            | none ↦ batch_stage br (normalized meta) pack >>= λ o. elim o [
              | some d ↦ ok d
              | none ↦ ok (patch_stage meta (normalized meta) pack)
            ]
          ])
            ≡ ok d
          → Final d
      on_interactive m (goes_on) e =
          on_batch (batch_stage br (normalized meta) pack)
            (batch_stage-Outcome br (normalized meta)) e
      on_interactive m (turns t) e = inl (subst (Turned pack) (ok-injective e) t)
      on_interactive m (raises x) e = cc

-- one matched rule of the pack, with the effect of the decision, and the pack's name and version
pub record IsAudited (pack : PolicyPack) (d : PolicyDecision) : Type 0 where
  pub pack_name : d.policy_pack_name ≡ pack.name
  pub pack_version : d.policy_pack_version ≡ pack.version
  pub rule : PolicyResolvedRule
  pub only_rule : d.resolved_rules ≡ rule ∷ []
  pub rule_pack : rule.source_pack ≡ pack.name
  pub rule_matched : rule.matched ≡ true
  pub rule_effect : rule.effect ≡ effect_of d.decision

decide-IsAudited :
    (pack : PolicyPack) (d : Decision) (t : Trust) (rs : List String) (rule_id code : String)
    → IsAudited pack (decide pack d t rs rule_id (effect_of d) code)
unfolding decide
decide-IsAudited pack d t rs rule_id code = record {
  pack_name = refl;
  pack_version = refl;
  rule = record {
    rule_id = rule_id;
    source_pack = pack.name;
    matched = true;
    effect = effect_of d;
    reason_code = code;
  };
  only_rule = refl;
  rule_pack = refl;
  rule_matched = refl;
  rule_effect = refl;
}

-- Whatever the evidence, a decision of the engine names the pack and its version, and records just
-- one rule, a matched rule of that pack whose effect is the decision.
pub evaluate-IsAudited :
    (ir br : Json) (meta : Fields) (pack : PolicyPack) (d : PolicyDecision)
    → evaluate ir br meta pack ≡ ok d
    → IsAudited pack d
evaluate-IsAudited ir br meta pack d h = go d (evaluate-Final pack ir br meta d h)
  where
    go : (d : PolicyDecision) → Final pack d → IsAudited pack d
    go d (inl (turned x t rs id code ne)) = decide-IsAudited pack x t rs id code
    go d (inr e) =
        subst (IsAudited pack) (sym e)
          (decide-IsAudited pack Decision.accepted Trust.clean [] "accept" "accepted")
