-- ===== src/Policy/Engine/Stages.antt =====
-- The stages of the engine, each against the evidence that it reads.
use lean_lang_chain.Common.{
  Option-cases, inl, inr, ◌↔◌, ℕ, ◌≡◌, ◌≢◌, refl, Bool, true, false, not, ◌&&◌, ◌||◌, none, some,
  List, [], ◌∷◌, any, all, Result, ok, raise, ◌>>=◌, arith, if◌then◌else◌, is_some,
}
use lean_lang_chain.Json.{
  Json, Fields, null, bool, int, str, arr, obj, nil, cons, end, field, get, get_or, truthy, is_dict,
  is_str, to_list, dict_get_or,
}
use lean_lang_chain.Policy.Decision.{Decision, Trust, RuleEffect, PolicyDecision}
use lean_lang_chain.Policy.Pack.{PolicyPack, TrustGateRule, PathRule}
use lean_lang_chain.Policy.Engine.{
  accepted_by, as_texts, failed_reasons, decide, review, any_error, iterate, interactive_errors,
  diagnostics_stage, interactive_stage, batch_dict_stage, batch_failed, axiom_blocked, trust_stage,
  trust_gates_stage, gate_matches, path_matches, path_rules_stage, patch_stage,
}

abbrev pub items_of : Json → List Json
items_of (arr xs) = to_list xs
items_of _ = []

-- the diagnostics of a report
abbrev pub diagnostics : Json → List Json
diagnostics (obj fs) = items_of (get "diagnostics" fs)
diagnostics _ = []

abbrev pub is_error : Json → Bool
is_error (obj d) = is_str "error" (get "severity" d)
is_error _ = false

-- a report is None, or a dictionary whose diagnostics are None or a list of dictionaries
abbrev pub is_dicts : Json → Bool
is_dicts null = true
is_dicts (arr xs) = all is_dict (to_list xs)
is_dicts _ = false

abbrev pub is_report : Json → Bool
is_report null = true
is_report (obj fs) = is_dicts (get "diagnostics" fs)
is_report _ = false

pub any_error_lem : (ds : List Json) → all is_dict ds ≡ true → any_error ds ≡ ok (any is_error ds)
unfolding any_error
any_error_lem [] h = refl
any_error_lem (obj d ∷ ds) h = simp (any_error_lem ds h)
any_error_lem (null ∷ ds) h = cc
any_error_lem (bool b ∷ ds) h = cc
any_error_lem (int b ∷ ds) h = cc
any_error_lem (str b ∷ ds) h = cc
any_error_lem (arr b ∷ ds) h = cc

pub diagnostics_stage_lem :
    (j : Json) (pack : PolicyPack)
    → is_dicts j ≡ true
    → diagnostics_stage j pack
      ≡ ok (if any is_error (items_of j) then some (interactive_errors pack) else none)
unfolding diagnostics_stage
diagnostics_stage_lem null pack h = refl
diagnostics_stage_lem (arr nil) pack h = refl
diagnostics_stage_lem (arr (cons x xs)) pack h = simp (any_error_lem (x ∷ to_list xs) h)
diagnostics_stage_lem _ pack h = cc

-- the first stage rejects just a report with an error diagnostic
pub interactive_stage_lem :
    (ir : Json) (pack : PolicyPack)
    → is_report ir ≡ true
    → interactive_stage ir pack
      ≡ ok (if any is_error (diagnostics ir) then some (interactive_errors pack) else none)
unfolding interactive_stage get_or
interactive_stage_lem null pack h = refl
interactive_stage_lem (obj end) pack h = refl
interactive_stage_lem (obj (field k v fs)) pack h =
    diagnostics_stage_lem (get "diagnostics" (field k v fs)) pack h
interactive_stage_lem _ pack h = cc

-- a trust gate that asks for a human, and a path rule that does
abbrev pub gate_asks : Json → List (List ℕ) → TrustGateRule → Bool
gate_asks trust_level files tg = gate_matches tg trust_level files && tg.require_human

abbrev pub rule_asks : List (List ℕ) → PathRule → Bool
rule_asks files rule = any (path_matches rule.glob) files && rule.require_human

-- the reasons for which an axiom audit blocks
abbrev pub blocked_reasons : Json → Json
blocked_reasons (obj audit) = get_or "blocked_reasons" (arr nil) audit
blocked_reasons _ = null

-- a batch result is None, or a dictionary whose axiom audit is one too
abbrev pub is_batch : Json → Bool
is_batch null = true
is_batch (obj b) = is_dict (get_or "axiom_audit" (obj end) b)
is_batch _ = false

-- the batch result is ok, blocks nothing, and asks for no human
abbrev pub dict_passes : Fields → List (List ℕ) → PolicyPack → Bool
dict_passes b files pack =
    let trust_level = get_or "trust_level" (str "clean") b in
    truthy (get_or "ok" (bool false) b)
    && not (truthy (blocked_reasons (get_or "axiom_audit" (obj end) b)))
    && (not (is_str "warning" trust_level) || pack.allow_trust_compiler)
    && not (any (gate_asks trust_level files) pack.trust_gates)

abbrev pub batch_passes : Json → List (List ℕ) → PolicyPack → Bool
batch_passes (obj b) files pack = not (truthy (obj b)) || dict_passes b files pack
batch_passes _ files pack = true

-- the patch asks for a human
abbrev pub patch_asks : Fields → List (List ℕ) → PolicyPack → Bool
patch_asks meta files pack =
    truthy (get "trust_delta" meta) && pack.require_human_on_trust_delta
    || any (rule_asks files) pack.path_rules
    || truthy (get "protected_paths_touched" meta)
    || truthy (get "imports_changed" meta) && pack.require_human_if_imports_change

audit_get :
    (j : Json)
    → is_dict j ≡ true
    → dict_get_or j "blocked_reasons" (arr nil) ≡ ok (blocked_reasons j)
unfolding dict_get_or
audit_get (obj a) h = refl
audit_get _ h = cc

bind_some {ℓ} :
    {A : Type ℓ} (m : Result A) (f : A → PolicyDecision) → (m >>= λ a. ok (some (f a))) ≢ ok none
bind_some (ok a) f h = cc
bind_some (raise e) f h = cc

pub batch_failed-ne : (b : Fields) (pack : PolicyPack) → batch_failed b pack ≢ ok none
unfolding batch_failed
batch_failed-ne b pack = bind_some (failed_reasons b) _

axiom_blocked-ne : (j : Json) (pack : PolicyPack) → axiom_blocked j pack ≢ ok none
unfolding axiom_blocked
axiom_blocked-ne j pack = go (iterate j)
  where
    go :
        (m : Result (List Json))
        → (m >>= λ js. as_texts js >>= λ rs. ok (
            some (
              decide pack Decision.blocked Trust.blocked rs "axiom_audit" RuleEffect.blocked
                "axiom_blocked")))
          ≢ ok none
    go (ok js) = bind_some (as_texts js) _
    go (raise e) = cc

module _ (trust_level : Json) (files : List (List ℕ)) (pack : PolicyPack) where
  is_some-gates :
      (tgs : List TrustGateRule)
      → is_some (trust_gates_stage tgs trust_level files pack)
        ≡ any (gate_asks trust_level files) tgs
  unfolding trust_gates_stage
  is_some-gates [] = refl
  is_some-gates (tg ∷ tgs) = ground (arith, is_some-gates tgs)

  gates_ask :
      (tgs : List TrustGateRule) (d : PolicyDecision)
      → trust_gates_stage tgs trust_level files pack ≡ some d
      → d.decision ≡ Decision.needs_review
  unfolding trust_gates_stage review decide
  gates_ask [] d h = cc
  gates_ask (tg ∷ tgs) d h = ground (arith, gates_ask tgs d)

module _ (files : List (List ℕ)) (pack : PolicyPack) where
  is_some-rules :
      (rules : List PathRule)
      → is_some (path_rules_stage rules files pack) ≡ any (rule_asks files) rules
  unfolding path_rules_stage
  is_some-rules [] = refl
  is_some-rules (rule ∷ rules) = ground (arith, is_some-rules rules)

  rules_ask :
      (rules : List PathRule) (d : PolicyDecision)
      → path_rules_stage rules files pack ≡ some d
      → d.decision ≡ Decision.needs_review
  unfolding path_rules_stage review decide
  rules_ask [] d h = cc
  rules_ask (rule ∷ rules) d h = ground (arith, rules_ask rules d)

  pub patch_stage-accepts :
      (meta : Fields)
      → patch_asks meta files pack ≡ false
      → patch_stage meta files pack ≡ accepted_by pack
  unfolding patch_stage
  patch_stage-accepts meta h = ground (arith, is_some-rules pack.path_rules)

  pub patch_stage-asks :
      (meta : Fields)
      → patch_asks meta files pack ≡ true
      → (patch_stage meta files pack).decision ≡ Decision.needs_review
  unfolding patch_stage review decide
  patch_stage-asks meta h = elim (Option-cases (path_rules_stage pack.path_rules files pack)) [
    | inl e ↦ ground (arith, is_some-rules pack.path_rules)
    | inr (d, e) ↦ ground (arith, rules_ask pack.path_rules d)
  ]

  trust_stage_iff :
      (trust_level : Json)
      → (trust_stage trust_level files pack ≡ none) ↔ (
          ((not (is_str "warning" trust_level) || pack.allow_trust_compiler)
            && not (any (gate_asks trust_level files) pack.trust_gates))
          ≡ true)
  unfolding trust_stage
  trust_stage_iff trust_level =
      ground (arith, is_some-gates trust_level files pack pack.trust_gates)

  pub batch_dict_iff :
      (b : Fields)
      → is_dict (get_or "axiom_audit" (obj end) b) ≡ true
      → (batch_dict_stage b files pack ≡ ok none) ↔ (dict_passes b files pack ≡ true)
  unfolding batch_dict_stage
  batch_dict_iff b h = ground (
    arith,
    audit_get (get_or "axiom_audit" (obj end) b) h,
    batch_failed-ne b pack,
    axiom_blocked-ne (blocked_reasons (get_or "axiom_audit" (obj end) b)) pack,
    trust_stage_iff (get_or "trust_level" (str "clean") b),
  )
