-- ===== src/Runtime/Dump.antt =====
-- `model_dump(mode="json")` of a policy decision: how it stands in the state.
use lean_lang_chain.Common.{String, ◌≡◌, refl, map, Bool, ◌||◌}
use lean_lang_chain.Json.{Json, bool, str, arr, obj, end, field, is_str, from_list}
use lean_lang_chain.Policy.Decision.{
  Decision, RuleEffect, PolicyResolvedRule, PolicyDecision, decision_text, trust_text, is_refusal,
}
use lean_lang_chain.Policy.Events.{texts}

abbrev pub effect_text : RuleEffect → String
effect_text RuleEffect.none = "none"
effect_text RuleEffect.needs_review = "needs_review"
effect_text RuleEffect.rejected = "rejected"
effect_text RuleEffect.blocked = "blocked"
effect_text RuleEffect.accepted = "accepted"

dump_rule : PolicyResolvedRule → Json
dump_rule r = obj (
    field "rule_id" (str r.rule_id) (
      field "source_pack" (str r.source_pack) (
        field "matched" (bool r.matched) (
          field "effect" (str (effect_text r.effect))
            (field "reason_code" (str r.reason_code) end)))))

unfoldable pub dump_decision : PolicyDecision → Json
unfolding dump_rule texts from_list
dump_decision d = obj (
    field "decision" (str (decision_text d.decision)) (
      field "trust_level" (str (trust_text d.trust_level)) (
        field "reasons" (arr (texts d.reasons)) (
          field "policy_pack_name" (str d.policy_pack_name) (
            field "policy_pack_version" (str d.policy_pack_version)
              (field "resolved_rules" (arr (from_list (map dump_rule d.resolved_rules))) end))))))

-- `x.get("decision") in ("rejected", "blocked")`
abbrev pub is_refused : Json → Bool
is_refused j = is_str "rejected" j || is_str "blocked" j

pub refused_text : (d : Decision) → is_refused (str (decision_text d)) ≡ is_refusal d
refused_text Decision.accepted = refl
refused_text Decision.rejected = refl
refused_text Decision.blocked = refl
refused_text Decision.needs_review = refl
refused_text Decision.lower_trust = refl
refused_text Decision.failed = refl
