-- ===== src/Gateway/Batch/Acceptance.antt =====
-- What an accepted batch run rests on, up to the engine's decision.
use lean_lang_chain.Common.{
  String, ◌≡◌, refl, Bool, true, false, not, ◌&&◌, ◌||◌, List, [], ok, arith, ℕ, sym, ◌∙◌, ap,
}
use lean_lang_chain.Json.{Json, Fields, obj, arr, truthy, get_or}
use lean_lang_chain.Policy.Pack.{PolicyPack}
use lean_lang_chain.Policy.Events.{texts, texts-empty}
use lean_lang_chain.Policy.Engine.{evaluate, accepted_by, normalized}
use lean_lang_chain.Policy.Engine.Stages.{is_report, is_batch, batch_passes}
use lean_lang_chain.Policy.Engine.Acceptance.{evaluate-accepted_iff}
use lean_lang_chain.Gateway.Batch.{
  AxiomAuditResult, BatchVerifyResult, Lanes, verify, use_strict, is_blocked, combine_batch_results,
  apply_acceptance_strict, dump_batch, dump_audit,
}

module _ (lanes : Lanes) (strict_flag production : Bool) (workspace : String)
    (declarations : List String) where
  -- every lane passed, and under strict acceptance both audits are real
  abbrev pub lanes_pass : Bool
  lanes_pass =
      (lanes.run_build workspace).success
      && (lanes.run_audit workspace declarations).success
      && (lanes.run_fresh workspace).success
      && not (is_blocked (lanes.run_audit workspace declarations).trust_level)
      && (not (use_strict strict_flag production) || lanes.axiom_real && lanes.fresh_real)

  -- A batch verification succeeds exactly when the build, the audit and the fresh checker pass, the
  -- audit's trust level is not blocked, and, under strict acceptance, the auditor and the checker
  -- are the real ones.
  pub verify-success :
      (verify lanes strict_flag production workspace declarations).success ≡ lanes_pass
  unfolding verify combine_batch_results apply_acceptance_strict
  verify-success = ground arith

  verify-audit :
      (verify lanes strict_flag production workspace declarations).axiom_audit
      ≡ lanes.run_audit workspace declarations
  unfolding verify combine_batch_results apply_acceptance_strict
  verify-audit = ground arith

first-two : (a b c d : Bool) → (a && not b && c && d) ≡ true → (a ≡ true) × (b ≡ false)
first-two a b c d h = ground arith

dump-passes :
    (r : BatchVerifyResult) (files : List (List ℕ)) (pack : PolicyPack)
    → batch_passes (obj (dump_batch r)) files pack ≡ true
    → (r.success ≡ true) × (truthy (arr (texts r.axiom_audit.blocked_reasons)) ≡ false)
unfolding dump_batch dump_audit truthy get_or
dump-passes r files pack h =
    first-two r.success (truthy (arr (texts r.axiom_audit.blocked_reasons))) _ _ h

pub dump-is_batch : (r : BatchVerifyResult) → is_batch (obj (dump_batch r)) ≡ true
unfolding dump_batch dump_audit get_or
dump-is_batch r = refl

-- If the engine accepts a report together with the dump of a batch verification, then every lane of
-- that verification passed, its axiom audit has no blocked reason, and under strict acceptance both
-- audits were real.
pub accepted-lanes :
    (lanes : Lanes) (strict_flag production : Bool) (workspace : String)
    (declarations : List String) (ir : Json) (meta : Fields) (pack : PolicyPack)
    → is_report ir ≡ true
    → evaluate ir
        (obj (dump_batch (verify lanes strict_flag production workspace declarations)))
        meta
        pack
      ≡ ok (accepted_by pack)
    → (lanes_pass lanes strict_flag production workspace declarations ≡ true)
      × ((lanes.run_audit workspace declarations).blocked_reasons ≡ [])
accepted-lanes lanes strict_flag production workspace declarations ir meta pack report h =
    let r = verify lanes strict_flag production workspace declarations in
    let clean =
      (evaluate-accepted_iff ir (obj (dump_batch r)) meta pack report (dump-is_batch r)).0 h in
    let (s, b) = dump-passes r (normalized meta) pack clean.passes in
    (
      sym (verify-success lanes strict_flag production workspace declarations) ∙ s,
      ap (λ (a : AxiomAuditResult). a.blocked_reasons)
            (sym (verify-audit lanes strict_flag production workspace declarations))
          ∙ texts-empty r.axiom_audit.blocked_reasons b,
    )
