-- ===== src/Policy/Engine/Acceptance.antt =====
-- When the engine accepts, and what comes first when it does not.
use lean_lang_chain.Common.{
  ok-injective, sym, ◌∙◌, ℕ, ◌≡◌, ◌≢◌, refl, ◌↔◌, inl, inr, ap, true, false, Option, none, some,
  List, any, Result, ok, ◌>>=◌, Bool-cases,
}
use lean_lang_chain.Json.{Json, Fields, null, obj, end, field, truthy}
use lean_lang_chain.Policy.Decision.{Decision, PolicyDecision}
use lean_lang_chain.Policy.Pack.{PolicyPack}
use lean_lang_chain.Policy.Engine.{
  accepted_by, decide, interactive_errors, batch_stage, patch_stage, normalized, evaluate,
}
use lean_lang_chain.Policy.Engine.Stages.{
  diagnostics, is_error, is_report, is_batch, batch_passes, patch_asks, interactive_stage_lem,
  batch_dict_iff, patch_stage-accepts, patch_stage-asks,
}
use lean_lang_chain.Policy.Engine.Audit.{
  Outcome, goes_on, turns, raises, Turned, turned, batch_stage-Outcome,
}

batch_stage_iff :
    (br : Json) (files : List (List ℕ)) (pack : PolicyPack)
    → is_batch br ≡ true
    → (batch_stage br files pack ≡ ok none) ↔ (batch_passes br files pack ≡ true)
unfolding batch_stage truthy
batch_stage_iff null files pack h = (λ e. refl, λ e. refl)
batch_stage_iff (obj end) files pack h = (λ e. refl, λ e. refl)
batch_stage_iff (obj (field k v fs)) files pack h = batch_dict_iff files pack (field k v fs) h
batch_stage_iff _ files pack h = (λ e. cc, λ e. cc)

pub Turned-ne :
    {pack : PolicyPack} {d : PolicyDecision} → Turned pack d → d.decision ≢ Decision.accepted
unfolding decide
Turned-ne (turned d t rs id code ne) = ne

-- the evidence is clean: no error, a batch result that passes, and a patch that asks for no human
pub record IsClean (ir br : Json) (meta : Fields) (pack : PolicyPack) : Type 0 where
  pub no_error : any is_error (diagnostics ir) ≡ false
  pub passes : batch_passes br (normalized meta) pack ≡ true
  pub quiet : patch_asks meta (normalized meta) pack ≡ false

module _ (ir br : Json) (meta : Fields) (pack : PolicyPack) where
  -- the part after the interactive stage
  abbrev rest : Result (Option PolicyDecision) → Result PolicyDecision
  rest m = m >>= λ o. elim o [ some d ↦ ok d | none ↦ ok (patch_stage meta (normalized meta) pack) ]

  rest-accepted :
      (m : Result (Option PolicyDecision))
      → Outcome pack m
      → rest m ≡ ok (accepted_by pack)
      → (m ≡ ok none) × (patch_asks meta (normalized meta) pack ≡ false)
  unfolding decide
  rest-accepted m goes_on e = (
    refl,
    elim (Bool-cases (patch_asks meta (normalized meta) pack)) [
      | inl t ↦ cc (patch_stage-asks (normalized meta) pack meta t, ok-injective e)
      | inr f ↦ f
    ],
  )
  rest-accepted m (turns t) e =
      absurd (Turned-ne t (ap (λ (d : PolicyDecision). d.decision) (ok-injective e)))
  rest-accepted m (raises x) e = cc

  -- A report with an error diagnostic is rejected for it, whatever the batch result, the patch and
  -- the pack are.
  pub evaluate-error :
      is_report ir ≡ true
      → any is_error (diagnostics ir) ≡ true
      → evaluate ir br meta pack ≡ ok (interactive_errors pack)
  unfolding evaluate
  evaluate-error report t = rw (interactive_stage_lem ir pack report, t)

  evaluate-rest :
      is_report ir ≡ true
      → any is_error (diagnostics ir) ≡ false
      → evaluate ir br meta pack ≡ rest (batch_stage br (normalized meta) pack)
  unfolding evaluate
  evaluate-rest report f = rw (interactive_stage_lem ir pack report, f)

  errors-ne : interactive_errors pack ≢ accepted_by pack
  unfolding interactive_errors decide
  errors-ne e = cc

  accepted-IsClean :
      is_report ir ≡ true
      → is_batch br ≡ true
      → evaluate ir br meta pack ≡ ok (accepted_by pack)
      → IsClean ir br meta pack
  accepted-IsClean report batch h = elim (Bool-cases (any is_error (diagnostics ir))) [
    | inl t ↦ absurd (errors-ne (ok-injective (sym (evaluate-error report t) ∙ h)))
    | inr f ↦ after (sym (evaluate-rest report f) ∙ h) f
  ]
    where
      after :
          rest (batch_stage br (normalized meta) pack) ≡ ok (accepted_by pack)
          → any is_error (diagnostics ir) ≡ false
          → IsClean ir br meta pack
      after e f =
          let both =
            rest-accepted (batch_stage br (normalized meta) pack)
              (batch_stage-Outcome pack br (normalized meta)) e in
          record {
            no_error = f;
            passes = (batch_stage_iff br (normalized meta) pack batch).0 both.0;
            quiet = both.1;
          }

  IsClean-accepted :
      is_report ir ≡ true
      → is_batch br ≡ true
      → IsClean ir br meta pack
      → evaluate ir br meta pack ≡ ok (accepted_by pack)
  IsClean-accepted report batch c =
      evaluate-rest report c.no_error
      ∙ rw (
        (batch_stage_iff br (normalized meta) pack batch).1 c.passes,
        patch_stage-accepts (normalized meta) pack meta c.quiet,
      )

  -- The engine accepts a well-formed report and batch result exactly when no diagnostic is an
  -- error, the batch result (if any) is ok, blocks nothing and asks for no human, and the patch
  -- asks for none either.
  pub evaluate-accepted_iff :
      is_report ir ≡ true
      → is_batch br ≡ true
      → (evaluate ir br meta pack ≡ ok (accepted_by pack)) ↔ IsClean ir br meta pack
  evaluate-accepted_iff report batch =
      (accepted-IsClean report batch, IsClean-accepted report batch)
