-- ===== src/Runtime/Graph/Evidence.antt =====
-- What an accepted run says of the evidence in its last state.
use lean_lang_chain.Common.{
  arith, any, ◌&&◌, Bool, ◌||◌, ◌≡◌, true, false, List, [], ok, String, inl, inr, ap, ◌∙◌, ℕ,
}
use lean_lang_chain.Json.{Fields, arr, get, get_or, truthy, Json}
use lean_lang_chain.Policy.Decision.{Decision, PolicyDecision}
use lean_lang_chain.Policy.Events.{texts, texts-empty}
use lean_lang_chain.Policy.Pack.{PolicyPack}
use lean_lang_chain.Policy.Patch.{summarize_patch, PatchSummary}
use lean_lang_chain.Policy.Engine.{evaluate, accepted_by, normalized}
use lean_lang_chain.Policy.Engine.Stages.{is_report, is_batch, patch_asks, rule_asks}
use lean_lang_chain.Policy.Engine.Audit.{evaluate-Final}
use lean_lang_chain.Policy.Engine.Acceptance.{IsClean, evaluate-accepted_iff, Turned-ne}
use lean_lang_chain.Runtime.State.{ObligationRuntimeState, Status}
use lean_lang_chain.Runtime.Review.{patch_meta, protected_paths}
use lean_lang_chain.Runtime.Graph.{Node, Deps, invoke, route_start}
use lean_lang_chain.Runtime.Graph.Safety.{IsJustified, pack_of}
use lean_lang_chain.Runtime.Graph.Accepted.{invoke-Justified}

-- an accepted decision of the engine is the one with its one accepting rule
pub accepted-by :
    (ir br : Json) (meta : Fields) (pack : PolicyPack) (dec : PolicyDecision)
    → evaluate ir br meta pack ≡ ok dec
    → dec.decision ≡ Decision.accepted
    → evaluate ir br meta pack ≡ ok (accepted_by pack)
accepted-by ir br meta pack dec h a = elim (evaluate-Final pack ir br meta dec h) [
  | inl t ↦ absurd (Turned-ne t a)
  | inr e ↦ h ∙ ap ok e
]

third-false : (a b c e : Bool) → (a || b || c || e) ≡ false → c ≡ false
third-false a b c e h = ground arith

quiet-unprotected :
    (m : PatchSummary) (files : List (List ℕ)) (pack : PolicyPack)
    → patch_asks (patch_meta m) files pack ≡ false
    → m.protected ≡ []
unfolding patch_meta get_or
quiet-unprotected m files pack h = texts-empty m.protected (
    third-false (truthy (get "trust_delta" (patch_meta m)) && pack.require_human_on_trust_delta)
      (any (rule_asks files) pack.path_rules) (truthy (arr (texts m.protected)))
      (truthy (get "imports_changed" (patch_meta m)) && pack.require_human_if_imports_change) h)

module _ {G : Type 0} (d : Deps G) where
  -- the evidence of a state is clean under its pack, and its patch touches no protected path
  pub record IsSound (t : ObligationRuntimeState) : Type 0 where
    pub paths : List String
    pub declared : protected_paths t.obligation ≡ ok paths
    pub clean :
        IsClean t.interactive_result t.batch_result
          (patch_meta (summarize_patch d.sha256 [] t.current_patch paths))
          (pack_of d t)
    pub untouched : (summarize_patch d.sha256 [] t.current_patch paths).protected ≡ []

  pub Justified-IsSound :
      (t : ObligationRuntimeState)
      → is_report t.interactive_result ≡ true
      → is_batch t.batch_result ≡ true
      → IsJustified d t
      → IsSound t
  Justified-IsSound t report batch j =
      let meta = patch_meta (summarize_patch d.sha256 [] t.current_patch j.paths) in
      let clean =
        (evaluate-accepted_iff t.interactive_result t.batch_result meta (pack_of d t) report
            batch).0
          (accepted-by t.interactive_result t.batch_result meta (pack_of d t) j.decision j.judged
            j.accepts) in
      record {
        paths = j.paths;
        declared = j.declared;
        clean = clean;
        untouched =
            quiet-unprotected (summarize_patch d.sha256 [] t.current_patch j.paths)
              (normalized meta) (pack_of d t) clean.quiet;
      }

  -- A run that starts at the first node and ends with the status accepted, with an interactive and
  -- a batch result of the expected shape, holds clean evidence: no diagnostic is an error, the batch
  -- result passes, the patch asks for no human, and it changes no path that the obligation protects.
  pub invoke-IsSound :
      (s t : ObligationRuntimeState) (g : G)
      → route_start s ≡ Node.init_environment
      → (invoke d s g).0 ≡ ok t
      → t.status ≡ Status.accepted
      → is_report t.interactive_result ≡ true
      → is_batch t.batch_result ≡ true
      → IsSound t
  invoke-IsSound s t g start h e report batch =
      Justified-IsSound t report batch (invoke-Justified d s t g start h e)
