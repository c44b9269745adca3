-- ===== src/Runtime/Graph/Resume.antt =====
-- Resumed runs: they start from the state that `make_resume_state` builds.
use lean_lang_chain.Common.{
  not, ◌&&◌, is_some, false, ◌≡◌, refl, String, Option, none, some, ok, [], ◌∷◌, ok-injective,
  subst, ◌∙◌,
}
use lean_lang_chain.Json.{Json, obj, end}
use lean_lang_chain.Runtime.State.{ObligationRuntimeState, Status, make_resume_state, resume_state}
use lean_lang_chain.Runtime.Finalize.Ends.{of_model, breaks, artifact_of, finalize-ends}
use lean_lang_chain.Runtime.Finalize.{
  Models, bundle, witness_artifact, default_interactive, default_acceptance, blank_environment,
  validated_acceptance, finalize,
}
use lean_lang_chain.Runtime.Graph.{Deps, invoke, run_node, next_node}
use lean_lang_chain.Runtime.Review.{resume_with_approval}
use lean_lang_chain.Json.{or_dict, has_key}
use lean_lang_chain.Common.{◌++◌}
use lean_lang_chain.Runtime.Dump.{dump_decision}
use lean_lang_chain.Policy.Decision.{plain, Decision, Trust}

-- the bundle of a resumed run: no obligation, and every part validated from an empty dictionary
abbrev pub blank_bundle : Models → String → Json
blank_bundle m id =
    bundle id "" (of_model m.environment blank_environment end)
      (of_model m.interactive default_interactive end) default_acceptance
      (of_model m.decision (dump_decision (plain Decision.accepted Trust.clean [])) end) (obj end)

-- an empty environment breaks nothing
breaks-end : (m : Models) → breaks m end ≡ false
unfolding has_key
breaks-end m = go (m.environment (obj end))
  where
    go : (o : Option Json) → not (is_some o) && false ≡ false
    go none = refl
    go (some v) = refl

-- the end node on a state whose evidence is empty
finalize-blank :
    (m : Models) (id : String) (s : ObligationRuntimeState)
    → or_dict s.environment_fingerprint ≡ obj end
    → or_dict s.interactive_result ≡ obj end
    → or_dict s.policy_decision ≡ obj end
    → artifact_of m id s end end end ≡ witness_artifact (blank_bundle m id)
    → finalize m id s
      ≡ ok (record s {
        status = Status.accepted;
        artifacts = s.artifacts ++ witness_artifact (blank_bundle m id) ∷ [];
      })
finalize-blank m id s e i p a = finalize-ends m id s end end end e i p ∙ rw (breaks-end m, a) refl

module _ {G : Type 0} (d : Deps G) where
  -- A resume with the decision "rejected" ends with the status rejected and no artifact, and leaves
  -- the gateway alone.
  pub resume-rejected :
      (thread : String) (s : ObligationRuntimeState) (g : G)
      → make_resume_state thread "rejected" ≡ ok s
      → invoke d s g ≡ (ok (record s { approval_required = false; status = Status.rejected }), g)
  unfolding make_resume_state invoke run_node next_node resume_with_approval
  resume-rejected thread s g h =
      subst
        (λ s.
          invoke d s g ≡ (ok (record s { approval_required = false; status = Status.rejected }), g))
        (ok-injective h) refl

  -- A resume with the decision "approved" ends accepted without a call of the gateway, and its one
  -- artifact is a witness bundle with no obligation, whose environment, interactive result and
  -- policy are what the models make of empty dictionaries and whose acceptance summary is the
  -- default one.
  pub resume-approved :
      (thread : String) (s : ObligationRuntimeState) (g : G)
      → make_resume_state thread "approved" ≡ ok s
      → invoke d s g ≡ (
        ok (record s {
          approval_required = false;
          status = Status.accepted;
          artifacts = witness_artifact (blank_bundle d.models d.bundle_id) ∷ [];
        }),
        g,
      )
  unfolding make_resume_state invoke run_node next_node resume_with_approval or_dict
      validated_acceptance
  resume-approved thread s g h =
      subst
        (λ s. invoke d s g ≡ (
          ok (record s {
            approval_required = false;
            status = Status.accepted;
            artifacts = witness_artifact (blank_bundle d.models d.bundle_id) ∷ [];
          }),
          g,
        ))
        (ok-injective h)
        (rw
          (finalize-blank d.models d.bundle_id
            (resume_with_approval (resume_state thread "approved")) refl refl refl refl)
          refl)
