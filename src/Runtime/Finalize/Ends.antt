-- ===== src/Runtime/Finalize/Ends.antt =====
-- When the end node returns a witness bundle, and when it raises.
use lean_lang_chain.Common.{
  String, ◌≡◌, refl, Bool, ◌&&◌, not, is_some, Option, none, some, [], ◌∷◌, ◌++◌, Result, ok, raise,
  type_error, if◌then◌else◌, Bool-cases, inl, inr,
}
use lean_lang_chain.Json.{Json, Fields, obj, or_dict}
use lean_lang_chain.Policy.Decision.{Decision, Trust, plain}
use lean_lang_chain.Runtime.State.{ObligationRuntimeState, Status}
use lean_lang_chain.Runtime.Dump.{dump_decision}
use lean_lang_chain.Runtime.Finalize.{
  Models, default_interactive, blank_environment, names_twice, environment_fallback,
  validated_environment, validated, validated_acceptance, dict_or_empty, bundle, witness_artifact,
  finalize,
}

-- what a model makes of a dictionary, or its fallback
abbrev pub of_model : (Json → Option Json) → Json → Fields → Json
of_model model fallback fs = elim (model (obj fs)) [ some v ↦ v | none ↦ fallback ]

-- the environment is refused, and names a field that the fallback names too
abbrev pub breaks : Models → Fields → Bool
breaks m env = not (is_some (m.environment (obj env))) && names_twice env

validated-dict :
    (model : Json → Option Json) (f : Json) (fs : Fields)
    → validated model f (obj fs) ≡ ok (of_model model f fs)
unfolding validated
validated-dict model f fs = go (model (obj fs))
  where
    go :
        (o : Option Json)
        → elim o as (λ _. Result Json) [ some v ↦ ok v | none ↦ ok f ]
          ≡ ok (elim o as (λ _. Json) [ some v ↦ v | none ↦ f ])
    go none = refl
    go (some v) = refl

environment-dict :
    (m : Models) (env : Fields)
    → validated_environment m (obj env) ≡ (
        if breaks m env
        then raise type_error
        else ok (of_model m.environment blank_environment env))
unfolding validated_environment environment_fallback
environment-dict m env = go (m.environment (obj env))
  where
    go :
        (o : Option Json)
        → elim o as (λ _. Result Json) [ some v ↦ ok v | none ↦ environment_fallback env ] ≡ (
            if not (is_some o) && names_twice env
            then raise type_error
            else ok (elim o as (λ _. Json) [ some v ↦ v | none ↦ blank_environment ]))
    go none = refl
    go (some v) = refl

-- the artifact of a state, given its three dictionaries
abbrev pub artifact_of : Models → String → ObligationRuntimeState → Fields → Fields → Fields → Json
artifact_of m id s env inter policy = witness_artifact (
    bundle id s.obligation_id (of_model m.environment blank_environment env)
      (of_model m.interactive default_interactive inter) (validated_acceptance m s.batch_result)
      (of_model m.decision (dump_decision (plain Decision.accepted Trust.clean [])) policy)
      (dict_or_empty s.approval_decision))

-- On a state whose environment, interactive result and decision are dictionaries or falsy, the end
-- node raises TypeError where the environment is refused by its model and holds one of the four
-- names of the fallback, and else ends accepted with one more artifact, the witness bundle.
pub finalize-ends :
    (m : Models) (id : String) (s : ObligationRuntimeState) (env inter policy : Fields)
    → or_dict s.environment_fingerprint ≡ obj env
    → or_dict s.interactive_result ≡ obj inter
    → or_dict s.policy_decision ≡ obj policy
    → finalize m id s ≡ (
        if breaks m env
        then raise type_error
        else ok (record s {
          status = Status.accepted;
          artifacts = s.artifacts ++ artifact_of m id s env inter policy ∷ [];
        }))
unfolding finalize
finalize-ends m id s env inter policy e i p = elim (Bool-cases (breaks m env)) [
  | inl t ↦ simp (e, environment-dict m env, t)
  | inr f ↦ simp (
    e,
    i,
    p,
    environment-dict m env,
    f,
    validated-dict m.interactive default_interactive inter,
    validated-dict m.decision (dump_decision (plain Decision.accepted Trust.clean [])) policy,
  )
]
