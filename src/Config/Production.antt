-- ===== src/Config/Production.antt =====
-- apps/lean-gateway/lean_langchain_gateway/api/app.py: `_assert_production_state`.
use lean_lang_chain.Common.{
  String, ◌≡◌, refl, subst, Bool, true, false, not, ◌||◌, ◌&&◌, Option, none, some, List, [], ◌∷◌,
  ◌++◌, Result, ok, raise, runtime_error, ◌==◌, if◌then◌else◌, arith, Bool-cases, inl, inr,
  is_empty, eq_iff,
}
use lean_lang_chain.Text.{strip, lower}
use lean_lang_chain.Gateway.Runners.{Env, or_default}
use lean_lang_chain.Config.{
  is_set, says_yes, resolve_backend, resolve_review_store, ReviewStoreMode,
}

-- a message where the test holds
abbrev complaint : Bool → String → List String
complaint b message = if b then message ∷ [] else []

-- whether OBR_ACCEPTANCE_STRICT asks for strict acceptance
unfoldable pub is_strict : Env → Bool
is_strict env = says_yes (lower (strip (or_default "1" (env "OBR_ACCEPTANCE_STRICT"))))

unfoldable pub production_errors : Env → List String
unfolding is_strict
production_errors env =
    complaint (or_default "memory" (env "REVIEW_STORE") == "memory")
      "REVIEW_STORE must not be memory when OBR_ENV=production"
    ++ (complaint (or_default "memory" (env "CHECKPOINTER") == "memory")
          "CHECKPOINTER must not be memory when OBR_ENV=production"
        ++ (complaint (strip (or_default "" (env "DATABASE_URL")) == "")
              "DATABASE_URL must be set when OBR_ENV=production"
            ++ (complaint (not (is_set (env "OBR_USE_REAL_AXIOM_AUDIT")))
                  "OBR_USE_REAL_AXIOM_AUDIT must be set when OBR_ENV=production (real axiom audit required)"
                ++ complaint (is_strict env && not (is_set (env "OBR_USE_REAL_FRESH_CHECKER")))
                    "OBR_USE_REAL_FRESH_CHECKER must be set when OBR_ENV=production and OBR_ACCEPTANCE_STRICT")))

-- `_assert_production_state`
unfoldable pub assert_production_state : Env → Result (Unit {0})
unfolding production_errors
assert_production_state env =
    if or_default "" (env "OBR_ENV") == "production"
    then (if is_empty (production_errors env) then ok tt else raise runtime_error)
    else ok tt

complaints-none :
    (a b c d e : Bool) (ma mb mc md me : String)
    → is_empty (
        complaint a ma
        ++ (complaint b mb ++ (complaint c mc ++ (complaint d md ++ complaint e me))))
      ≡ true
    → (c ≡ false) × (d ≡ false) × (e ≡ false)
complaints-none false false false false false ma mb mc md me h = (refl, refl, refl)
complaints-none true b c d e ma mb mc md me h = absurd cc
complaints-none false true c d e ma mb mc md me h = absurd cc
complaints-none false false true d e ma mb mc md me h = absurd cc
complaints-none false false false true e ma mb mc md me h = absurd cc
complaints-none false false false false true ma mb mc md me h = absurd cc

-- a value that is not blank is not empty
pub is_set-strip : (v : Option String) → (strip (or_default "" v) == "") ≡ false → is_set v ≡ true
unfolding strip
is_set-strip none h = absurd cc
is_set-strip (some v) h = elim (Bool-cases (v == "")) [
  | inl e ↦
      let blank : true ≡ false = subst (λ u. (strip u == "") ≡ false) ((eq_iff v "").0 e) h in
      absurd cc
  | inr e ↦ rw e refl
]

-- the resolved backend is no test's own
abbrev pub is_real : Result Bool → Bool
is_real (ok is_injected) = not is_injected
is_real (raise e) = false

no_errors :
    (env : Env)
    → or_default "" (env "OBR_ENV") ≡ "production"
    → assert_production_state env ≡ ok tt
    → is_empty (production_errors env) ≡ true
unfolding assert_production_state
no_errors env e h = elim (Bool-cases (is_empty (production_errors env))) [
  | inl none_found ↦ none_found
  | inr some_found ↦
      let refused : raise runtime_error ≡ ok tt = rw (e, some_found) at h in absurd cc
]

-- Where the gateway starts in production with the Postgres review store by name, the audit is the real
-- one, under strict acceptance so is the fresh checker, and reviews are kept in Postgres.
pub assert_production_state-ready :
    (env : Env)
    → or_default "" (env "OBR_ENV") ≡ "production"
    → or_default "memory" (env "REVIEW_STORE") ≡ "postgres"
    → assert_production_state env ≡ ok tt
    → (resolve_backend false "OBR_USE_REAL_AXIOM_AUDIT" env ≡ ok false)
      × ((not (is_strict env) || is_real (resolve_backend false "OBR_USE_REAL_FRESH_CHECKER" env))
          ≡ true)
      × (resolve_review_store env ≡ ReviewStoreMode.postgres)
unfolding assert_production_state production_errors resolve_backend resolve_review_store
assert_production_state-ready env e s h =
    let (url, audit, fresh) =
      complaints-none (or_default "memory" (env "REVIEW_STORE") == "memory")
        (or_default "memory" (env "CHECKPOINTER") == "memory")
        (strip (or_default "" (env "DATABASE_URL")) == "")
        (not (is_set (env "OBR_USE_REAL_AXIOM_AUDIT")))
        (is_strict env && not (is_set (env "OBR_USE_REAL_FRESH_CHECKER"))) _ _ _ _ _
        (no_errors env e h) in
    let database : is_set (env "DATABASE_URL") ≡ true = is_set-strip (env "DATABASE_URL") url in
    (ground arith, ground arith, rw (s, database) (ground arith))
