-- ===== src/Config/Agreement.antt =====
-- What capabilities.py says of the backends, against what deps.py resolves.
use lean_lang_chain.Common.{
  ◌||◌, not, String, ◌≡◌, refl, Bool, true, false, Option, none, some, Result, ok, raise, ◌==◌,
  arith, Bool-cases, inl, inr, eq_iff, sym, subst,
}
use lean_lang_chain.Text.{strip, lower}
use lean_lang_chain.Gateway.Runners.{Env, or_default}
use lean_lang_chain.Config.Production.{is_set-strip}
use lean_lang_chain.Config.{
  compute_capability_snapshot, review_store_mode, resolve_review_store, ReviewStoreMode, is_set,
  says_yes, env_truthy, LeanMode, BackendMode, Setup, lean_mode, backend_mode,
  resolve_lean_transport, resolve_backend,
}

-- A variable that says yes is set.
is_set-env_truthy :
    (env : Env) (name : String) → env_truthy env name ≡ true → is_set (env name) ≡ true
unfolding env_truthy strip lower
is_set-env_truthy env name h = go (env name) h
  where
    go : (v : Option String) → says_yes (lower (strip (or_default "" v))) ≡ true → is_set v ≡ true
    go none h = h
    go (some v) h = elim (Bool-cases (v == "")) [
      | inl e ↦
          subst (λ u. says_yes (lower (strip u)) ≡ true → is_set (some u) ≡ true)
            (sym ((eq_iff v "").0 e)) (λ x. x) h
      | inr e ↦ rw e refl
    ]

-- whether a call returns
abbrev pub is_ok {ℓ} : {A : Type ℓ} → Result A → Bool
is_ok (ok a) = true
is_ok (raise e) = false

abbrev pub is_lean : LeanMode → Bool
is_lean LeanMode.unconfigured = false
is_lean _ = true

abbrev pub is_there : BackendMode → Bool
is_there BackendMode.unconfigured = false
is_there _ = true

lean_mode-resolves :
    (s : Setup) → (not (is_lean (lean_mode s)) || is_ok (resolve_lean_transport s)) ≡ true
unfolding lean_mode resolve_lean_transport
lean_mode-resolves s =
    ground (
      arith,
      is_set-env_truthy s.env "OBR_USE_LEAN_LSP",
      is_set-env_truthy s.env "OBR_USE_REAL_LEAN",
    )

backend_mode-resolves :
    (injected : Bool) (name : String) (env : Env)
    → (not (is_there (backend_mode injected name env)) || is_ok (resolve_backend injected name env))
      ≡ true
unfolding backend_mode resolve_backend
backend_mode-resolves injected name env = ground (arith, is_set-env_truthy env name)

abbrev pub is_postgres : ReviewStoreMode → Bool
is_postgres ReviewStoreMode.postgres = true
is_postgres ReviewStoreMode.memory = false

review_store_mode-resolves :
    (env : Env)
    → (not (is_postgres (review_store_mode env)) || is_postgres (resolve_review_store env)) ≡ true
unfolding review_store_mode resolve_review_store
review_store_mode-resolves env = ground (arith, is_set-strip (env "DATABASE_URL"))

-- A backend that the capability snapshot does not call unconfigured is there: it resolves. A review
-- store that the snapshot calls Postgres is the one in Postgres.
pub compute_capability_snapshot-resolves :
    (s : Setup)
    → let shown = compute_capability_snapshot s in
      ((not (is_lean shown.lean_interactive) || is_ok (resolve_lean_transport s)) ≡ true)
      × ((not (is_there shown.axiom_audit)
            || is_ok (resolve_backend s.test_auditor "OBR_USE_REAL_AXIOM_AUDIT" s.env))
          ≡ true)
      × ((not (is_there shown.fresh_checker)
            || is_ok (resolve_backend s.test_checker "OBR_USE_REAL_FRESH_CHECKER" s.env))
          ≡ true)
      × ((not (is_postgres shown.review_store) || is_postgres (resolve_review_store s.env)) ≡ true)
unfolding compute_capability_snapshot
compute_capability_snapshot-resolves s = (
  lean_mode-resolves s,
  backend_mode-resolves s.test_auditor "OBR_USE_REAL_AXIOM_AUDIT" s.env,
  backend_mode-resolves s.test_checker "OBR_USE_REAL_FRESH_CHECKER" s.env,
  review_store_mode-resolves s.env,
)
