-- ===== src/Config.antt =====
-- apps/lean-gateway/lean_langchain_gateway/api: which backends deps.py resolves, and what
-- capabilities.py says of them. `injected` says whether a test has put its own backend in place.
pub mod Agreement
pub mod Production
use lean_lang_chain.Common.{
  String, Bool, true, false, not, ◌&&◌, ◌||◌, Option, none, some, List, [], ◌∷◌, ◌++◌, Result, ok,
  raise, runtime_error, ◌==◌, if◌then◌else◌,
}
use lean_lang_chain.Text.{strip, lower}
use lean_lang_chain.Gateway.Runners.{Env, or_default}

-- `bool(os.environ.get(name))`
abbrev pub is_set : Option String → Bool
is_set none = false
is_set (some v) = not (v == "")

abbrev pub says_yes : String → Bool
says_yes v = v == "1" || v == "true" || v == "yes"

-- `_env_truthy`
unfoldable pub env_truthy : Env → String → Bool
env_truthy env name = says_yes (lower (strip (or_default "" (env name))))

pub data LeanMode : Type 0 where
  real_lsp real_subprocess test_injected unconfigured : LeanMode

pub data BackendMode : Type 0 where
  real test_injected unconfigured : BackendMode

pub data ReviewStoreMode : Type 0 where
  postgres memory : ReviewStoreMode

-- the tests' own backends, and the environment
pub record Setup : Type 0 where
  pub env : Env
  pub test_transport : Bool
  pub test_auditor : Bool
  pub test_checker : Bool

unfoldable pub lean_mode : Setup → LeanMode
unfolding env_truthy
lean_mode s =
    if s.test_transport
    then LeanMode.test_injected
    else if env_truthy s.env "OBR_USE_LEAN_LSP"
    then LeanMode.real_lsp
    else if env_truthy s.env "OBR_USE_REAL_LEAN"
    then LeanMode.real_subprocess
    else LeanMode.unconfigured

unfoldable pub backend_mode : Bool → String → Env → BackendMode
unfolding env_truthy
backend_mode injected name env =
    if injected
    then BackendMode.test_injected
    else if env_truthy env name
    then BackendMode.real
    else BackendMode.unconfigured

unfoldable pub review_store_mode : Env → ReviewStoreMode
review_store_mode env =
    if or_default "memory" (env "REVIEW_STORE") == "postgres"
      && (is_set (env "REVIEW_STORE_POSTGRES_URI")
          || not (strip (or_default "" (env "DATABASE_URL")) == ""))
    then ReviewStoreMode.postgres
    else ReviewStoreMode.memory

pub record Snapshot : Type 0 where
  pub lean_interactive : LeanMode
  pub axiom_audit : BackendMode
  pub fresh_checker : BackendMode
  pub review_store : ReviewStoreMode
  pub degraded : Bool
  pub degraded_reasons : List String
  pub obr_env : String

abbrev lean_reason : LeanMode → List String
lean_reason LeanMode.unconfigured = "lean_interactive_unconfigured" ∷ []
lean_reason _ = []

abbrev backend_reason : String → BackendMode → List String
backend_reason reason BackendMode.unconfigured = reason ∷ []
backend_reason reason _ = []

abbrev store_reason : ReviewStoreMode → List String
store_reason ReviewStoreMode.memory = "review_store_memory" ∷ []
store_reason ReviewStoreMode.postgres = []

unfoldable pub reasons : LeanMode → BackendMode → BackendMode → ReviewStoreMode → List String
reasons lean axiom_audit fresh store =
    lean_reason lean
    ++ (backend_reason "axiom_audit_unconfigured" axiom_audit
        ++ (backend_reason "fresh_checker_unconfigured" fresh ++ store_reason store))

abbrev is_some_list : List String → Bool
is_some_list [] = false
is_some_list (x ∷ xs) = true

-- `compute_capability_snapshot`
unfoldable pub compute_capability_snapshot : Setup → Snapshot
unfolding lean_mode backend_mode review_store_mode reasons
compute_capability_snapshot s =
    let obr_env = lower (strip (or_default "" (s.env "OBR_ENV"))) in
    let lean = lean_mode s in
    let audit = backend_mode s.test_auditor "OBR_USE_REAL_AXIOM_AUDIT" s.env in
    let fresh = backend_mode s.test_checker "OBR_USE_REAL_FRESH_CHECKER" s.env in
    let review = review_store_mode s.env in
    let why = if obr_env == "production" then [] else reasons lean audit fresh review in
    record {
      lean_interactive = lean;
      axiom_audit = audit;
      fresh_checker = fresh;
      review_store = review;
      degraded = is_some_list why;
      degraded_reasons = why;
      obr_env = if obr_env == "" then "development" else obr_env;
    }

-- what deps.py hands out
pub data LeanBackend : Type 0 where
  injected lsp subprocess : LeanBackend

-- `_get_lean_transport` before its cache is filled, with `_resolve_lean_transport`
unfoldable pub resolve_lean_transport : Setup → Result LeanBackend
resolve_lean_transport s =
    if s.test_transport
    then ok injected
    else if is_set (s.env "OBR_USE_LEAN_LSP")
    then ok lsp
    else if is_set (s.env "OBR_USE_REAL_LEAN")
    then ok subprocess
    else raise runtime_error

-- `_get_axiom_auditor` and `_get_fresh_checker`: whether the backend is the tests' own
unfoldable pub resolve_backend : Bool → String → Env → Result Bool
resolve_backend is_injected name env =
    if is_injected then ok true else if is_set (env name) then ok false else raise runtime_error

-- `_review_store`
unfoldable pub resolve_review_store : Env → ReviewStoreMode
resolve_review_store env =
    if or_default "memory" (env "REVIEW_STORE") == "postgres"
      && (is_set (env "REVIEW_STORE_POSTGRES_URI") || is_set (env "DATABASE_URL"))
    then ReviewStoreMode.postgres
    else ReviewStoreMode.memory
