-- ===== src/Tests/Clients.antt =====
-- The theorems of the session store, the client, the environments and the configuration at concrete
-- values.
use mathlib.Core.List.{foldl}
use lean_lang_chain.Common.{
  String, ◌≡◌, refl, true, false, ◌||◌, not, Option, none, some, List, [], ◌∷◌, ok, ◌==◌,
  if◌then◌else◌, value_error, map, arith,
}
use lean_lang_chain.Json.{has_key, Json}
use lean_lang_chain.Json.Equality.{py_eq, size}
use lean_lang_chain.Text.{strip, lower}
use lean_lang_chain.Gateway.Map.{lookup}
use lean_lang_chain.Gateway.Runners.{Env}
use lean_lang_chain.Mcp.Store.{SessionRecord, Change, save, remove, get, apply}
use lean_lang_chain.Mcp.Redis.{Timed, redis_get, redis_apply, redis_get-get}
use lean_lang_chain.Mcp.Session.{CreateSessionResponse}
use lean_lang_chain.Gateway.Reviews.{detail}
use lean_lang_chain.Gateway.Errors.{HttpResponse, http_exception_handler, unhandled_exception}
use lean_lang_chain.Sdk.{text, handle_response, raised}
use lean_lang_chain.Sdk.Envelope.{carried, error-Arrives}
use lean_lang_chain.Gateway.Files.{Files}
use lean_lang_chain.Environment.{EnvironmentFingerprint, Disk, build_from_repo}
use lean_lang_chain.Environment.Isolated
use lean_lang_chain.Config.{
  Setup, compute_capability_snapshot, resolve_lean_transport, resolve_backend, resolve_review_store,
  ReviewStoreMode,
}
use lean_lang_chain.Config.Production.{
  is_strict, is_real, assert_production_state, assert_production_state-ready,
}
use lean_lang_chain.Config.Agreement.{
  is_ok, is_lean, is_there, is_postgres, compute_capability_snapshot-resolves,
}

-- two sessions of one thread
abbrev first : SessionRecord
first = record {
  session_id = "s1";
  thread_id = some "t";
  fingerprint_id = "f";
  workspace_path = "/w/s1";
}

abbrev second : SessionRecord
second = record {
  session_id = "s2";
  thread_id = some "t";
  fingerprint_id = "f";
  workspace_path = "/w/s2";
}

abbrev changes : List Change
changes = save first ∷ save second ∷ remove "s1" ∷ []

abbrev dumps_id : SessionRecord → String
dumps_id r = r.session_id

abbrev loads_id : String → Option SessionRecord
loads_id s = if s == "s1" then some first else if s == "s2" then some second else none

-- the changes, a minute apart, in a store that keeps a session for a day
abbrev timed : List Timed
timed = (0, save first) ∷ (60, save second) ∷ (120, remove "s1") ∷ []

redis_get-get_example :
    redis_get dumps_id loads_id 86400 180 "s2"
      (foldl (redis_apply dumps_id loads_id 86400) [] timed)
    ≡ get "s2" (foldl apply [] (map (λ (c : Timed). c.1) timed))
redis_get-get_example =
    redis_get-get dumps_id loads_id 86400 180 timed "s2"
      (refl, omega arith, omega arith, (refl, omega arith, omega arith, (omega arith, tt)))

-- a day later the session is gone
expired :
    redis_get dumps_id loads_id 86400 86460 "s2"
      (foldl (redis_apply dumps_id loads_id 86400) [] timed)
    ≡ none
unfolding redis_get redis_apply
expired = refl

-- the first session's removal takes the thread away from the second
thread_lost : get "t" (foldl apply [] changes) ≡ none
unfolding get apply
thread_lost = refl

abbrev new_session : CreateSessionResponse
new_session = record { session_id = "s1"; fingerprint_id = "f"; workspace_path = "/w/s1" }

abbrev missing : HttpResponse
missing =
    http_exception_handler (λ j. "") "req_local" 404
      (detail "session_not_found" "Session not found")

abbrev invalid : HttpResponse
invalid = unhandled_exception false "req_local" "Session not found" value_error

abbrev dumps_two : Json → String
dumps_two j = if py_eq j missing.content then "1" else "2"

abbrev loads_two : String → Option Json
loads_two s = some (if s == "1" then missing.content else invalid.content)

error-Arrives_example :
    (handle_response loads_two (λ n. "404") 404 (text (dumps_two missing.content))
      ≡ raised (carried missing "session_not_found" "Session not found"))
    × (handle_response loads_two (λ n. "404") 400 (text (dumps_two invalid.content))
        ≡ raised (carried invalid "validation_error" "Session not found"))
unfolding http_exception_handler unhandled_exception py_eq size has_key
error-Arrives_example =
    error-Arrives dumps_two loads_two (λ n. "404") (λ j. "") "req_local" 404 "session_not_found"
      "Session not found" false value_error refl refl (refl, refl) (refl, refl)

abbrev lean_repo : Files
lean_repo p = some "leanprover/lean4:v4"

abbrev lean_env : EnvironmentFingerprint
lean_env = record {
  repo_id = "r";
  repo_url = none;
  commit_sha = "HEAD";
  lean_toolchain = "leanprover/lean4:v4";
  lakefile_hash = "h";
  manifest_hash = some "h";
}

abbrev bare_disk : Disk
bare_disk = record { snapshots = []; overlays = [] }

create_session-isolated_example :
    lookup "s2"
      (foldl
        (Isolated.happen (λ s. "h") (λ e. e.repo_id))
        (Isolated.happen
          (λ s. "h")
          (λ e. e.repo_id)
          (foldl
            (Isolated.happen (λ s. "h") (λ e. e.repo_id))
            (Isolated.happen
              (λ s. "h")
              (λ e. e.repo_id)
              bare_disk
              (Isolated.opened lean_repo "r" (some "HEAD") none))
            (Isolated.joined "r" "s1" ∷ Isolated.patched "s1" ("A.lean" ∷ []) "x" ∷ []))
          (Isolated.joined "r" "s2"))
        (Isolated.patched "s1" ("B.lean" ∷ []) "y" ∷ [])).overlays
    ≡ some lean_repo
unfolding build_from_repo strip lookup
create_session-isolated_example =
    Isolated.create_session-isolated (λ s. "h") (λ e. e.repo_id) lean_repo "r" (some "HEAD") none
      bare_disk lean_env (Isolated.joined "r" "s1" ∷ Isolated.patched "s1" ("A.lean" ∷ []) "x" ∷ [])
      (Isolated.patched "s1" ("B.lean" ∷ []) "y" ∷ []) "s2" refl refl refl

abbrev production_env : Env
production_env name =
    if name == "OBR_ENV"
    then some "production"
    else if name == "REVIEW_STORE" || name == "CHECKPOINTER"
    then some "postgres"
    else if name == "DATABASE_URL"
    then some "postgresql://db"
    else if name == "OBR_USE_REAL_AXIOM_AUDIT" || name == "OBR_USE_REAL_FRESH_CHECKER"
    then some "1"
    else none

assert_production_state-ready_example :
    (resolve_backend false "OBR_USE_REAL_AXIOM_AUDIT" production_env ≡ ok false)
    × ((not (is_strict production_env)
          || is_real (resolve_backend false "OBR_USE_REAL_FRESH_CHECKER" production_env))
        ≡ true)
    × (resolve_review_store production_env ≡ ReviewStoreMode.postgres)
unfolding assert_production_state strip lower
assert_production_state-ready_example = assert_production_state-ready production_env refl refl refl

abbrev production_setup : Setup
production_setup = record {
  env = production_env;
  test_transport = false;
  test_auditor = false;
  test_checker = true;
}

compute_capability_snapshot-resolves_test :
    let shown = compute_capability_snapshot production_setup in
    ((not (is_lean shown.lean_interactive) || is_ok (resolve_lean_transport production_setup))
      ≡ true)
    × ((not (is_there shown.axiom_audit)
          || is_ok (resolve_backend false "OBR_USE_REAL_AXIOM_AUDIT" production_env))
        ≡ true)
    × ((not (is_there shown.fresh_checker)
          || is_ok (resolve_backend true "OBR_USE_REAL_FRESH_CHECKER" production_env))
        ≡ true)
    × ((not (is_postgres shown.review_store) || is_postgres (resolve_review_store production_env))
        ≡ true)
compute_capability_snapshot-resolves_test = compute_capability_snapshot-resolves production_setup
