-- ===== src/Gateway/Health.antt =====
-- apps/lean-gateway/lean_langchain_gateway/api/routes_health.py, with the request counters of
-- api/routes_metrics.py and the origins of api/app.py. `reachable` is check_connection on an address, false
-- where it raises.
pub mod Answers
use lean_lang_chain.Common.{
  ℕ, String, Bool, true, false, not, ◌&&◌, ◌||◌, Option, none, some, List, [], ◌∷◌, ◌==◌,
  if◌then◌else◌, ltb,
}
use lean_lang_chain.Json.{Json, Fields, bool, str, arr, obj, end, field, set, update}
use lean_lang_chain.Policy.Events.{texts}
use lean_lang_chain.Text.{strip, lower}
use lean_lang_chain.Text.Lines.{split}
use lean_lang_chain.Gateway.Runners.{Env, or_default}
use lean_lang_chain.Config.{
  is_set, says_yes, Setup, Snapshot, compute_capability_snapshot, LeanMode, BackendMode,
  ReviewStoreMode,
}

-- what a probe answers
pub record Probe : Type 0 where
  pub status : ℕ
  pub body : Fields

abbrev lean_text : LeanMode → String
lean_text LeanMode.real_lsp = "real_lsp"
lean_text LeanMode.real_subprocess = "real_subprocess"
lean_text LeanMode.test_injected = "test_injected"
lean_text LeanMode.unconfigured = "unconfigured"

abbrev backend_text : BackendMode → String
backend_text BackendMode.real = "real"
backend_text BackendMode.test_injected = "test_injected"
backend_text BackendMode.unconfigured = "unconfigured"

abbrev store_text : ReviewStoreMode → String
store_text ReviewStoreMode.postgres = "postgres"
store_text ReviewStoreMode.memory = "memory"

-- `_cap_block`, as it is dumped
unfoldable pub cap_block : Snapshot → Json
cap_block snap = obj (
    field "lean_interactive" (str (lean_text snap.lean_interactive)) (
      field "axiom_audit" (str (backend_text snap.axiom_audit)) (
        field "fresh_checker" (str (backend_text snap.fresh_checker))
          (field "review_store" (str (store_text snap.review_store)) end))))

unfoldable pub health : String → Setup → Probe
unfolding compute_capability_snapshot cap_block
health version s =
    let snap = compute_capability_snapshot s in
    record {
      status = 200;
      body = field "status" (str "ok") (
          field "version" (str version)
            (field "degraded" (bool snap.degraded) (field "capabilities" (cap_block snap) end)));
    }

-- the address of the database of the reviews: the first is taken as it is, the second without blanks
unfoldable pub review_uri : Env → String
review_uri env =
    if is_set (env "REVIEW_STORE_POSTGRES_URI")
    then or_default "" (env "REVIEW_STORE_POSTGRES_URI")
    else strip (or_default "" (env "DATABASE_URL"))

-- `_ready_check`: whether the probe finds the database that it needs
unfoldable pub ready_check : (reachable : String → Bool) → Env → Bool
unfolding review_uri
ready_check reachable env =
    if not (or_default "" (env "REVIEW_STORE") == "postgres")
    then true
    else if review_uri env == ""
    then true
    else reachable (review_uri env)

-- `_fail_on_degraded`
unfoldable pub fail_on_degraded : Env → Bool
fail_on_degraded env = says_yes (lower (strip (or_default "" (env "OBR_READY_FAIL_ON_DEGRADED"))))

-- GatewayReadyOkResponse, as it is dumped
unfoldable pub ok_body : String → Snapshot → Fields
unfolding cap_block texts
ok_body version snap = field "status" (str "ready") (
    field "version" (str version) (
      field "degraded" (bool snap.degraded) (
        field "degraded_reasons" (arr (texts snap.degraded_reasons))
          (field "capabilities" (cap_block snap) end))))

-- the answer to a snapshot: whether degraded capabilities fail the probe, and whether it finds its
-- database
unfoldable pub ready_answer : (fails_degraded is_ready : Bool) → String → Snapshot → Probe
unfolding ok_body update
ready_answer fails_degraded is_ready version snap =
    if fails_degraded && snap.degraded
    then record {
      status = 503;
      body = field "status" (str "not_ready") (
          field "reason" (str "degraded_capabilities")
            (field "details" (obj (ok_body version snap)) end));
    }
    else if not is_ready
    then record {
      status = 503;
      body =
          update
            (field "status" (str "not_ready") (field "reason" (str "database_unavailable") end))
            (ok_body version snap);
    }
    else record { status = 200; body = ok_body version snap }

unfoldable pub ready : (reachable : String → Bool) → String → Setup → Probe
unfolding ready_answer ready_check fail_on_degraded compute_capability_snapshot
ready reachable version s =
    ready_answer (fail_on_degraded s.env) (ready_check reachable s.env) version
      (compute_capability_snapshot s)

-- `_status_class` of routes_metrics.py
unfoldable pub status_class : ℕ → String
status_class code = if ltb code 400 then "2xx" else if ltb code 500 then "4xx" else "5xx"

-- `[o.strip() for o in … if o.strip()]`
unfoldable pub stripped : List String → List String
stripped [] = []
stripped (o ∷ os) = let rest = stripped os in if strip o == "" then rest else strip o ∷ rest

-- `_cors_origins` of app.py
unfoldable pub cors_origins : Env → List String
unfolding split stripped
cors_origins env = stripped (split b',' (or_default "" (env "OBR_CORS_ORIGINS")))

-- `_request_id` of a request with the header, and a fresh identifier where it has none
unfoldable pub request_id : (header : Option String) → (fresh : String) → String
request_id none fresh = fresh
request_id (some id) fresh = if id == "" then fresh else id
