-- ===== src/Gateway/Interactive.antt =====
-- apps/lean-gateway/lean_langchain_gateway/server/interactive_api.py, transport.py and normalizers.py:
-- an interactive check, from the session to the normalized report. The limit on the time of a check is
-- left out. `well_typed` and `goal_typed` say which fields the models Diagnostic and GoalSnapshot
-- accept beside the fields with a fixed set of values, which are checked here.
pub mod Numbered
pub mod Unreported
use lean_lang_chain.Common.{
  ℕ, String, Bool, true, false, not, ◌&&◌, ◌||◌, Option, none, some, List, [], ◌∷◌, Result, ok,
  raise, value_error, ◌>>=◌, if◌then◌else◌,
}
use lean_lang_chain.Json.{
  ℤ, pos, Json, Fields, null, int, str, end, field, get, get_or, is_str, truthy,
}
use lean_lang_chain.Gateway.Map.{lookup, store}
use lean_lang_chain.Gateway.Sessions.{
  SessionLease, Sessions, register, get_lease, Worker, WorkerPool, acquire,
}
use lean_lang_chain.Gateway.Runners.{RunResult, is_zero}
use lean_lang_chain.Gateway.Lsp.Requests.{Checked}

-- the values of `Diagnostic.severity`
abbrev pub is_severity : Json → Bool
is_severity j = is_str "error" j || is_str "warning" j || is_str "information" j || is_str "hint" j

-- the values of `GoalSnapshot.kind`
abbrev pub is_goal_kind : Json → Bool
is_goal_kind j = is_str "plainGoal" j || is_str "plainTermGoal" j

-- the arguments that the normalizer gives to `Diagnostic`
unfoldable pub diagnostic_fields : Fields → Fields
unfolding get_or
diagnostic_fields item = field "severity" (get_or "severity" (str "error") item) (
    field "file" (get_or "file" (str "") item) (
      field "line" (get_or "line" (int (pos 1)) item) (
        field "column" (get_or "column" (int (pos 1)) item) (
          field "end_line" (get "endLine" item) (
            field "end_column" (get "endColumn" item) (
              field "code" (get "code" item) (
                field "message" (get_or "message" (str "") item)
                  (field "source" (get_or "source" (str "lean") item) end))))))))

unfoldable pub goal_fields : Fields → Fields
unfolding get_or
goal_fields item = field "kind" (get_or "kind" (str "plainGoal") item) (
    field "text" (get_or "text" (str "") item) (
      field "file" (get "file" item)
        (field "line" (get "line" item) (field "column" (get "column" item) end))))

-- a model's constructor: it raises ValidationError, a ValueError, on fields that it does not accept
abbrev pub validated : (Fields → Bool) → Fields → Result Fields
validated accepts fs = if accepts fs then ok fs else raise value_error

unfoldable pub normalized : (Fields → Bool) → (Fields → Fields) → List Fields → Result (List Fields)
normalized accepts build [] = ok []
normalized accepts build (item ∷ items) = do
  first ← validated accepts (build item)
  rest ← normalized accepts build items
  ok (first ∷ rest)

pub record Report : Type 0 where
  pub passed : Bool
  pub diagnostics : List Fields
  pub goals : List Fields
  pub timing_ms : ℕ

-- how the Lean process of a session is asked: not at all, by a build with a runner, or by the
-- language server
pub data Transport : Type 0 where
  test_double : Transport
  lake_build : (run_in : String → Result RunResult) → Transport
  language_server : (run_check : String → String → Result Checked) → Transport

unfoldable pub of_build : RunResult → Checked
unfolding truthy
of_build r =
    if not (is_zero r.returncode) && truthy r.stderr
    then record {
      diagnostics = field "message" r.stderr end ∷ [];
      goals = [];
      passed = is_zero r.returncode;
    }
    else record { diagnostics = []; goals = []; passed = is_zero r.returncode }

-- `check` of each transport
unfoldable pub transport_check : Transport → Sessions → String → String → Result Checked
unfolding of_build get_lease
transport_check test_double s session file =
    ok (record { diagnostics = []; goals = []; passed = true })
transport_check (lake_build run_in) s session file = do
  lease ← get_lease session s
  r ← run_in lease.workspace_path
  ok (of_build r)
transport_check (language_server run_check) s session file = do
  lease ← get_lease session s
  run_check lease.workspace_path file

module _ (well_typed goal_typed : Fields → Bool) where
  abbrev pub accepts_diagnostic : Fields → Bool
  accepts_diagnostic fs = is_severity (get "severity" fs) && well_typed fs

  abbrev pub accepts_goal : Fields → Bool
  accepts_goal fs = is_goal_kind (get "kind" fs) && goal_typed fs

  -- `InteractiveNormalizer.result`
  unfoldable pub normalize : Checked → ℕ → Result Report
  unfolding normalized diagnostic_fields goal_fields get_or
  normalize c elapsed = do
    ds ← normalized accepts_diagnostic diagnostic_fields c.diagnostics
    gs ← normalized accepts_goal goal_fields c.goals
    ok (record { passed = c.passed; diagnostics = ds; goals = gs; timing_ms = elapsed })

  -- the check of a session that is there
  unfoldable pub check_lease :
      Transport
      → ℕ
      → ℕ
      → String
      → String
      → Sessions
      → Result SessionLease
      → Result Report × Sessions
  unfolding normalize transport_check store
  check_lease transport now elapsed session file s (raise e) = (raise e, s)
  check_lease transport now elapsed session file s (ok lease) =
      let s' = store session (record lease { last_used_at = now }) s in
      (transport_check transport s' session file >>= λ c. normalize c elapsed, s')

  -- `InteractiveAPI.check_interactive`; the lease is marked as used
  unfoldable pub check_interactive :
      Transport → ℕ → ℕ → String → String → Sessions → Result Report × Sessions
  unfolding check_lease get_lease
  check_interactive transport now elapsed session file s =
      check_lease transport now elapsed session file s (get_lease session s)

-- `InteractiveAPI.open_session`; the worker that the pool hands out is not used
unfoldable pub open_session :
    String
    → String
    → String
    → ℕ
    → String
    → Sessions
    → WorkerPool
    → SessionLease × (Sessions × WorkerPool)
unfolding register acquire
open_session session fingerprint workspace now fresh s pool =
    let lease : SessionLease = record {
      session_id = session;
      fingerprint_id = fingerprint;
      workspace_path = workspace;
      started_at = now;
      last_used_at = now;
    } in
    (lease, (register lease s, (acquire fingerprint workspace now fresh pool).1))
