-- ===== src/Gateway/Batch/Commands.antt =====
-- apps/lean-gateway/lean_langchain_gateway: LocalRunner of server/runner.py, batch/build_runner.py,
-- batch/fresh_checker.py, and the test double of batch/axiom_audit.py.
use Prim.Native.String.{◌++◌ as text_append}
use lean_lang_chain.Common.{
  zero, ℕ, String, ◌≡◌, refl, Bool, true, false, Option, none, some, List, [], ◌∷◌,
}
use lean_lang_chain.Json.{ℤ, pos, negsuc}
use lean_lang_chain.Policy.Decision.{Trust}
use lean_lang_chain.Gateway.Batch.{CommandResult, AxiomAuditResult}

-- what `subprocess.run` does: it ends, takes too long, or cannot start
pub data Process : Type 0 where
  ended : (stdout stderr : String) (code : ℤ) (elapsed_ms : ℕ) → Process
  expired : Process
  os_error : (message : String) (elapsed_ms : ℕ) → Process

-- a number of seconds, as Python prints it, and in milliseconds
pub record Timeout : Type 0 where
  pub shown : String
  pub ms : ℕ

pub record RunOutput : Type 0 where
  pub stdout : String
  pub stderr : String
  pub returncode : ℤ
  pub timing_ms : ℕ

-- a LeanRunner: the workspace, the command and the timeout
abbrev pub Runner : Type 0
Runner = String → List String → Timeout → RunOutput

abbrev exceeded : String → Timeout → String
exceeded what timeout = text_append what (text_append timeout.shown "s")

local_output : Timeout → Process → RunOutput
local_output timeout (ended out err code t) = record {
  stdout = out;
  stderr = err;
  returncode = code;
  timing_ms = t;
}
local_output timeout expired = record {
  stdout = "";
  stderr = exceeded "Run exceeded " timeout;
  returncode = negsuc 0;
  timing_ms = timeout.ms;
}
local_output timeout (os_error message t) = record {
  stdout = "";
  stderr = message;
  returncode = negsuc 0;
  timing_ms = t;
}

-- `spawn` is `subprocess.run` in a directory
unfoldable pub local_run : (String → List String → Process) → Runner
unfolding local_output
local_run spawn workspace command timeout = local_output timeout (spawn workspace command)

abbrev is_zero : ℤ → Bool
is_zero (pos zero) = true
is_zero _ = false

abbrev of_output : List String → RunOutput → CommandResult
of_output command r = record {
  success = is_zero r.returncode;
  command = command;
  stdout = r.stdout;
  stderr = r.stderr;
  timing_ms = r.timing_ms;
}

-- `BuildRunner.run`
unfoldable pub run_build : Runner → Timeout → String → CommandResult
run_build runner timeout workspace =
    of_output ("lake" ∷ "build" ∷ []) (runner workspace ("lake" ∷ "build" ∷ []) timeout)

fresh_result : List String → Timeout → Process → CommandResult
fresh_result command timeout (ended out err code t) = record {
  success = is_zero code;
  command = command;
  stdout = out;
  stderr = err;
  timing_ms = t;
}
fresh_result command timeout expired = record {
  success = false;
  command = command;
  stdout = "";
  stderr = exceeded "Fresh check exceeded " timeout;
  timing_ms = timeout.ms;
}
fresh_result command timeout (os_error message t) = record {
  success = false;
  command = command;
  stdout = "";
  stderr = message;
  timing_ms = t;
}

-- `FreshCheckerReal.run`, with its optional runner
unfoldable pub run_fresh :
    Option Runner
    → (String → List String → Process)
    → List String
    → Timeout
    → String
    → CommandResult
unfolding fresh_result
run_fresh (some runner) spawn command timeout workspace =
    of_output command (runner workspace command timeout)
run_fresh none spawn command timeout workspace =
    fresh_result command timeout (spawn workspace command)

-- `FreshChecker.run` and `AxiomAuditor.run`, the test doubles
unfoldable pub fresh_double : CommandResult
fresh_double = record {
  success = true;
  command = "lean4checker" ∷ "--fresh" ∷ [];
  stdout = "";
  stderr = "";
  timing_ms = 0;
}

unfoldable pub audit_double : AxiomAuditResult
audit_double = record {
  success = true;
  trust_level = Trust.clean;
  blocked_reasons = "axiom_audit_stub_unconfigured" ∷ [];
  dependencies = [];
}

-- the process ended, with the exit code zero
abbrev pub exits_zero : Process → Bool
exits_zero (ended out err code t) = is_zero code
exits_zero _ = false

build-success :
    (timeout : Timeout) (p : Process) → is_zero (local_output timeout p).returncode ≡ exits_zero p
unfolding local_output
build-success timeout (ended out err code t) = refl
build-success timeout expired = refl
build-success timeout (os_error message t) = refl

fresh-success :
    (command : List String) (timeout : Timeout) (p : Process)
    → (fresh_result command timeout p).success ≡ exits_zero p
unfolding fresh_result
fresh-success command timeout (ended out err code t) = refl
fresh-success command timeout expired = refl
fresh-success command timeout (os_error message t) = refl

-- With a local runner, a build or a fresh check passes exactly when its process ends with the exit code
-- zero, whether the fresh check has that runner or none: a timeout and a missing binary never
-- pass.
pub commands-success :
    (spawn : String → List String → Process) (command : List String) (timeout : Timeout)
    (workspace : String)
    → ((run_build (local_run spawn) timeout workspace).success
        ≡ exits_zero (spawn workspace ("lake" ∷ "build" ∷ [])))
      × ((run_fresh none spawn command timeout workspace).success
          ≡ exits_zero (spawn workspace command))
      × ((run_fresh (some (local_run spawn)) spawn command timeout workspace).success
          ≡ exits_zero (spawn workspace command))
unfolding run_build run_fresh local_run
commands-success spawn command timeout workspace = (
  build-success timeout (spawn workspace ("lake" ∷ "build" ∷ [])),
  fresh-success command timeout (spawn workspace command),
  build-success timeout (spawn workspace command),
)
