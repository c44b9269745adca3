-- ===== src/Gateway/Runners/Exit.antt =====
-- The runs of server/runner.py that report the exit code zero.
use lean_lang_chain.Common.{String, ◌≡◌, true, List, ok, ◌⊎◌, ok-injective, arith, ap, ◌∙◌}
use lean_lang_chain.Json.{Json}
use lean_lang_chain.Gateway.Batch.Commands.{Process, ended, expired, os_error, Timeout, exits_zero}
use lean_lang_chain.Gateway.Runners.{
  Env, Spawn, LeanRunner, local, container, microvm, firecracker, pool_limited, RunResult, is_zero,
  subprocess_result, script_result, spawned, result_of, run,
}

subprocess-zero :
    (what : String) (timeout : Timeout) (p : Process)
    → is_zero (subprocess_result what timeout p).returncode ≡ true
    → exits_zero p ≡ true
unfolding subprocess_result
subprocess-zero what timeout (ended out err code t) h = h
subprocess-zero what timeout expired h = cc
subprocess-zero what timeout (os_error message t) h = cc

module _ (loads : String → String ⊎ Json) (fault : Json → String) (timeout : Timeout) where
  script-zero :
      (p : Process) {r : RunResult}
      → script_result loads fault timeout p ≡ ok r
      → is_zero r.returncode ≡ true
      → exits_zero p ≡ true
  unfolding script_result
  script-zero (ended out err code t) e z = ground arith
  script-zero expired e z = cc
  script-zero (os_error message t) e z = cc

  of_subprocess :
      (what : String) (p : Process) {r : RunResult}
      → ok (subprocess_result what timeout p) ≡ ok r
      → is_zero r.returncode ≡ true
      → exits_zero p ≡ true
  of_subprocess what p e z =
      subprocess-zero what timeout p (ap (λ q. is_zero q.returncode) (ok-injective e) ∙ z)

  result_of-zero :
      (runner : LeanRunner) (p : Process) {r : RunResult}
      → result_of loads fault runner timeout p ≡ ok r
      → is_zero r.returncode ≡ true
      → exits_zero p ≡ true
  unfolding result_of
  result_of-zero local p e z = of_subprocess "Run exceeded " p e z
  result_of-zero (container image docker) p e z = of_subprocess "Container run exceeded " p e z
  result_of-zero (microvm image docker runtime) p e z = of_subprocess "MicroVM run exceeded " p e z
  result_of-zero (firecracker base) p e z = script-zero p e z
  result_of-zero (pool_limited inner n) p e z = result_of-zero inner p e z

  -- A run, by any runner, that reports the exit code zero started a process that ended in time with
  -- the exit code zero: neither a timeout, nor a missing program, nor an output that is no JSON is
  -- reported as success.
  pub run-zero :
      (env : Env) (spawn : Spawn) (runner : LeanRunner) (ws : String) (cmd : List String)
      {r : RunResult}
      → run env spawn loads fault runner ws cmd timeout ≡ ok r
      → is_zero r.returncode ≡ true
      → exits_zero (spawned env spawn runner ws cmd timeout) ≡ true
  unfolding run
  run-zero env spawn runner ws cmd e z =
      result_of-zero runner (spawned env spawn runner ws cmd timeout) e z
