-- ===== src/Tests/Servers.antt =====
-- The theorems of the runners, the language server, the workspaces, the session store and the client at
-- concrete values.
use lean_lang_chain.Common.{
  ◌≤◌, String, ◌≡◌, refl, true, false, none, some, List, [], ◌∷◌, inr, ◌⊎◌, ◌==◌, if◌then◌else◌,
}
use lean_lang_chain.Json.{get_or, Json, pos, int, obj, end, field}
use lean_lang_chain.Text.{strip, parse_int}
use lean_lang_chain.Gateway.Batch.Commands.{ended, Timeout, exits_zero}
use lean_lang_chain.Gateway.Runners.{
  Env, Spawn, LeanRunner, local, firecracker, pool_limited, run, spawned,
}
use lean_lang_chain.Gateway.Runners.Exit.{run-zero}
use lean_lang_chain.Gateway.Runners.Select.{get_runner, maybe_pool_limit}
use lean_lang_chain.Gateway.Slots.{
  Phase, idle, waiting, Slots, initial, call, Reach, here, next, running_count,
}
use lean_lang_chain.Gateway.Slots.Bound.{running-le-max}
use lean_lang_chain.Gateway.Slots.Progress.{CanRun, pool-CanRun}

abbrev minute : Timeout
minute = record { shown = "60.0"; ms = 60000 }

-- a script that prints its result as JSON, and a program that ends
abbrev spawn_script : Spawn
spawn_script cwd command allowed = ended " {} " "" (pos 0) 7

abbrev loads_result : String → String ⊎ Json
loads_result s = inr (obj (field "returncode" (int (pos 0)) end))

abbrev pooled_script : LeanRunner
pooled_script = pool_limited (firecracker ("vm.sh" ∷ [])) 2

abbrev no_env : Env
no_env name = none

run-zero_test :
    exits_zero (spawned no_env spawn_script pooled_script "/w" ("lake" ∷ "build" ∷ []) minute)
    ≡ true
unfolding run get_or
run-zero_test =
    run-zero loads_result (λ j. "") minute no_env spawn_script pooled_script "/w"
      ("lake" ∷ "build" ∷ []) refl refl

-- a pool of two, with three threads
abbrev three : List Phase
three = idle ∷ waiting ∷ idle ∷ []

abbrev after_call : Slots
after_call = record { free = 2; threads = waiting ∷ waiting ∷ idle ∷ [] }

abbrev reached : Reach (initial 2 three) after_call
reached = next here (call (initial 2 three) 0 refl)

running-le-max_example : running_count after_call.threads ≤ 2
running-le-max_example = running-le-max 2 three refl reached

abbrev pool_env : Env
pool_env name = if name == "OBR_BATCH_RUNNER_MAX" then some " 2 " else none

pool-CanRun_example : CanRun after_call 1
unfolding get_runner maybe_pool_limit strip parse_int
pool-CanRun_example = pool-CanRun pool_env false local 2 three after_call 1 refl refl reached refl
