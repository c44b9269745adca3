-- ===== src/Gateway/Runners/Select.antt =====
-- apps/lean-gateway/lean_langchain_gateway/server/runner.py: which runner the environment selects
-- for a lane, and the pool that it is put in.
use lean_lang_chain.Common.{
  suc, String, Bool, Option, none, some, [], ◌∷◌, Result, ok, raise, runtime_error, ◌>>=◌, ◌==◌,
  if◌then◌else◌,
}
use lean_lang_chain.Json.{ℤ, pos}
use lean_lang_chain.Text.{strip, lower, parse_int}
use lean_lang_chain.Gateway.Runners.{
  Env, LeanRunner, local, container, microvm, firecracker, pool_limited, or_default,
}

-- a value of the environment that is set and not empty
abbrev pub set_text : Option String → Option String
set_text none = none
set_text (some v) = if v == "" then none else some v

-- `first or second`
abbrev or_else : Option String → Option String → Option String
or_else (some v) second = some v
or_else none second = second

abbrev worker_image : String
worker_image = "lean-worker:latest"

abbrev of_image : String → LeanRunner
of_image image = container image "docker"

-- `ContainerRunner.__init__` and `MicroVMRunner.__init__` replace an empty image
unfoldable pub container_of : Env → String → LeanRunner
container_of env image =
    if image == ""
    then of_image (or_default worker_image (env "OBR_DOCKER_IMAGE"))
    else of_image image

unfoldable pub microvm_image : Env → Bool → String
microvm_image env interactive = or_default worker_image (
    or_else (set_text (env "OBR_MICROVM_IMAGE")) (
      or_else (set_text (env "OBR_DOCKER_IMAGE"))
        (if interactive then set_text (env "OBR_INTERACTIVE_DOCKER_IMAGE") else none)))

abbrev pub script_runner : Option String → Result LeanRunner
script_runner none = raise runtime_error
script_runner (some script) = ok (firecracker (script ∷ []))

unfoldable pub of_runtime : Env → Bool → String → Result LeanRunner
unfolding microvm_image
of_runtime env interactive runtime =
    if runtime == "firecracker"
    then script_runner (set_text (env "OBR_MICROVM_FIRECRACKER_RUN"))
    else ok (microvm (microvm_image env interactive) "docker" runtime)

-- `_microvm_runner`
unfoldable pub microvm_runner : Env → Bool → Result LeanRunner
unfolding of_runtime
microvm_runner env interactive =
    of_runtime env interactive
      (lower (strip (or_default "runsc" (set_text (env "OBR_MICROVM_RUNTIME")))))

abbrev pub limited : LeanRunner → Option ℤ → LeanRunner
limited runner (some (pos (suc n))) = pool_limited runner (suc n)
limited runner _ = runner

-- `_maybe_pool_limit`
unfoldable pub maybe_pool_limit : Env → Bool → LeanRunner → LeanRunner
maybe_pool_limit env interactive runner =
    let key = if interactive then "OBR_INTERACTIVE_RUNNER_MAX" else "OBR_BATCH_RUNNER_MAX" in
    let raw = strip (or_default "" (env key)) in
    if raw == "" then runner else limited runner (parse_int raw)

unfoldable pub lane_image : Env → Bool → String
lane_image env interactive =
    or_default (or_default worker_image (env "OBR_DOCKER_IMAGE"))
      (if interactive then set_text (env "OBR_INTERACTIVE_DOCKER_IMAGE") else none)

unfoldable pub lane_kind : Env → Bool → String
lane_kind env interactive =
    or_default (or_default "local" (env "OBR_WORKER_RUNNER"))
      (set_text (env (if interactive then "OBR_INTERACTIVE_RUNNER" else "OBR_BATCH_RUNNER")))

unfoldable pub inner_runner : Env → Bool → String → Result LeanRunner
unfolding container_of lane_image microvm_runner
inner_runner env interactive kind =
    if kind == "container"
    then ok (container_of env (lane_image env interactive))
    else if kind == "microvm"
    then microvm_runner env interactive
    else ok local

-- `get_runner`; the lane is interactive or not
unfoldable pub get_runner : Env → Bool → Result LeanRunner
unfolding lane_kind inner_runner maybe_pool_limit
get_runner env interactive = do
  inner ← inner_runner env interactive (lane_kind env interactive)
  ok (maybe_pool_limit env interactive inner)
