-- ===== src/Gateway/Runners.antt =====
-- apps/lean-gateway/lean_langchain_gateway/server/runner.py: the runners and one run of each. What a
-- subprocess does, `json.loads` and the texts of exceptions are arguments; paths are resolved texts.
pub mod Exit
pub mod Pooled
pub mod Select
use Prim.Native.Nat.{◌/◌}
use Prim.Native.String.{◌++◌ as text_append}
use lean_lang_chain.Common.{
  ℕ, zero, suc, ◌+◌, String, Bool, true, false, Option, none, some, List, [], ◌∷◌, ◌++◌, Result, ok,
  raise, attribute_error, ◌==◌, if◌then◌else◌, ◌⊎◌, inl, inr,
}
use lean_lang_chain.Json.{ℤ, pos, negsuc, Json, null, bool, int, str, arr, obj, get_or}
use lean_lang_chain.Text.{strip, decimal, parse_int}
use lean_lang_chain.Gateway.Batch.Commands.{Process, ended, expired, os_error, Timeout}

-- `os.environ.get`
abbrev pub Env : Type 0
Env = String → Option String

-- the classes of runners; `base` is the script with the arguments that belong to it
pub data LeanRunner : Type 0 where
  local : LeanRunner
  container : (image docker_cmd : String) → LeanRunner
  microvm : (image docker_cmd runtime : String) → LeanRunner
  firecracker : (base : List String) → LeanRunner
  pool_limited : (inner : LeanRunner) (max_concurrent : ℕ) → LeanRunner

abbrev option_flag : String → (String → String) → Option String → List String
option_flag flag show none = []
option_flag flag show (some v) = flag ∷ show v ∷ []

abbrev pub or_default : String → Option String → String
or_default d none = d
or_default d (some v) = v

-- what stands before the image
unfoldable pub docker_flags : Env → String → String → Option String → List String
docker_flags env workspace docker_cmd runtime =
    (docker_cmd ∷ "run" ∷ [])
    ++ (option_flag "--runtime" (λ v. v) runtime
        ++ (("--rm"
              ∷ "--label"
              ∷ "obr=1"
              ∷ "-v"
              ∷ text_append workspace ":/workspace"
              ∷ "-w"
              ∷ "/workspace"
              ∷ [])
            ++ (("--network" ∷ or_default "none" (env "OBR_CONTAINER_NETWORK") ∷ [])
                ++ (option_flag "--memory" (λ v. text_append v "m") (env "OBR_CONTAINER_MEMORY_MB")
                    ++ option_flag "--cpus" (λ v. v) (env "OBR_CONTAINER_CPUS")))))

-- `_container_run_args`
unfoldable pub container_run_args :
    Env → String → String → List String → String → Option String → List String
unfolding docker_flags
container_run_args env workspace image command docker_cmd runtime =
    docker_flags env workspace docker_cmd runtime ++ (image ∷ command)

-- what `run` returns; the values of a Firecracker script's own JSON are not checked to be texts
pub record RunResult : Type 0 where
  pub stdout : Json
  pub stderr : Json
  pub returncode : ℤ
  pub timing_ms : ℕ

abbrev answer : String → String → ℤ → ℕ → RunResult
answer out err code t = record {
  stdout = str out;
  stderr = str err;
  returncode = code;
  timing_ms = t;
}

unfoldable pub subprocess_result : String → Timeout → Process → RunResult
subprocess_result what timeout (ended out err code t) = answer out err code t
subprocess_result what timeout expired =
    answer "" (text_append what (text_append timeout.shown "s")) (negsuc 0) timeout.ms
subprocess_result what timeout (os_error message t) = answer "" message (negsuc 0) t

-- `int(x)` with the text of its TypeError or ValueError on the left
unfoldable pub int_of : (Json → String) → Json → String ⊎ ℤ
unfolding parse_int
int_of fault (int n) = inr n
int_of fault (bool true) = inr (pos 1)
int_of fault (bool false) = inr (pos 0)
int_of fault (str s) = elim (parse_int s) [ some n ↦ inr n | none ↦ inl (fault (str s)) ]
int_of fault x = inl (fault x)

unfoldable pub invalid_output : String → ℕ → String → RunResult
invalid_output out t message =
    answer out (text_append "Invalid script output: " message) (negsuc 0) t

unfoldable pub script_code : String → ℕ → Json → Json → String ⊎ ℤ → RunResult
unfolding invalid_output
script_code out t stdout stderr (inl message) = invalid_output out t message
script_code out t stdout stderr (inr n) = record {
  stdout = stdout;
  stderr = stderr;
  returncode = n;
  timing_ms = t;
}

-- the JSON that the script printed, or the text of a JSONDecodeError
unfoldable pub script_data : (Json → String) → String → ℕ → String ⊎ Json → Result RunResult
unfolding script_code int_of invalid_output
script_data fault out t (inl message) = ok (invalid_output out t message)
script_data fault out t (inr (obj fs)) = ok (
    script_code out t (get_or "stdout" (str "") fs) (get_or "stderr" (str "") fs)
      (int_of fault (get_or "returncode" (int (negsuc 0)) fs)))
script_data fault out t (inr _) = raise attribute_error

abbrev pub is_zero : ℤ → Bool
is_zero (pos zero) = true
is_zero _ = false

abbrev or_text : String → String → String
or_text s d = if s == "" then d else s

unfoldable pub script_result :
    (String → String ⊎ Json) → (Json → String) → Timeout → Process → Result RunResult
unfolding script_data strip
script_result loads fault timeout (ended out err code t) =
    if is_zero code
    then script_data fault (strip out) t (loads (strip out))
    else ok (answer (strip out) (or_text (strip err) "Firecracker script failed") code t)
script_result loads fault timeout expired =
    ok (answer "" "Firecracker script exceeded timeout" (negsuc 0) timeout.ms)
script_result loads fault timeout (os_error message t) = ok (answer "" message (negsuc 0) t)

-- `subprocess.run`: the directory where one is given, the arguments, the milliseconds allowed
abbrev pub Spawn : Type 0
Spawn = Option String → List String → ℕ → Process

-- the process that a run of the runner starts
unfoldable pub spawned : Env → Spawn → LeanRunner → String → List String → Timeout → Process
unfolding container_run_args decimal
spawned env spawn local ws cmd timeout = spawn (some ws) cmd timeout.ms
spawned env spawn (container image docker) ws cmd timeout =
    spawn none (container_run_args env ws image cmd docker none) timeout.ms
spawned env spawn (microvm image docker runtime) ws cmd timeout =
    spawn none (container_run_args env ws image cmd docker (some runtime)) timeout.ms
spawned env spawn (firecracker base) ws cmd timeout =
    spawn (some ws) (base ++ (ws ∷ decimal (timeout.ms / 1000) ∷ cmd)) (timeout.ms + 10000)
spawned env spawn (pool_limited inner n) ws cmd timeout = spawned env spawn inner ws cmd timeout

-- what `run` makes of that process
unfoldable pub result_of :
    (String → String ⊎ Json) → (Json → String) → LeanRunner → Timeout → Process → Result RunResult
unfolding subprocess_result script_result
result_of loads fault local timeout p = ok (subprocess_result "Run exceeded " timeout p)
result_of loads fault (container image docker) timeout p =
    ok (subprocess_result "Container run exceeded " timeout p)
result_of loads fault (microvm image docker runtime) timeout p =
    ok (subprocess_result "MicroVM run exceeded " timeout p)
result_of loads fault (firecracker base) timeout p = script_result loads fault timeout p
result_of loads fault (pool_limited inner n) timeout p = result_of loads fault inner timeout p

-- `run`, the method of each class
unfoldable pub run :
    Env
    → Spawn
    → (String → String ⊎ Json)
    → (Json → String)
    → LeanRunner
    → String
    → List String
    → Timeout
    → Result RunResult
unfolding spawned result_of
run env spawn loads fault runner ws cmd timeout =
    result_of loads fault runner timeout (spawned env spawn runner ws cmd timeout)
