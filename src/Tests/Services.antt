-- ===== src/Tests/Services.antt =====
-- The theorems of the language server's cache, the workspaces, the session store, the client and the
-- configuration at concrete values.
use mathlib.Core.List.{foldl}
use lean_lang_chain.Common.{
  zero, suc, ℕ, ◌≤◌, String, ◌≡◌, refl, true, false, ◌&&◌, Option, none, some, List, [], ◌∷◌,
  length, is_some, ◌==◌, if◌then◌else◌, arith,
}
use lean_lang_chain.Json.{Fields, obj, end, field}
use lean_lang_chain.Gateway.Map.{lookup, store}
use lean_lang_chain.Gateway.Lsp.{
  Alive, Client, max_size, get_or_create, start_lsp, Startup, message, silent, unreadable,
  process_of,
}
use lean_lang_chain.Gateway.Lsp.Bound.{Request, get, use_again, handle, handle_all-le}
use lean_lang_chain.Gateway.Lsp.Served.{IsServed, get_or_create-IsServed}
use lean_lang_chain.Gateway.Lsp.Requests.{run_check}
use lean_lang_chain.Gateway.Lsp.Evicted.{accounted}
use lean_lang_chain.Gateway.Lsp.Stopped.{get_or_create-accounted}
use lean_lang_chain.Gateway.Interactive.{Report, check_interactive}
use lean_lang_chain.Gateway.Interactive.Unreported.{check_interactive-empty}
use lean_lang_chain.Gateway.Sessions.{SessionLease, Sessions, get_lease}
use lean_lang_chain.Gateway.Files.{Files, Resolve, is_under, apply_patch}
use lean_lang_chain.Gateway.Files.Inside.{apply_patch-Outside}

-- a process that starts and answers
abbrev started : ℕ → Startup
started p = record {
  popen = some p;
  first_write = true;
  reply = message (field "result" (obj end) end);
  ends_in_time = true;
  second_write = true;
}

abbrev all_alive : Alive
all_alive p = true

-- nine workspaces ask for a process
abbrev nine : List Request
nine =
    get all_alive "a" 1 (started 1)
    ∷ get all_alive "b" 2 (started 2)
    ∷ get all_alive "c" 3 (started 3)
    ∷ get all_alive "d" 4 (started 4)
    ∷ get all_alive "e" 5 (started 5)
    ∷ get all_alive "f" 6 (started 6)
    ∷ get all_alive "g" 7 (started 7)
    ∷ get all_alive "h" 8 (started 8)
    ∷ use_again "a" 9
    ∷ get all_alive "i" 10 (started 9)
    ∷ []

abbrev no_client : Client
no_client = record { cache = []; terminated = [] }

handle_all-le_example : length (foldl handle no_client nine).cache ≤ max_size
handle_all-le_example = handle_all-le nine no_client (omega arith)

-- the least recently used process is ended
evicted : (foldl handle no_client nine).terminated ≡ 2 ∷ []
unfolding handle get_or_create lookup store
evicted = refl

abbrev two_servers : Client
two_servers = record {
  cache =
      ("a", record { proc = 1; last_used = 4 }) ∷ ("b", record { proc = 2; last_used = 5 }) ∷ [];
  terminated = [];
}

abbrev one_dead : Alive
one_dead p = elim p [ zero ↦ true | suc n ↦ elim n [ zero ↦ false | suc m ↦ true ] ]

get_or_create-IsServed_example :
    IsServed one_dead "a" 6
      (process_of (start_lsp (started 3)).0)
      (get_or_create one_dead "a" 6 (started 3) two_servers)
get_or_create-IsServed_example = get_or_create-IsServed one_dead "a" 6 (started 3) two_servers

-- a process that answers nothing is ended
abbrev silent_start : Startup
silent_start = record (started 3) { reply = silent }

get_or_create-accounted_example :
    accounted "a" 3 (get_or_create one_dead "a" 6 silent_start two_servers).1 ≡ true
unfolding lookup get_or_create
get_or_create-accounted_example =
    get_or_create-accounted one_dead 3 "a" "a" 6 silent_start two_servers refl refl

-- a process whose first message is no JSON is neither in the cache nor ended
left_running :
    accounted "a" 3
      (get_or_create one_dead "a" 6 (record (started 3) { reply = unreadable }) two_servers).1
    ≡ false
unfolding lookup get_or_create
left_running = refl

abbrev lease : SessionLease
lease = record {
  session_id = "s";
  fingerprint_id = "f";
  workspace_path = "/w/s";
  started_at = 0;
  last_used_at = 0;
}

abbrev one_session : Sessions
one_session = ("s", lease) ∷ []

-- the server publishes nothing
abbrev silence : List (Option Fields)
silence = none ∷ []

abbrev silent_report : Report
silent_report = record { passed = true; diagnostics = []; goals = []; timing_ms = 3 }

check_interactive-empty_example :
    (silent_report.diagnostics ≡ []) × (silent_report.passed ≡ (is_some {A = ℕ} (some 1) && true))
unfolding check_interactive lookup store run_check
check_interactive-empty_example =
    check_interactive-empty (λ fs. true) (λ fs. true) (some 1) true silence 9 3 "s" "A.lean"
      one_session {report = silent_report} refl refl

-- two dots go up
abbrev resolve_up : Resolve
resolve_up root rel = if rel == "../x" then "w" ∷ "x" ∷ [] else "w" ∷ "s" ∷ rel ∷ []

abbrev no_files : Files
no_files p = none

abbrev escaping : List (String × String)
escaping = ("A.lean", "def a := 1") ∷ ("../x", "oops") ∷ []

abbrev resolve_workspace : Resolve
resolve_workspace root rel = if rel == "" then "w" ∷ "s" ∷ [] else resolve_up root rel

apply_patch-Outside_example :
    (apply_patch resolve_workspace (λ l. l) (λ s. s) one_session "s" escaping no_files).1
      ("w" ∷ "x" ∷ [])
    ≡ none
unfolding get_lease is_under lookup
apply_patch-Outside_example =
    apply_patch-Outside resolve_workspace (λ l. l) (λ s. s) "s" ("w" ∷ "x" ∷ []) one_session
      escaping no_files refl
