-- ===== src/Tests/Answers.antt =====
-- The theorems of the resume handler, the webhooks and the axiom audit at concrete values.
use lean_lang_chain.Common.{
  ℕ, zero, suc, ◌≤◌, String, ◌≡◌, true, not, ◌&&◌, Option, none, some, List, [], ◌∷◌, ◌==◌,
  if◌then◌else◌, length, is_some,
}
use lean_lang_chain.Json.{pos}
use lean_lang_chain.Text.{strip, lower}
use lean_lang_chain.Gateway.Runners.{Env, or_default}
use lean_lang_chain.Gateway.Batch.Commands.{Process, ended, Timeout, exits_zero, local_run}
use lean_lang_chain.Gateway.Batch.Audit.{HasVerdict, run_audit, run_audit-HasVerdict}
use lean_lang_chain.Gateway.Webhooks.{
  emit_event, first_success, attempts_up_to, retries, emit_event_lem,
}
use lean_lang_chain.Orchestrator.{Packages, get_checkpointer, resume}
use lean_lang_chain.Orchestrator.Answers.{resume_answer, resume-answers}
use lean_lang_chain.Tests.Samples.{deps}

abbrev all_packages : Packages
all_packages = record { has_postgres = true; has_memory = true; has_langgraph = true }

abbrev hook_env : Env
hook_env name = if name == "OBR_WEBHOOK_URL" then some "http://hook" else none

resume-answers_example : resume deps hook_env all_packages "no langgraph" "t1" " Rejected" [] ≡ (
  resume_answer
      (is_some (get_checkpointer hook_env all_packages))
      none
      "t1"
      (lower (strip " Rejected")),
  [],
)
resume-answers_example =
    resume-answers deps "t1" [] hook_env all_packages "no langgraph" " Rejected"

-- the second attempt succeeds
abbrev second_time : ℕ → Option ℕ
second_time zero = none
second_time (suc n) = some 204

emit_event_lem_example :
    let d = emit_event hook_env second_time in
    let has_address = not (strip (or_default "" (hook_env "OBR_WEBHOOK_URL")) == "") in
    (d.delivered ≡ (has_address && is_some (first_success second_time (suc retries) 0)))
    × (length d.attempts ≡ (
        if has_address
        then attempts_up_to (first_success second_time (suc retries) 0) (suc retries) 0
        else 0))
    × (d.waited ≤ 3)
emit_event_lem_example = emit_event_lem hook_env second_time

abbrev lists_sorry : String → List String → Process
lists_sorry workspace command = ended "main: sorryAx\n" "" (pos 0) 5

abbrev minute : Timeout
minute = record { shown = "60.0"; ms = 60000 }

run_audit-HasVerdict_example :
    HasVerdict
      (exits_zero (lists_sorry "/w" ("lake" ∷ "build" ∷ [])))
      (run_audit none lists_sorry ("lake" ∷ "build" ∷ []) minute "/w")
    × HasVerdict
        (exits_zero (lists_sorry "/w" ("lake" ∷ "build" ∷ [])))
        (run_audit (some (local_run lists_sorry)) lists_sorry ("lake" ∷ "build" ∷ []) minute "/w")
run_audit-HasVerdict_example = run_audit-HasVerdict lists_sorry ("lake" ∷ "build" ∷ []) minute "/w"
