-- ===== src/Gateway/Batch/Audit.antt =====
-- apps/lean-gateway/lean_langchain_gateway/batch/axiom_audit.py: AxiomAuditorReal and the parser of its
-- output.
use Prim.Native.String.{◌++◌ as text_append}
use lean_lang_chain.Common.{
  zero, String, ◌≡◌, refl, Bool, true, false, Option, none, some, List, [], ◌∷◌, ◌++◌, map,
  is_empty, ◌==◌, if◌then◌else◌, arith,
}
use lean_lang_chain.Json.{ℤ, pos}
use lean_lang_chain.Text.{strip}
use lean_lang_chain.Text.Lines.{splitlines, split, partition}
use lean_lang_chain.Policy.Decision.{Trust}
use lean_lang_chain.Gateway.Batch.{AxiomAuditResult, AxiomDependency}
use lean_lang_chain.Gateway.Batch.Commands.{
  Process, ended, expired, os_error, Timeout, Runner, exits_zero, local_run,
}

not_blank : List String → List String
not_blank [] = []
not_blank (s ∷ ss) = if s == "" then not_blank ss else s ∷ not_blank ss

abbrev dependency : Option (String × String) → List AxiomDependency
dependency none = []
dependency (some (declaration, rest)) =
    record { declaration = strip declaration; axioms = not_blank (map strip (split b',' rest)) }
    ∷ []

lines_dependencies : List String → List AxiomDependency
unfolding strip split partition not_blank
lines_dependencies [] = []
lines_dependencies (line ∷ lines) =
    dependency (partition b':' (strip line)) ++ lines_dependencies lines

-- `_parse_axiom_stdout`
unfoldable pub parse_axiom_stdout : String → List AxiomDependency
unfolding lines_dependencies splitlines strip
parse_axiom_stdout stdout = lines_dependencies (splitlines (strip stdout))

abbrev or_text : String → String → String
or_text s d = if s == "" then d else s

unfoldable pub audit_failed : String → AxiomAuditResult
audit_failed reason = record {
  success = false;
  trust_level = Trust.blocked;
  blocked_reasons = reason ∷ [];
  dependencies = [];
}

abbrev is_zero : ℤ → Bool
is_zero (pos zero) = true
is_zero _ = false

-- what an ended command says
unfoldable pub audit_ended : String → String → ℤ → AxiomAuditResult
unfolding parse_axiom_stdout audit_failed
audit_ended out err code =
    if is_zero code
    then record {
      success = true;
      trust_level = Trust.clean;
      blocked_reasons = [];
      dependencies = parse_axiom_stdout out;
    }
    else audit_failed (or_text err (or_text out "Axiom audit failed"))

unfoldable pub audit_process : Timeout → Process → AxiomAuditResult
unfolding audit_ended audit_failed
audit_process timeout (ended out err code t) = audit_ended out err code
audit_process timeout expired =
    audit_failed (text_append "Axiom audit exceeded " (text_append timeout.shown "s"))
audit_process timeout (os_error message t) = audit_failed message

-- `AxiomAuditorReal.run`, with its optional runner; the declarations are not looked at
unfoldable pub run_audit :
    Option Runner
    → (String → List String → Process)
    → List String
    → Timeout
    → String
    → AxiomAuditResult
unfolding audit_ended audit_process
run_audit (some runner) spawn command timeout workspace =
    let r = runner workspace command timeout in audit_ended r.stdout r.stderr r.returncode
run_audit none spawn command timeout workspace = audit_process timeout (spawn workspace command)

-- the verdict of an audit that passes, and of one that does not
abbrev pub HasVerdict : Bool → AxiomAuditResult → Type 0
HasVerdict passed r =
    (r.success ≡ passed)
    × (r.trust_level ≡ (if passed then Trust.clean else Trust.blocked))
    × (is_empty r.blocked_reasons ≡ passed)

audit_process-HasVerdict :
    (timeout : Timeout) (p : Process) → HasVerdict (exits_zero p) (audit_process timeout p)
unfolding audit_process audit_ended audit_failed
audit_process-HasVerdict timeout (ended out err code t) = ground arith
audit_process-HasVerdict timeout expired = (refl, refl, refl)
audit_process-HasVerdict timeout (os_error message t) = (refl, refl, refl)

local_audit-HasVerdict :
    (spawn : String → List String → Process) (command : List String) (timeout : Timeout)
    (workspace : String) (p : Process)
    → spawn workspace command ≡ p
    → HasVerdict (exits_zero p) (run_audit (some (local_run spawn)) spawn command timeout workspace)
unfolding run_audit local_run audit_ended audit_failed
local_audit-HasVerdict spawn command timeout workspace (ended out err code t) e =
    rw e (ground arith)
local_audit-HasVerdict spawn command timeout workspace expired e = rw e (refl, refl, refl)
local_audit-HasVerdict spawn command timeout workspace (os_error message t) e =
    rw e (refl, refl, refl)

-- The real auditor passes, calls the trust clean and gives no blocked reason exactly when its command
-- ends with the exit code zero, and else blocks, whatever axioms the command lists for the
-- declarations, with a runner on this machine as without one.
pub run_audit-HasVerdict :
    (spawn : String → List String → Process) (command : List String) (timeout : Timeout)
    (workspace : String)
    → HasVerdict
        (exits_zero (spawn workspace command))
        (run_audit none spawn command timeout workspace)
      × HasVerdict
          (exits_zero (spawn workspace command))
          (run_audit (some (local_run spawn)) spawn command timeout workspace)
unfolding run_audit
run_audit-HasVerdict spawn command timeout workspace = (
  audit_process-HasVerdict timeout (spawn workspace command),
  local_audit-HasVerdict spawn command timeout workspace (spawn workspace command) refl,
)
