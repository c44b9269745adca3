-- ===== src/Gateway/Interactive/Unreported.antt =====
-- The reports of checks that ask the language server (lsp_client.py with normalizers.py): what the
-- model Diagnostic refuses never reaches a report.
use lean_lang_chain.Gateway.Interactive.Numbered.{
  Ensures, is_text, Numbered, AllNumbered, await-AllNumbered, is_numbered_message,
}
use lean_lang_chain.Common.{
  ℕ, String, ◌≡◌, refl, Bool, true, false, not, ◌&&◌, Option, none, some, List, [], ◌∷◌, Result, ok,
  raise, ◌>>=◌, >>=-eq-ok, ok-injective, arith, ap, sym, ◌∙◌, subst, all, is_some, any,
}
use lean_lang_chain.Json.{Json, Fields, null, bool, int, str, arr, obj, get_or}
use lean_lang_chain.Gateway.Lsp.Requests.{
  not_checked, Checked, await_diagnostics, checked, run_check, is_error,
}
use lean_lang_chain.Gateway.Map.{store}
use lean_lang_chain.Gateway.Sessions.{SessionLease, Sessions, get_lease}
use lean_lang_chain.Gateway.Interactive.{
  Report, Transport, language_server, check_interactive, check_lease, transport_check, normalized,
  normalize, accepts_diagnostic, diagnostic_fields, is_severity, Sessions, SessionLease, get_lease,
}

severity_text : (j : Json) → is_severity j ≡ true → is_text j ≡ true
severity_text (str s) h = refl
severity_text null h = cc
severity_text (bool b) h = cc
severity_text (int n) h = cc
severity_text (arr xs) h = cc
severity_text (obj fs) h = cc

module _ (well_typed goal_typed : Fields → Bool) where
  -- The model Diagnostic takes no severity that is a number.
  refused :
      (d : Fields)
      → Numbered d
      → accepts_diagnostic well_typed goal_typed (diagnostic_fields d) ≡ false
  unfolding diagnostic_fields
  refused d n = ground (arith, severity_text (get_or "severity" (str "error") d))

  normalized-empty :
      (ds : List Fields) {out : List Fields}
      → AllNumbered ds
      → normalized (accepts_diagnostic well_typed goal_typed) diagnostic_fields ds ≡ ok out
      → (ds ≡ []) × (out ≡ [])
  unfolding normalized
  normalized-empty [] n e = (refl, sym (ok-injective e))
  normalized-empty (d ∷ ds) n e = absurd (ground (arith, refused d n.0))

  normalize-empty :
      (ds : List Fields) (elapsed : ℕ) {report : Report}
      → AllNumbered ds
      → normalize well_typed goal_typed (checked ds) elapsed ≡ ok report
      → (report.diagnostics ≡ []) × (report.passed ≡ true)
  unfolding normalize checked
  normalize-empty ds elapsed n e =
      let (out, p, q) =
        >>=-eq-ok (normalized (accepts_diagnostic well_typed goal_typed) diagnostic_fields ds) _
          e in
      let (none_in, none_out) = normalized-empty ds n p in
      let same = ok-injective q in
      (
        ap (λ r. r.diagnostics) (sym same) ∙ none_out,
        ap (λ r. r.passed) (sym same) ∙ ap (λ l. not (any is_error l)) none_in,
      )

  not_checked-empty :
      (elapsed : ℕ) {c : Checked} {report : Report}
      → ok not_checked ≡ ok c
      → normalize well_typed goal_typed c elapsed ≡ ok report
      → (report.diagnostics ≡ []) × (report.passed ≡ false)
  unfolding normalize normalized
  not_checked-empty elapsed {c} {report} e n =
      let same = ok-injective (
        subst (λ x. normalize well_typed goal_typed x elapsed ≡ ok report) (sym (ok-injective e))
          n) in
      (ap (λ r. r.diagnostics) (sym same), ap (λ r. r.passed) (sym same))

  run_check-empty :
      (process : Option ℕ) (exists : Bool) (file : String) (messages : List (Option Fields))
      (elapsed : ℕ) {c : Checked} {report : Report}
      → all is_numbered_message messages ≡ true
      → run_check process exists file messages ≡ ok c
      → normalize well_typed goal_typed c elapsed ≡ ok report
      → (report.diagnostics ≡ []) × (report.passed ≡ (is_some process && exists))
  unfolding run_check normalize
  run_check-empty none exists file messages elapsed h e n = not_checked-empty elapsed e n
  run_check-empty (some p) false file messages elapsed h e n = not_checked-empty elapsed e n
  run_check-empty (some p) true file messages elapsed {c} {report} h e n =
      let (ds, read, q) = >>=-eq-ok (await_diagnostics file messages) _ e in
      normalize-empty ds elapsed
        (subst (Ensures AllNumbered) read (await-AllNumbered file messages h))
        (subst (λ x. normalize well_typed goal_typed x elapsed ≡ ok report) (sym (ok-injective q))
          n)

  module _ (process : Option ℕ) (exists : Bool) (messages : List (Option Fields)) where
    -- the transport of a language server that gives these messages
    abbrev pub answering : Transport
    answering = language_server (λ workspace path. run_check process exists path messages)

    answering-empty :
        (lease : Result SessionLease) (elapsed : ℕ) (file : String) {report : Report}
        → all is_numbered_message messages ≡ true
        → ((lease >>= λ l. run_check process exists file messages) >>= λ c.
            normalize well_typed goal_typed c elapsed)
          ≡ ok report
        → (report.diagnostics ≡ []) × (report.passed ≡ (is_some process && exists))
    answering-empty (raise x) elapsed file h e = absurd cc
    answering-empty (ok l) elapsed file h e =
        let (c, read, n) = >>=-eq-ok (run_check process exists file messages) _ e in
        run_check-empty process exists file messages elapsed h read n

    check_lease-empty :
        (lease : Result SessionLease) (now elapsed : ℕ) (session file : String) (s : Sessions)
        {report : Report}
        → all is_numbered_message messages ≡ true
        → (check_lease well_typed goal_typed answering now elapsed session file s lease).0
          ≡ ok report
        → (report.diagnostics ≡ []) × (report.passed ≡ (is_some process && exists))
    unfolding check_lease transport_check
    check_lease-empty (raise x) now elapsed session file s h e = absurd cc
    check_lease-empty (ok l) now elapsed session file s h e =
        answering-empty (get_lease session (store session (record l { last_used_at = now }) s))
          elapsed file h e

    -- A check that asks a language server whose severities are numbers, as its protocol has them,
    -- reports no diagnostic, whatever the server published: it fails on the model Diagnostic instead.
    -- A check that is reported has passed exactly when a process and the file are there, so also if
    -- the server answers nothing.
    pub check_interactive-empty :
        (now elapsed : ℕ) (session file : String) (s : Sessions) {report : Report}
        → all is_numbered_message messages ≡ true
        → (check_interactive well_typed goal_typed answering now elapsed session file s).0
          ≡ ok report
        → (report.diagnostics ≡ []) × (report.passed ≡ (is_some process && exists))
    unfolding check_interactive
    check_interactive-empty now elapsed session file s h e =
        check_lease-empty (get_lease session s) now elapsed session file s h e
