-- ===== src/Cli/Reported.antt =====
-- `obr run-patch-obligation`: what stands behind a run that it reports as accepted.
use lean_lang_chain.Common.{
  ◌∷◌, ◌==◌, String, ◌≡◌, refl, ap, true, List, Result, ok, raise, Exc, ok-injective, ℕ,
}
use lean_lang_chain.Json.{Json, str, field, end, int, pos, obj}
use lean_lang_chain.Policy.Events.{RawEvent}
use lean_lang_chain.Policy.Patch.{Patch}
use lean_lang_chain.Runtime.State.{Status, ObligationRuntimeState, make_initial_state}
use lean_lang_chain.Runtime.Graph.{Deps, Node, invoke, route_start}
use lean_lang_chain.Runtime.Graph.Safety.{IsJustified}
use lean_lang_chain.Runtime.Graph.Accepted.{invoke-Justified}
use lean_lang_chain.Orchestrator.{status_text}
use lean_lang_chain.Cli.{
  Output, Files, PatchArgs, tells, reported, report_run, initial_of, with_patch, with_events,
  events_of, patch_of, cmd_run_patch_obligation,
}

abbrev pub accepted_output : ℕ → Output
accepted_output n =
    tells 0 (field "status" (str "accepted") (field "artifacts_count" (int (pos n)) end))

accepted_text : (s : Status) → (status_text s == "accepted") ≡ true → s ≡ Status.accepted
accepted_text Status.initialized h = cc
accepted_text Status.retrieving_context h = cc
accepted_text Status.drafting h = cc
accepted_text Status.checking_interactive h = cc
accepted_text Status.repairing h = cc
accepted_text Status.auditing h = cc
accepted_text Status.awaiting_approval h = cc
accepted_text Status.batch_verifying h = cc
accepted_text Status.accepted h = refl
accepted_text Status.rejected h = cc
accepted_text Status.failed h = cc

abbrev text_of : Json → String
text_of (str s) = s
text_of _ = ""

abbrev first_text : Json → String
first_text (obj (field k v fs)) = text_of v
first_text _ = ""

abbrev status_of : List Json → String
status_of (j ∷ js) = first_text j
status_of _ = ""

reported-accepted :
    (s : ObligationRuntimeState) (n : ℕ)
    → reported s ≡ accepted_output n
    → s.status ≡ Status.accepted
reported-accepted s n h = accepted_text s.status (ap (λ o. status_of o.printed == "accepted") h)

module _ {G : Type 0} (d : Deps G) (files : Files) (message : Exc → String) (a : PatchArgs) where
  -- the files are read, and the graph on what they hold ends in a state that is justified
  pub record IsBacked (g : G) : Type 0 where
    pub events : List RawEvent
    pub patch : Patch
    pub final : ObligationRuntimeState
    pub events_read : events_of files a.protocol_events_file ≡ ok events
    pub patch_read : patch_of files a.patch_file a.patch_apply_path ≡ ok patch
    pub run : (invoke d (initial_of a events patch) g).0 ≡ ok final
    pub status : final.status ≡ Status.accepted
    pub justified : IsJustified d final

  starts :
      (events : List RawEvent) (patch : Patch)
      → route_start (initial_of a events patch) ≡ Node.init_environment
  unfolding route_start initial_of make_initial_state
  starts events patch = refl

  run-accepted :
      (s : ObligationRuntimeState) (g : G) (n : ℕ) (r : Result ObligationRuntimeState) (g' : G)
      → invoke d s g ≡ (r, g')
      → (report_run (r, g')).0 ≡ ok (accepted_output n)
      → (t : ObligationRuntimeState) × ((invoke d s g).0 ≡ ok t) × (t.status ≡ Status.accepted)
  run-accepted s g n (ok t) g' e h = (t, ap (λ p. p.0) e, reported-accepted t n (ok-injective h))
  run-accepted s g n (raise x) g' e h = absurd cc

  patch-accepted :
      (events : List RawEvent) (q : Result Patch) (g : G) (n : ℕ)
      → events_of files a.protocol_events_file ≡ ok events
      → patch_of files a.patch_file a.patch_apply_path ≡ q
      → (with_patch d files message a events q g).0 ≡ ok (accepted_output n)
      → IsBacked g
  unfolding with_patch
  patch-accepted events (raise x) g n e p h = absurd cc
  patch-accepted events (ok patch) g n e p h =
      let found =
        run-accepted (initial_of a events patch) g n (invoke d (initial_of a events patch) g).0
          (invoke d (initial_of a events patch) g).1 refl h in
      record {
        events = events;
        patch = patch;
        final = found.0;
        events_read = e;
        patch_read = p;
        run = found.1;
        status = found.2;
        justified =
            invoke-Justified d (initial_of a events patch) found.0 g (starts events patch) found.1
              found.2;
      }

  events-accepted :
      (q : Result (List RawEvent)) (g : G) (n : ℕ)
      → events_of files a.protocol_events_file ≡ q
      → (with_events d files message a q g).0 ≡ ok (accepted_output n)
      → IsBacked g
  unfolding with_events
  events-accepted (raise x) g n e h = absurd cc
  events-accepted (ok events) g n e h =
      patch-accepted events (patch_of files a.patch_file a.patch_apply_path) g n e refl h

  -- Where `run-patch-obligation` reports a run with the status accepted, its files were read, the
  -- graph was run on the state that they and the arguments give, and ended in a state with that
  -- status which is justified: the policy engine, run on the evidence of that state with the pack that
  -- the state names, returns the accepted decision recorded in it, and a reviewer-gated pack has a
  -- reviewer's decision.
  pub cmd_run_patch_obligation-IsBacked :
      (g : G) (n : ℕ)
      → (cmd_run_patch_obligation d files message a true g).0 ≡ ok (accepted_output n)
      → IsBacked g
  unfolding cmd_run_patch_obligation
  cmd_run_patch_obligation-IsBacked g n h =
      events-accepted (events_of files a.protocol_events_file) g n refl h
