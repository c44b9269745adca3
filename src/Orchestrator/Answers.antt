-- ===== src/Orchestrator/Answers.antt =====
-- The handler `resume` of http_server.py, with the graph that it runs.
use lean_lang_chain.Common.{
  ℕ, true, false, String, ◌≡◌, refl, Bool, Option, none, some, ◌==◌, if◌then◌else◌, is_some,
  Bool-cases, inl, inr, eq_iff, subst, sym, ap,
}
use lean_lang_chain.Gateway.Runners.{Env}
use lean_lang_chain.Gateway.Reviews.{Response}
use lean_lang_chain.Text.{strip, lower}
use lean_lang_chain.Runtime.State.{make_resume_state, resume_state}
use lean_lang_chain.Runtime.Graph.{Deps}
use lean_lang_chain.Runtime.Graph.Resume.{resume-approved, resume-rejected}
use lean_lang_chain.Orchestrator.{
  Checkpointer, Packages, get_checkpointer, resumed, bad_decision, no_runtime, missing_runtime,
  no_checkpointer, resume_decided, resume, Json, started, finished,
}

-- what a decided resume answers, with the status and the artifacts of its run
abbrev pub decided_answer : Bool → Option String → String → String → ℕ → Response Json
decided_answer false missing thread status artifacts = no_checkpointer
decided_answer true (some e) thread status artifacts = no_runtime e
decided_answer true none thread status artifacts = resumed thread status artifacts

-- what a resume answers to a decision
abbrev pub resume_answer : Bool → Option String → String → String → Response Json
resume_answer has_checkpointer missing thread decision =
    if decision == "approved"
    then decided_answer has_checkpointer missing thread "accepted" 1
    else if decision == "rejected"
    then decided_answer has_checkpointer missing thread "rejected" 0
    else bad_decision

module _ {G : Type 0} (d : Deps G) (thread : String) (g : G) where
  approved_run :
      started d thread (make_resume_state thread "approved") g ≡ (resumed thread "accepted" 1, g)
  unfolding make_resume_state
  approved_run =
      ap (finished thread) (resume-approved d thread (resume_state thread "approved") g refl)

  rejected_run :
      started d thread (make_resume_state thread "rejected") g ≡ (resumed thread "rejected" 0, g)
  unfolding make_resume_state
  rejected_run =
      ap (finished thread) (resume-rejected d thread (resume_state thread "rejected") g refl)

  decided_approved :
      (checkpointer : Option Checkpointer) (missing : Option String)
      → resume_decided d checkpointer missing thread "approved" g
        ≡ (resume_answer (is_some checkpointer) missing thread "approved", g)
  unfolding resume_decided
  decided_approved none missing = refl
  decided_approved (some c) none = approved_run
  decided_approved (some c) (some e) = refl

  decided_rejected :
      (checkpointer : Option Checkpointer) (missing : Option String)
      → resume_decided d checkpointer missing thread "rejected" g
        ≡ (resume_answer (is_some checkpointer) missing thread "rejected", g)
  unfolding resume_decided
  decided_rejected none missing = refl
  decided_rejected (some c) none = rejected_run
  decided_rejected (some c) (some e) = refl

  resume_decided-answers :
      (checkpointer : Option Checkpointer) (missing : Option String) (decision : String)
      → resume_decided d checkpointer missing thread decision g
        ≡ (resume_answer (is_some checkpointer) missing thread decision, g)
  unfolding resume_decided
  resume_decided-answers checkpointer missing decision =
      elim (Bool-cases (decision == "approved")) [
        | inl e ↦
            subst
              (λ t.
                resume_decided d checkpointer missing thread t g
                ≡ (resume_answer (is_some checkpointer) missing thread t, g))
              (sym ((eq_iff decision "approved").0 e)) (decided_approved checkpointer missing)
        | inr e ↦ elim (Bool-cases (decision == "rejected")) [
          | inl f ↦
              subst
                (λ t.
                  resume_decided d checkpointer missing thread t g
                  ≡ (resume_answer (is_some checkpointer) missing thread t, g))
                (sym ((eq_iff decision "rejected").0 f)) (decided_rejected checkpointer missing)
          | inr f ↦ rw (e, f) refl
        ]
      ]

  -- A resume never calls the gateway, whatever is decided. A decision that is "approved" or "rejected"
  -- up to blanks at its ends and the case of its letters is answered, where there is a checkpointer and
  -- the runtime can be imported, with that status as the run's, with one artifact or none; without a
  -- checkpointer, or without the runtime, the service is unavailable, and any other decision is a bad
  -- request.
  pub resume-answers :
      (env : Env) (p : Packages) (missing decision : String)
      → resume d env p missing thread decision g ≡ (
        resume_answer
            (is_some (get_checkpointer env p))
            (missing_runtime p missing)
            thread
            (lower (strip decision)),
        g,
      )
  unfolding resume
  resume-answers env p missing decision =
      resume_decided-answers (get_checkpointer env p) (missing_runtime p missing)
        (lower (strip decision))
