-- ===== src/Runtime/Graph/Verified.antt =====
-- An accepted run has got its evidence from the gateway, in this very run.
use lean_lang_chain.Common.{◌>>=◌ as bind}
use lean_lang_chain.Policy.Decision.{PolicyDecision}
use lean_lang_chain.Policy.Pack.{PolicyPack}
use lean_lang_chain.Runtime.Dump.{is_refused, dump_decision}
use lean_lang_chain.Policy.Engine.{evaluate}
use lean_lang_chain.Policy.Patch.{summarize_patch}
use lean_lang_chain.Common.{
  zero, suc, ℕ, subst, ap, ◌∙◌, ok-injective, Bool, false, if◌then◌else◌, [], Option, some, none,
  Result, ok, raise, refl, is_empty, not, ◌&&◌, arith, String, true, ◌≡◌, List, ok,
}
use lean_lang_chain.Json.{is_str, dict_get_or, str, Fields, obj, Json, truthy, dict_get, or_dict}
use lean_lang_chain.Runtime.State.{ObligationRuntimeState, Status}
use lean_lang_chain.Runtime.Exec.{Client}
use lean_lang_chain.Runtime.Exec.Ends.{Yields, ok-Yields, bind-Yields, if-Yields}
use lean_lang_chain.Runtime.Handlers
use lean_lang_chain.Runtime.Review
use lean_lang_chain.Runtime.Finalize
use lean_lang_chain.Runtime.Handlers.{
  dict_item, first_refusal, protocol_checks, pack_name, send_patch, first_file,
}
use lean_lang_chain.Runtime.Graph.{
  Node, Deps, run, run_node, next_node, follow, after_node, open_goals, route_after_interactive,
  route_after_policy, invoke, route_start,
}

-- Each session that the gateway opens has an identifier that counts, each of its reports is a `Checked`
-- one, and each of its batch results an
-- `Answered` one for the declarations that were asked.
pub record Promises {G : Type 0} (client : Client G) (Checked : Json → Type 0)
    (Answered : List String → Json → Type 0) : Type 0 where
  pub session_given :
      (fid r id : Json) (g : G)
      → (client.create_session fid g).0 ≡ ok r
      → dict_item r "session_id" ≡ ok id
      → truthy id ≡ true
  pub report_given :
      (session : Json) (file : String) (r : Json) (g : G)
      → (client.interactive_check session file g).0 ≡ ok r
      → Checked r
  pub batch_given :
      (session : Json) (files declarations : List String) (r : Json) (g : G)
      → (client.batch_verify session files declarations g).0 ≡ ok r
      → Answered declarations r

module _ {G : Type 0} (d : Deps G) (Checked : Json → Type 0)
    (Answered : List String → Json → Type 0) (p : Promises d.client Checked Answered) where
  -- the evidence of the state comes from the gateway
  abbrev pub Held : ObligationRuntimeState → Type 0
  Held t = Checked t.interactive_result × Answered t.target_declarations t.batch_result

  -- the session of the state counts, and its report comes from the gateway
  abbrev Reported : ObligationRuntimeState → Type 0
  Reported t = (truthy t.session_id ≡ true) × Checked t.interactive_result

  -- what holds after a node
  After : Node → ObligationRuntimeState → Type 0
  After Node.init_environment t = truthy t.session_id ≡ true
  After Node.retrieve_context t = truthy t.session_id ≡ true
  After Node.draft_candidate t = truthy t.session_id ≡ true
  After Node.interactive_check t = Reported t
  After Node.repair_from_diagnostics t = t.status ≡ Status.repairing
  After Node.repair_from_goals t = t.status ≡ Status.repairing
  After Node.resume_with_approval t = ⊥
  After _ t = Held t

  -- what holds before it
  Before : Node → ObligationRuntimeState → Type 0
  Before Node.init_environment s = Unit {0}
  Before Node.retrieve_context s = truthy s.session_id ≡ true
  Before Node.draft_candidate s = truthy s.session_id ≡ true
  Before Node.interactive_check s = truthy s.session_id ≡ true
  Before Node.batch_verify s = Reported s
  Before Node.repair_from_diagnostics s = Unit {0}
  Before Node.repair_from_goals s = Unit {0}
  Before Node.resume_with_approval s = ⊥
  Before _ s = Held s

  session_counts :
      (fid r id : Json) (g : G)
      → (d.client.create_session fid g).0 ≡ ok r
      → dict_item r "session_id" ≡ ok id
      → truthy id ≡ true
  session_counts = p.session_given

  init-HasSession :
      (s t : ObligationRuntimeState) (g : G)
      → (Handlers.init_environment d.client s g).0 ≡ ok t
      → truthy t.session_id ≡ true
  unfolding Handlers.init_environment
  init-HasSession s t g h = grind (arith, session_counts)

  report_got :
      (session : Json) (file : String) (r : Json) (g : G)
      → (d.client.interactive_check session file g).0 ≡ ok r
      → Checked r
  report_got = p.report_given

  check-Reported :
      (s t : ObligationRuntimeState) (g : G)
      → truthy s.session_id ≡ true
      → (Handlers.interactive_check d.client s g).0 ≡ ok t
      → Reported t
  unfolding Handlers.interactive_check
  check-Reported s t g k h = (grind (arith, report_got), grind (arith, report_got))

  batch_got :
      (session : Json) (files declarations : List String) (r : Json) (g : G)
      → (d.client.batch_verify session files declarations g).0 ≡ ok r
      → Answered declarations r
  batch_got = p.batch_given

  batch-Held :
      (s t : ObligationRuntimeState) (g : G)
      → Reported s
      → (Handlers.batch_verify d.client s g).0 ≡ ok t
      → Held t
  unfolding Handlers.batch_verify
  batch-Held s t g (k, c) h = (grind (arith, batch_got), grind (arith, batch_got))

  -- the evidence is that of the state before
  Keeps : ObligationRuntimeState → ObligationRuntimeState → Type 0
  Keeps s t =
      (t.interactive_result ≡ s.interactive_result)
      × (t.target_declarations ≡ s.target_declarations)
      × (t.batch_result ≡ s.batch_result)

  refuse-Keeps :
      (s : ObligationRuntimeState) (o : Option PolicyDecision)
      → Keeps s (Handlers.refuse_or_keep s o)
  unfolding Handlers.refuse_or_keep Keeps
  refuse-Keeps s none = (refl, refl, refl)
  refuse-Keeps s (some x) = (refl, refl, refl)

  protocol-Keeps :
      (s : ObligationRuntimeState)
      → Yields (Keeps s) (Handlers.evaluate_protocol d.load_pack d.env_pack s)
  unfolding Handlers.evaluate_protocol Keeps
  protocol-Keeps s =
      if-Yields (Keeps s) (is_empty s.protocol_events) _ _
        (ok-Yields (Keeps s) s (refl, refl, refl))
        (loaded (d.load_pack (pack_name s.policy_pack_name d.env_pack "single_owner_handoff_v1")))
    where
      loaded :
          (r : Result PolicyPack)
          → Yields (Keeps s) (elim r [
            | raise e ↦ ok s
            | ok pack ↦
                bind
                  (first_refusal (protocol_checks pack) s.protocol_events pack)
                  (λ x. ok (Handlers.refuse_or_keep s x))
          ])
      loaded (raise e) = ok-Yields (Keeps s) s (refl, refl, refl)
      loaded (ok pack) =
          bind-Yields (Keeps s) (first_refusal (protocol_checks pack) s.protocol_events pack) _
            (λ x _. ok-Yields (Keeps s) (Handlers.refuse_or_keep s x) (refuse-Keeps s x))

  engine-Keeps :
      (pack : PolicyPack) (s : ObligationRuntimeState)
      → Yields (Keeps s) (Review.engine_review d.sha256 pack s)
  unfolding Review.engine_review Keeps
  engine-Keeps pack s = bind-Yields (Keeps s) (Review.protected_paths s.obligation) _ (λ paths _.
      bind-Yields (Keeps s)
        (evaluate s.interactive_result s.batch_result
          (Review.patch_meta (summarize_patch d.sha256 [] s.current_patch paths)) pack)
        (λ x. ok (record s { policy_decision = dump_decision x; status = Status.auditing }))
        (λ x _. ok-Yields (Keeps s) _ (refl, refl, refl)))

  review_with-Keeps :
      (pack : PolicyPack) (s : ObligationRuntimeState)
      → Yields (Keeps s) (Review.review_with d.sha256 pack s)
  unfolding Review.review_with Keeps
  review_with-Keeps pack s =
      if-Yields (Keeps s)
        (pack.reviewer_gated_execution && not (Review.is_decided s.approval_decision)) _ _
        (ok-Yields (Keeps s) _ (refl, refl, refl)) (engine-Keeps pack s)

  review-Keeps :
      (s : ObligationRuntimeState)
      → Yields (Keeps s) (Review.policy_review d.sha256 d.load_pack d.env_pack s)
  unfolding Review.policy_review Keeps
  review-Keeps s = bind-Yields (Keeps s) (dict_get (or_dict s.policy_decision) "decision") _ (λ x _.
      if-Yields (Keeps s) (is_refused x) _ _ (ok-Yields (Keeps s) _ (refl, refl, refl))
        (review_with-Keeps (Review.load_pack_for_review d.load_pack d.env_pack s) s))

  interrupt-Keeps :
      (s : ObligationRuntimeState) (g : G)
      → Yields (Keeps s) (Review.interrupt_for_approval d.client d.validate_review d.sha256 s g).0
  unfolding Review.interrupt_for_approval Keeps
  interrupt-Keeps s g = shown (Review.review_payload d.sha256 s)
    where
      shown :
          (r : Result Fields)
          → Yields
              (Keeps s)
              (elim r as (λ x. Result ObligationRuntimeState × G) [
                | raise e ↦ (raise e, g)
                | ok payload ↦ (
                  ok (record s { approval_required = true; status = Status.awaiting_approval }),
                  Review.send_review d.client (d.validate_review (obj payload)) g,
                )
              ]).0
      shown (raise e) t h = absurd cc
      shown (ok payload) t h = ok-Yields (Keeps s) _ (refl, refl, refl) t h

  finalize-Keeps :
      (s : ObligationRuntimeState) → Yields (Keeps s) (Finalize.finalize d.models d.bundle_id s)
  unfolding Finalize.finalize Keeps
  finalize-Keeps s t h = (ground arith, ground arith, ground arith)

  kept-Held : (s t : ObligationRuntimeState) → Keeps s t → Held s → Held t
  unfolding Keeps
  kept-Held s t (e, a, b) (c, k) = (rw e c, rw (a, b) k)

  after :
      (n : Node) (s t : ObligationRuntimeState) (g : G)
      → Before n s
      → (run_node d n s g).0 ≡ ok t
      → After n t
  unfolding Before After run_node Handlers.retrieve_context Handlers.draft_candidate
      Handlers.audit_trust Handlers.repair
  after Node.init_environment s t g k h = init-HasSession s t g h
  after Node.retrieve_context s t g k h = subst (After Node.retrieve_context) (ok-injective h) k
  after Node.draft_candidate s t g k h = subst (After Node.draft_candidate) (ok-injective h) k
  after Node.interactive_check s t g k h = check-Reported s t g k h
  after Node.batch_verify s t g k h = batch-Held s t g k h
  after Node.audit_trust s t g k h = subst (After Node.audit_trust) (ok-injective h) k
  after Node.evaluate_protocol s t g k h = kept-Held s t (protocol-Keeps s t h) k
  after Node.policy_review s t g k h = kept-Held s t (review-Keeps s t h) k
  after Node.interrupt_for_approval s t g k h = kept-Held s t (interrupt-Keeps s g t h) k
  after Node.finalize s t g k h = kept-Held s t (finalize-Keeps s t h) k
  after Node.repair_from_diagnostics s t g k h =
      subst (After Node.repair_from_diagnostics) (ok-injective h) refl
  after Node.repair_from_goals s t g k h =
      subst (After Node.repair_from_goals) (ok-injective h) refl
  after Node.resume_with_approval s t g k h = k

  -- what the edge that is taken gives: at the end, an accepted state has its answer
  Goes : ObligationRuntimeState → Option Node → Type 0
  Goes t none = t.status ≡ Status.accepted → Held t
  Goes t (some m) = Before m t

  found-Before :
      (t : ObligationRuntimeState) (b : Bool)
      → Reported t
      → Before (if b then Node.repair_from_goals else Node.batch_verify) t
  unfolding Before
  found-Before t true k = tt
  found-Before t false k = k

  interactive-Before :
      (t : ObligationRuntimeState)
      → Reported t
      → Yields (λ m. Before m t) (route_after_interactive t)
  unfolding route_after_interactive Before
  interactive-Before t k =
      let Q : Node → Type 0 = λ m. Before m t in
      if-Yields Q (not (truthy t.interactive_result)) _ _ (ok-Yields Q Node.batch_verify k) (
        bind-Yields Q (dict_get t.interactive_result "ok") _ (λ x _.
          if-Yields Q (not (truthy x)) _ _ (ok-Yields Q Node.repair_from_diagnostics tt) (
            bind-Yields Q (dict_get t.interactive_result "goals") _ (λ goals _.
              bind-Yields Q (open_goals goals) _ (λ b _. ok-Yields Q _ (found-Before t b k))))))

  policy-Goes : (t : ObligationRuntimeState) → Held t → Yields (Goes t) (route_after_policy t)
  unfolding route_after_policy Goes Before
  policy-Goes t k =
      if-Yields (Goes t) (not (truthy t.policy_decision)) _ _
        (ok-Yields (Goes t) (some Node.finalize) k)
        (bind-Yields (Goes t) (dict_get_or t.policy_decision "decision" (str "failed")) _ (λ x _.
          if-Yields (Goes t) (is_str "accepted" x) _ _ (ok-Yields (Goes t) (some Node.finalize) k) (
            if-Yields (Goes t) (is_str "needs_review" x) _ _
              (ok-Yields (Goes t) (some Node.interrupt_for_approval) k)
              (ok-Yields (Goes t) none (λ e. k)))))

  next-Goes : (n : Node) (t : ObligationRuntimeState) → After n t → Yields (Goes t) (next_node n t)
  unfolding next_node Goes After Before
  next-Goes Node.init_environment t k = ok-Yields (Goes t) (some Node.retrieve_context) k
  next-Goes Node.retrieve_context t k = ok-Yields (Goes t) (some Node.draft_candidate) k
  next-Goes Node.draft_candidate t k = ok-Yields (Goes t) (some Node.interactive_check) k
  next-Goes Node.interactive_check t k =
      bind-Yields (Goes t) (route_after_interactive t) _
        (λ m e. ok-Yields (Goes t) (some m) (interactive-Before t k m e))
  next-Goes Node.batch_verify t k = ok-Yields (Goes t) (some Node.audit_trust) k
  next-Goes Node.audit_trust t k = ok-Yields (Goes t) (some Node.evaluate_protocol) k
  next-Goes Node.evaluate_protocol t k = ok-Yields (Goes t) (some Node.policy_review) k
  next-Goes Node.policy_review t k = policy-Goes t k
  next-Goes Node.interrupt_for_approval t k = ok-Yields (Goes t) none (λ e. k)
  next-Goes Node.finalize t k = ok-Yields (Goes t) none (λ e. k)
  next-Goes Node.repair_from_diagnostics t k = ok-Yields (Goes t) none (λ e. absurd (cc (k, e)))
  next-Goes Node.repair_from_goals t k = ok-Yields (Goes t) none (λ e. absurd (cc (k, e)))
  next-Goes Node.resume_with_approval t k = absurd k

  after-Held :
      (f : ℕ) (n : Node)
      → ((m : Node) (s t : ObligationRuntimeState) (g : G)
          → Before m s
          → (run d f m s g).0 ≡ ok t
          → t.status ≡ Status.accepted
          → Held t)
      → (s t : ObligationRuntimeState) (g g' : G) (r : Result ObligationRuntimeState) → Before n s
      → (run_node d n s g).0 ≡ r
      → (after_node (run d f) n r g').0 ≡ ok t
      → t.status ≡ Status.accepted
      → Held t
  unfolding after_node follow Goes
  after-Held f n rest s t g g' (raise x) k h o e = absurd cc
  after-Held f n rest s t g g' (ok u) k h o e = go (next_node n u) refl o
    where
      go :
          (q : Result (Option Node))
          → next_node n u ≡ q
          → (follow (run d f) q u g').0 ≡ ok t
          → Held t
      go (raise x) w o = absurd cc
      go (ok none) w o =
          let v = ok-injective o in
          subst Held v (next-Goes n u (after n s u g k h) none w (ap (λ v. v.status) v ∙ e))
      go (ok (some m)) w o = rest m u t g' (next-Goes n u (after n s u g k h) (some m) w) o e

  run-Held :
      (f : ℕ) (n : Node) (s t : ObligationRuntimeState) (g : G)
      → Before n s
      → (run d f n s g).0 ≡ ok t
      → t.status ≡ Status.accepted
      → Held t
  unfolding run
  run-Held zero n s t g k h e = absurd cc
  run-Held (suc f) n s t g k h e =
      after-Held f n (λ m u v c. run-Held f m u v c) s t g (run_node d n s g).1 (run_node d n s g).0
        k refl h e

  -- A run that starts at the first node and ends accepted has got its evidence in that very run: when
  -- the gateway opens sessions with identifiers that count, each of its reports has one property and
  -- each of its batch results another one of it and the declarations asked, then the report, and the
  -- batch result with the target declarations, of the state in which the run ends have them, whatever
  -- stood in the state at the start.
  pub invoke-Held :
      (s t : ObligationRuntimeState) (g : G)
      → route_start s ≡ Node.init_environment
      → (invoke d s g).0 ≡ ok t
      → t.status ≡ Status.accepted
      → Held t
  unfolding invoke Before
  invoke-Held s t g start h e = run-Held 25 Node.init_environment s t g tt (rw start at h) e
