-- ===== src/System/Accepted.antt =====
-- What an accepted run over the gateway rests on.
use lean_lang_chain.Common.{
  String, true, false, ◌≡◌, refl, ◌∙◌, ap, Option, none, some, List, [], ◌∷◌, Result, ok, raise,
  all, map, ok-injective, subst,
}
use lean_lang_chain.Json.{
  Json, Fields, str, obj, from_list, to_list, is_dict, truthy, has_key, get_or,
}
use lean_lang_chain.Gateway.Batch.{verify, batch_verify, dump_batch}
use lean_lang_chain.Gateway.Batch.Acceptance.{lanes_pass, accepted-lanes, dump-is_batch}
use lean_lang_chain.Gateway.Interactive.{Report, check_interactive, open_session}
use lean_lang_chain.Gateway.Routes.{interactive_check, checked_session, checked_response}
use lean_lang_chain.Gateway.Sessions.{get_lease, Sessions, SessionLease}
use lean_lang_chain.Environment.{create_session, Disk, joined_disk}
use lean_lang_chain.Policy.Engine.Stages.{is_report}
use lean_lang_chain.Policy.Patch.{summarize_patch}
use lean_lang_chain.Runtime.Handlers.{dict_item}
use lean_lang_chain.Runtime.Review.{patch_meta, load_pack_for_review}
use lean_lang_chain.Runtime.State.{ObligationRuntimeState, Status}
use lean_lang_chain.Runtime.Exec.Ends.{Yields, ok-Yields}
use lean_lang_chain.Runtime.Graph.{Node, Deps, invoke, route_start}
use lean_lang_chain.Runtime.Graph.Accepted.{invoke-Justified}
use lean_lang_chain.Runtime.Graph.Evidence.{IsSound, Justified-IsSound, accepted-by}
use lean_lang_chain.Runtime.Graph.Safety.{IsJustified, pack_of}
use lean_lang_chain.Runtime.Graph.Verified.{Promises, invoke-Held}
use Prim.Native.String.{◌++◌ as text_append}
use text.Mathlib.TextLemmas.{cons-append}
use lean_lang_chain.Common.{eq_iff, Bool-cases, inl, inr, ◌==◌, key_error}
use lean_lang_chain.System.{session_opened, next_session, received, workspace_of, batch_received}
use lean_lang_chain.Gateway.Files.{Files}
use lean_lang_chain.Gateway.Interactive.{open_session}
use lean_lang_chain.Gateway.Map.{lookup}
use lean_lang_chain.Sdk.Envelope.{normalize-dump_batch}
use lean_lang_chain.System.{
  World, Service, client_of, call_create_session, call_interactive_check, call_batch_verify,
  next_session, session_opened, received, batch_received, workspace_of,
}

dicts-are : (ds : List Fields) → all is_dict (to_list (from_list (map (λ d. obj d) ds))) ≡ true
unfolding to_list from_list
dicts-are [] = refl
dicts-are (d ∷ ds) = dicts-are ds

-- a text that starts with a text that is not empty is not empty
append-filled : (p x : String) → (p == "") ≡ false → (text_append p x == "") ≡ false
append-filled String.[] x h = absurd cc
append-filled (String.◌∷◌ c p) x h = elim (Bool-cases (text_append (String.◌∷◌ c p) x == "")) [
  | inl t ↦
      absurd (let e = (eq_iff (text_append (String.◌∷◌ c p) x) "").0 t in cc (e, cons-append c p x))
  | inr f ↦ f
]

module _ (v : Service) where
  -- a batch result of the gateway for the declarations
  pub record IsOfGateway (declarations : List String) (j : Json) : Type 0 where
    pub workspace : String
    pub dumped :
        j ≡ obj (dump_batch (verify v.lanes v.strict_flag v.production workspace declarations))

  abbrev IsReport : Json → Type 0
  IsReport j = is_report j ≡ true

  create_session-Yields :
      (fid session : String) (d : Disk) → Yields (λ x. x ≡ session) (create_session fid session d).0
  unfolding create_session
  create_session-Yields fid session d = joined (lookup fid d.snapshots)
    where
      joined : (o : Option Files) → Yields (λ x. x ≡ session) (joined_disk session d o).0
      joined none x h = absurd cc
      joined (some base) x h = ok-Yields (λ x. x ≡ session) session refl x h

  -- the identifier of a session counts
  opened-truthy :
      (fid : String) (r id : Json) (w : World) (x : Result String × Disk)
      → Yields (λ s. s ≡ next_session v w) x.0
      → (session_opened v fid w x).0 ≡ ok r
      → dict_item r "session_id" ≡ ok id
      → truthy id ≡ true
  unfolding dict_item truthy open_session has_key get_or
  opened-truthy fid r id w (raise e, disk) n h i = absurd cc
  opened-truthy fid r id w (ok session, disk) n h i =
      let q = ok-injective (ap (λ x. dict_item x "session_id") (ok-injective h) ∙ i) in
      subst (λ j. truthy j ≡ true) q
        (rw (n session refl, append-filled "sess_" (v.hex w.time) refl) refl)

  created-truthy :
      (fid r id : Json) (w : World)
      → (call_create_session v fid w).0 ≡ ok r
      → dict_item r "session_id" ≡ ok id
      → truthy id ≡ true
  unfolding call_create_session
  created-truthy (str fid) r id w h i =
      opened-truthy fid r id w (create_session fid (next_session v w) w.disk)
        (create_session-Yields fid (next_session v w) w.disk) h i
  created-truthy _ r id w h i = absurd cc

  -- a report that is answered has a list of dictionaries
  answered-IsReport :
      (r : Result Report) (sessions : Sessions)
      → Yields IsReport (received (checked_response v.transport (r, sessions)).0)
  unfolding from_list get_or
  answered-IsReport (raise e) sessions j h = absurd cc
  answered-IsReport (ok report) sessions j h =
      ok-Yields IsReport _ (dicts-are report.diagnostics) j h

  found-IsReport :
      (lease : Result SessionLease) (r : Result Report) (s sessions : Sessions)
      → Yields IsReport (
          received
            (checked_session v.transport lease s (checked_response v.transport (r, sessions))).0)
  found-IsReport (raise key_error) r s sessions j h = absurd cc
  found-IsReport (raise _) r s sessions j h = absurd cc
  found-IsReport (ok lease) r s sessions j h = answered-IsReport r sessions j h

  checked-IsReport :
      (session : Json) (file : String) (w : World)
      → Yields IsReport (call_interactive_check v session file w).0
  unfolding call_interactive_check interactive_check
  checked-IsReport session file w =
      let (r, sessions) =
        check_interactive v.well_typed v.goal_typed v.transport w.time v.elapsed (v.shown session)
          file w.sessions in
      found-IsReport (get_lease (v.shown session) w.sessions) r w.sessions sessions

  -- the result of a session that is there is that of its workspace
  batch-IsOfGateway :
      (session : Json) (files declarations : List String) (w : World)
      → Yields (IsOfGateway declarations) (call_batch_verify v session files declarations w).0
  unfolding call_batch_verify batch_verify
  batch-IsOfGateway session files declarations w =
      lease_found (get_lease (v.shown session) w.sessions)
    where
      lease_found :
          (r : Result SessionLease)
          → Yields (IsOfGateway declarations) (
              batch_received v (elim (workspace_of v r) [
                | none ↦ none
                | some workspace ↦
                    some (verify v.lanes v.strict_flag v.production workspace declarations)
              ]))
      lease_found (raise e) j h = absurd cc
      lease_found (ok lease) j h =
          ok-Yields (IsOfGateway declarations) _
            (record {
              workspace = lease.workspace_path;
              dumped = ap obj (
                  normalize-dump_batch
                    (verify v.lanes v.strict_flag v.production lease.workspace_path declarations));
            })
            j h

  gateway-Promises : Promises (client_of v) IsReport IsOfGateway
  unfolding client_of
  gateway-Promises = record {
    session_given = created-truthy;
    report_given = λ session file r w h. checked-IsReport session file w r h;
    batch_given =
        λ session files declarations r w h. batch-IsOfGateway session files declarations w r h;
  }

  module _ (d : Deps World) where
    -- the graph over the gateway
    abbrev pub over_gateway : Deps World
    over_gateway = record d { client = client_of v }

    -- The batch result of the state is the gateway's own, of lanes that all passed, for the target
    -- declarations of the state; and its evidence is clean.
    pub record IsVerified (t : ObligationRuntimeState) : Type 0 where
      pub answer : IsOfGateway t.target_declarations t.batch_result
      pub passed :
          lanes_pass v.lanes v.strict_flag v.production answer.workspace t.target_declarations
          ≡ true
      pub unblocked :
          (v.lanes.run_audit answer.workspace t.target_declarations).blocked_reasons ≡ []
      pub sound : IsSound over_gateway t

    Justified-IsVerified :
        (t : ObligationRuntimeState)
        → IsJustified over_gateway t
        → is_report t.interactive_result ≡ true
        → IsOfGateway t.target_declarations t.batch_result
        → IsVerified t
    unfolding load_pack_for_review
    Justified-IsVerified t j report b =
        let meta = patch_meta (summarize_patch d.sha256 [] t.current_patch j.paths) in
        let pack = pack_of over_gateway t in
        let judged =
          accepted-by t.interactive_result t.batch_result meta pack j.decision j.judged j.accepts in
        let (passed, unblocked) =
          accepted-lanes v.lanes v.strict_flag v.production b.workspace t.target_declarations
            t.interactive_result meta pack report (rw b.dumped at judged) in
        record {
          answer = b;
          passed = passed;
          unblocked = unblocked;
          sound = Justified-IsSound over_gateway t report (rw b.dumped (dump-is_batch _)) j;
        }

    -- A run of the graph over the gateway that starts at the first node and ends accepted: the batch
    -- result in its last state is one that the gateway gave for the target declarations, every lane of
    -- that verification passed, its axiom audit blocked nothing, under strict acceptance both audits
    -- were real, and the evidence of the state is clean under its pack, whatever the other calls of
    -- the client do.
    pub invoke-IsVerified :
        (s t : ObligationRuntimeState) (w : World)
        → route_start s ≡ Node.init_environment
        → (invoke over_gateway s w).0 ≡ ok t
        → t.status ≡ Status.accepted
        → IsVerified t
    invoke-IsVerified s t w start h e =
        let (report, b) =
          invoke-Held over_gateway IsReport IsOfGateway gateway-Promises s t w start h e in
        Justified-IsVerified t (invoke-Justified over_gateway s t w start h e) report b
