-- ===== src/Runtime/Handlers.antt =====
-- apps/orchestrator/lean_langchain_orchestrator/runtime/nodes/handlers.py: the nodes up to the
-- review. A node returns the state with its updates merged in. A call of the SDK returns a
-- dictionary here, so `_sdk_to_dict` has nothing to do.
use lean_lang_chain.Common.{
  String, Bool, not, Option, none, some, List, [], ◌∷◌, Result, ok, raise, key_error, type_error,
  is_empty, ◌==◌, if◌then◌else◌,
}
use lean_lang_chain.Common.{◌>>=◌ as bind}
use lean_lang_chain.Json.{
  Json, null, str, obj, end, get, has_key, truthy, or_dict, dict_get, dict_get_or,
}
use lean_lang_chain.Policy.Decision.{PolicyDecision, is_refusal}
use lean_lang_chain.Policy.Pack.{PolicyPack}
use lean_lang_chain.Policy.Events.{RawEvent}
use lean_lang_chain.Policy.Protocol.{evaluate_protocol_obligation}
use lean_lang_chain.Policy.Patch.{Patch}
use lean_lang_chain.Runtime.State.{ObligationRuntimeState, Status}
use lean_lang_chain.Runtime.Exec.{Exec, Client, pure, lift, ◌>>=◌, ◌>>◌}
use lean_lang_chain.Runtime.Dump.{dump_decision}

-- `x[k]`
unfoldable pub dict_item : Json → String → Result Json
dict_item (obj fs) k = if has_key k fs then ok (get k fs) else raise key_error
dict_item _ k = raise type_error

abbrev or_else : Json → Json → Json
or_else x y = if truthy x then x else y

unfoldable pub first_file : List String → String
first_file [] = "Main.lean"
first_file (f ∷ fs) = f

module _ {G : Type 0} (client : Client G) where
  unfoldable pub init_environment : ObligationRuntimeState → Exec G ObligationRuntimeState
  init_environment s = do
    env ← lift (dict_get_or s.obligation "environment_fingerprint" (obj end))
    let env = or_else env s.environment_fingerprint
    target ← lift (dict_get s.obligation "target")
    target_repo ← lift (dict_get (or_dict target) "repo_id")
    env_repo ← lift (if truthy target_repo then ok null else dict_get env "repo_id")
    let repo_id = or_else (or_else target_repo env_repo) (str "default")
    let repo_path = if s.repo_path == "" then null else str s.repo_path
    open_data ← client.open_environment repo_id repo_path "HEAD"
    fid ← lift (dict_item open_data "fingerprint_id")
    session_data ← client.create_session fid
    session_id ← lift (dict_item session_data "session_id")
    fingerprint ← lift (dict_get_or open_data "fingerprint" env)
    pure (record s {
      session_id = session_id;
      environment_fingerprint = fingerprint;
      status = Status.initialized;
    })

  -- `client.apply_patch`, made only for a patch that is not empty
  unfoldable pub send_patch : Json → Patch → Exec G Json
  send_patch sid [] = pure null
  send_patch sid (change ∷ patch) = client.apply_patch sid (change ∷ patch)

  unfoldable pub interactive_check : ObligationRuntimeState → Exec G ObligationRuntimeState
  unfolding truthy send_patch first_file
  interactive_check s =
      if not (truthy s.session_id) then pure (record s { status = Status.failed }) else do
        send_patch s.session_id s.current_patch
        result ← client.interactive_check s.session_id (first_file s.target_files)
        pure (record s { interactive_result = result; status = Status.checking_interactive })

  unfoldable pub batch_verify : ObligationRuntimeState → Exec G ObligationRuntimeState
  batch_verify s =
      if not (truthy s.session_id) then pure (record s { status = Status.failed }) else do
        result ← client.batch_verify s.session_id s.target_files s.target_declarations
        trust ← lift (dict_get result "trust_level")
        pure (record s {
          batch_result = result;
          status = Status.batch_verifying;
          trust_level = trust;
        })

unfoldable pub retrieve_context : ObligationRuntimeState → ObligationRuntimeState
retrieve_context s = record s { status = Status.retrieving_context }

unfoldable pub draft_candidate : ObligationRuntimeState → ObligationRuntimeState
draft_candidate s = record s { status = Status.drafting }

unfoldable pub audit_trust : ObligationRuntimeState → ObligationRuntimeState
audit_trust s = record s { status = Status.auditing }

-- `repair_from_diagnostics` and `repair_from_goals`
unfoldable pub repair : ObligationRuntimeState → ObligationRuntimeState
repair s = record s { status = Status.repairing }

-- `state.get("policy_pack_name") or os.environ.get("OBR_POLICY_PACK", default)`
abbrev env_name : Option String → String → String
env_name none d = d
env_name (some e) d = e

unfoldable pub pack_name : Option String → Option String → String → String
pack_name none env d = env_name env d
pack_name (some n) env d = if n == "" then env_name env d else n

-- the obligation classes of the loop, with the flag that enables each
abbrev pub protocol_checks : PolicyPack → List (String × Bool)
protocol_checks pack =
    ("handoff_legality", pack.single_owner_handoff)
    ∷ ("lock_ownership_invariant", pack.lock_ownership_invariant)
    ∷ ("delegation_admissibility", pack.delegation_admissibility)
    ∷ ("state_transition_preservation", pack.state_transition_preservation)
    ∷ ("artifact_admissibility", pack.artifact_admissibility)
    ∷ ("side_effect_authorization", pack.side_effect_authorization)
    ∷ ("evidence_complete_execution_token", pack.evidence_complete_execution_token)
    ∷ []

-- the loop: the first refusal, if any
unfoldable pub first_refusal :
    List (String × Bool) → List RawEvent → PolicyPack → Result (Option PolicyDecision)
first_refusal [] events pack = ok none
first_refusal ((c, enabled) ∷ checks) events pack =
    if not enabled
    then first_refusal checks events pack
    else elim (evaluate_protocol_obligation c events pack) [
      | raise e ↦ raise e
      | ok d ↦ if is_refusal d.decision then ok (some d) else first_refusal checks events pack
    ]

unfoldable pub refuse_or_keep :
    ObligationRuntimeState → Option PolicyDecision → ObligationRuntimeState
refuse_or_keep s none = s
refuse_or_keep s (some d) = record s { policy_decision = dump_decision d; status = Status.auditing }

unfoldable pub evaluate_protocol :
    (String → Result PolicyPack)
    → Option String
    → ObligationRuntimeState
    → Result ObligationRuntimeState
unfolding first_refusal refuse_or_keep
evaluate_protocol load_pack env s =
    if is_empty s.protocol_events
    then ok s
    else elim (load_pack (pack_name s.policy_pack_name env "single_owner_handoff_v1")) [
      | raise e ↦ ok s
      | ok pack ↦
          bind (first_refusal (protocol_checks pack) s.protocol_events pack)
            (λ d. ok (refuse_or_keep s d))
    ]
