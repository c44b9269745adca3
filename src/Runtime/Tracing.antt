-- ===== src/Runtime/Tracing.antt =====
-- apps/orchestrator/lean_langchain_orchestrator/runtime/graph.py: _emit and _with_tracing, around the nodes of
-- a run. `env_hash` is the text that stands for an environment without a fingerprint. The status, the
-- times and the time stamp of an event are left out.
pub mod Returned
use lean_lang_chain.Common.{
  ℕ, zero, suc, String, Option, none, some, Exc, runtime_error, Result, ok, raise, if◌then◌else◌,
}
use lean_lang_chain.Common.{◌>>=◌ as bind}
use lean_lang_chain.Json.{Json, str, dict_get, or_dict, truthy}
use lean_lang_chain.Runtime.State.{ObligationRuntimeState}
use lean_lang_chain.Runtime.Exec.{Exec}
use lean_lang_chain.Runtime.Graph.{Node, Deps, run_node, after_node, route_start}

pub data EventType : Type 0 where
  node_enter node_exit node_error : EventType

unfoldable pub node_name : Node → String
node_name Node.init_environment = "init_environment"
node_name Node.retrieve_context = "retrieve_context"
node_name Node.draft_candidate = "draft_candidate"
node_name Node.interactive_check = "interactive_check"
node_name Node.batch_verify = "batch_verify"
node_name Node.audit_trust = "audit_trust"
node_name Node.evaluate_protocol = "evaluate_protocol"
node_name Node.policy_review = "policy_review"
node_name Node.interrupt_for_approval = "interrupt_for_approval"
node_name Node.finalize = "finalize"
node_name Node.repair_from_diagnostics = "repair_from_diagnostics"
node_name Node.repair_from_goals = "repair_from_goals"
node_name Node.resume_with_approval = "resume_with_approval"

-- SPAN_BY_NODE, with the name of a node that it leaves out
unfoldable pub span_name : Node → String
span_name Node.init_environment = "obr.init_environment"
span_name Node.retrieve_context = "obr.retrieve_context"
span_name Node.draft_candidate = "obr.retrieve_context"
span_name Node.interactive_check = "obr.interactive_check"
span_name Node.batch_verify = "obr.batch_verify"
span_name Node.audit_trust = "obr.audit_trust"
span_name Node.evaluate_protocol = "obr.evaluate_protocol"
span_name Node.policy_review = "obr.policy_review"
span_name Node.interrupt_for_approval = "obr.interrupt_for_approval"
span_name Node.finalize = "obr.finalize"
span_name Node.repair_from_diagnostics = "obr.interactive_check"
span_name Node.repair_from_goals = "obr.interactive_check"
span_name Node.resume_with_approval = "obr.finalize"

-- an event; the failure is that of a node that raised
pub record Event : Type 0 where
  pub event_type : EventType
  pub span_name : String
  pub thread_id : String
  pub obligation_id : String
  pub node_name : String
  pub failure : Option Exc
  pub session_id : Json
  pub environment_hash : Json

-- an object with `emit`, in the states `L`
pub record Tracer (L : Type 0) : Type 0 where
  pub emit : Event → Exec L (Unit {0})
  pub env_hash : Json → String

abbrev hash_of : (Json → String) → Json → Json → Json
hash_of env_hash env fid = if truthy fid then fid else str (env_hash env)

abbrev event_of : ObligationRuntimeState → Node → EventType → Option Exc → Json → Event
event_of s n kind failure hash = record {
  event_type = kind;
  span_name = span_name n;
  thread_id = s.thread_id;
  obligation_id = s.obligation_id;
  node_name = node_name n;
  failure = failure;
  session_id = s.session_id;
  environment_hash = hash;
}

-- an exception of the tracer takes the place of the node's
abbrev failed_as : Exc → Result (Unit {0}) → Result ObligationRuntimeState
failed_as e (ok _) = raise e
failed_as e (raise f) = raise f

module _ {L : Type 0} (tracer : Tracer L) where
  abbrev sent :
      ObligationRuntimeState → Node → EventType → Option Exc → Result Json → Exec L (Unit {0})
  sent s n kind failure (raise e) l = (raise e, l)
  sent s n kind failure (ok hash) l = tracer.emit (event_of s n kind failure hash) l

  -- `_emit`; an environment that is no dictionary raises
  unfoldable pub emit : ObligationRuntimeState → Node → EventType → Option Exc → Exec L (Unit {0})
  unfolding span_name node_name or_dict truthy dict_get
  emit s n kind failure l =
      let env = or_dict s.environment_fingerprint in
      sent s n kind failure
        (bind (dict_get env "fingerprint_id") (λ fid. ok (hash_of tracer.env_hash env fid))) l

  module _ {G : Type 0} where
    -- the `except` clause
    abbrev failing : ObligationRuntimeState → Node → Exc → Exec (G × L) ObligationRuntimeState
    failing s n e (g, l) =
        let (r, l') = emit s n EventType.node_error (some e) l in (failed_as e r, (g, l'))

    abbrev exited :
        ObligationRuntimeState
        → Node
        → ObligationRuntimeState
        → G
        → Result (Unit {0}) × L
        → Result ObligationRuntimeState × (G × L)
    exited s n t g (ok _, l) = (ok t, (g, l))
    exited s n t g (raise e, l) = failing s n e (g, l)

    abbrev after_body :
        ObligationRuntimeState
        → Node
        → Result ObligationRuntimeState × G
        → L
        → Result ObligationRuntimeState × (G × L)
    after_body s n (raise e, g) l = failing s n e (g, l)
    after_body s n (ok t, g) l = exited s n t g (emit t n EventType.node_exit none l)

    abbrev entered :
        (ObligationRuntimeState → Exec G ObligationRuntimeState)
        → Node
        → ObligationRuntimeState
        → G
        → Result (Unit {0}) × L
        → Result ObligationRuntimeState × (G × L)
    entered fn n s g (raise e, l) = (raise e, (g, l))
    entered fn n s g (ok _, l) = after_body s n (fn s g) l

    -- `_with_tracing`
    unfoldable pub with_tracing :
        Node
        → (ObligationRuntimeState → Exec G ObligationRuntimeState)
        → ObligationRuntimeState
        → Exec (G × L) ObligationRuntimeState
    unfolding emit
    with_tracing n fn s (g, l) = entered fn n s g (emit s n EventType.node_enter none l)

    -- a run whose nodes are traced
    unfoldable pub traced_run :
        Deps G → ℕ → Node → ObligationRuntimeState → Exec (G × L) ObligationRuntimeState
    unfolding with_tracing run_node after_node
    traced_run d zero n s gl = (raise runtime_error, gl)
    traced_run d (suc fuel) n s gl =
        let (r, gl') = with_tracing n (run_node d n) s gl in after_node (traced_run d fuel) n r gl'

    unfoldable pub traced_invoke :
        Deps G → ObligationRuntimeState → Exec (G × L) ObligationRuntimeState
    unfolding traced_run route_start
    traced_invoke d s = traced_run d 25 (route_start s) s
