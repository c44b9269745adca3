-- ===== src/Runtime/Graph.antt =====
-- apps/orchestrator/lean_langchain_orchestrator/runtime/graph.py and routes.py: the nodes, the
-- edges, and a run. The engine of LangGraph runs a node, merges its updates into the state and
-- follows the node's edge; it stops with an error after 25 nodes, its default recursion limit.
pub mod Limit
pub mod Safety
pub mod Routing
pub mod Accepted
pub mod Evidence
pub mod Resume
pub mod Refused
pub mod Verified
use lean_lang_chain.Common.{
  ℕ, zero, suc, String, Bool, true, false, not, ◌&&◌, Option, none, some, List, [], ◌∷◌, Result, ok,
  raise, runtime_error, if◌then◌else◌,
}
use lean_lang_chain.Common.{◌>>=◌ as bind}
use lean_lang_chain.Json.{Json, str, truthy, dict_get, dict_get_or, is_str}
use lean_lang_chain.Policy.Pack.{PolicyPack}
use lean_lang_chain.Policy.Engine.{iterate}
use lean_lang_chain.Runtime.State.{ObligationRuntimeState}
use lean_lang_chain.Runtime.Exec.{Exec, Client, pure, lift}
use lean_lang_chain.Runtime.Handlers
use lean_lang_chain.Runtime.Review
use lean_lang_chain.Runtime.Review.{is_decided}
use lean_lang_chain.Runtime.Finalize
use lean_lang_chain.Runtime.Finalize.{Models}

pub data Node : Type 0 where
  init_environment retrieve_context draft_candidate interactive_check batch_verify : Node
  audit_trust evaluate_protocol policy_review interrupt_for_approval finalize : Node
  repair_from_diagnostics repair_from_goals resume_with_approval : Node

-- what the graph is built from, and what its nodes call outside the repository
pub record Deps (G : Type 0) : Type 1 where
  pub client : Client G
  pub load_pack : String → Result PolicyPack
  pub env_pack : Option String
  pub sha256 : String → String
  pub models : Models
  pub validate_review : Json → Option Json
  pub bundle_id : String

unfoldable pub run_node :
    {G : Type 0} → Deps G → Node → ObligationRuntimeState → Exec G ObligationRuntimeState
run_node d Node.init_environment s = Handlers.init_environment d.client s
run_node d Node.retrieve_context s = pure (Handlers.retrieve_context s)
run_node d Node.draft_candidate s = pure (Handlers.draft_candidate s)
run_node d Node.interactive_check s = Handlers.interactive_check d.client s
run_node d Node.batch_verify s = Handlers.batch_verify d.client s
run_node d Node.audit_trust s = pure (Handlers.audit_trust s)
run_node d Node.evaluate_protocol s = lift (Handlers.evaluate_protocol d.load_pack d.env_pack s)
run_node d Node.policy_review s = lift (Review.policy_review d.sha256 d.load_pack d.env_pack s)
run_node d Node.interrupt_for_approval s =
    Review.interrupt_for_approval d.client d.validate_review d.sha256 s
run_node d Node.finalize s = lift (Finalize.finalize d.models d.bundle_id s)
run_node d Node.repair_from_diagnostics s = pure (Handlers.repair s)
run_node d Node.repair_from_goals s = pure (Handlers.repair s)
run_node d Node.resume_with_approval s = pure (Review.resume_with_approval s)

-- `any(g.get("text") for g in goals)`, which stops at the first that is true
unfoldable pub any_text : List Json → Result Bool
unfolding dict_get truthy
any_text [] = ok false
any_text (g ∷ gs) = bind (dict_get g "text") (λ t. if truthy t then ok true else any_text gs)

open_goals : Json → Result Bool
unfolding truthy iterate any_text
open_goals goals = if truthy goals then bind (iterate goals) any_text else ok false

unfoldable pub route_after_interactive : ObligationRuntimeState → Result Node
unfolding truthy dict_get open_goals
route_after_interactive s =
    if not (truthy s.interactive_result)
    then ok Node.batch_verify
    else bind (dict_get s.interactive_result "ok") λ is_ok.
      if not (truthy is_ok)
      then ok Node.repair_from_diagnostics
      else bind (dict_get s.interactive_result "goals") λ goals.
        bind (open_goals goals)
          λ found. ok (if found then Node.repair_from_goals else Node.batch_verify)

-- `none` is the end of the graph
unfoldable pub route_after_policy : ObligationRuntimeState → Result (Option Node)
unfolding truthy dict_get_or
route_after_policy s =
    if not (truthy s.policy_decision)
    then ok (some Node.finalize)
    else bind (dict_get_or s.policy_decision "decision" (str "failed")) λ decision.
      if is_str "accepted" decision
      then ok (some Node.finalize)
      else if is_str "needs_review" decision
      then ok (some Node.interrupt_for_approval)
      else ok none

unfoldable pub route_start : ObligationRuntimeState → Node
route_start s =
    if s.approval_required && is_decided s.approval_decision
    then Node.resume_with_approval
    else Node.init_environment

unfoldable pub route_after_resume : ObligationRuntimeState → Option Node
route_after_resume s = if is_str "approved" s.approval_decision then some Node.finalize else none

-- the edges of `build_patch_admissibility_graph`
unfoldable pub next_node : Node → ObligationRuntimeState → Result (Option Node)
unfolding route_after_interactive route_after_policy route_after_resume
next_node Node.init_environment s = ok (some Node.retrieve_context)
next_node Node.retrieve_context s = ok (some Node.draft_candidate)
next_node Node.draft_candidate s = ok (some Node.interactive_check)
next_node Node.interactive_check s = bind (route_after_interactive s) (λ n. ok (some n))
next_node Node.batch_verify s = ok (some Node.audit_trust)
next_node Node.audit_trust s = ok (some Node.evaluate_protocol)
next_node Node.evaluate_protocol s = ok (some Node.policy_review)
next_node Node.policy_review s = route_after_policy s
next_node Node.interrupt_for_approval s = ok none
next_node Node.finalize s = ok none
next_node Node.repair_from_diagnostics s = ok none
next_node Node.repair_from_goals s = ok none
next_node Node.resume_with_approval s = ok (route_after_resume s)

module _ {G : Type 0} (rest : Node → ObligationRuntimeState → Exec G ObligationRuntimeState) where
  -- along the edge that was chosen
  unfoldable pub follow :
      Result (Option Node) → ObligationRuntimeState → Exec G ObligationRuntimeState
  follow (raise e) s g = (raise e, g)
  follow (ok none) s g = (ok s, g)
  follow (ok (some m)) s g = rest m s g

  unfoldable pub after_node : Node → Result ObligationRuntimeState → Exec G ObligationRuntimeState
  unfolding follow
  after_node n (raise e) g = (raise e, g)
  after_node n (ok s) g = follow (next_node n s) s g

-- from a node to the end; the fuel is the recursion limit
unfoldable pub run :
    {G : Type 0} → Deps G → ℕ → Node → ObligationRuntimeState → Exec G ObligationRuntimeState
unfolding after_node
run d zero n s g = (raise runtime_error, g)
run d (suc fuel) n s g = let (r, g') = run_node d n s g in after_node (run d fuel) n r g'

-- `graph.invoke(state)`
unfoldable pub invoke :
    {G : Type 0} → Deps G → ObligationRuntimeState → Exec G ObligationRuntimeState
unfolding run route_start
invoke d s = run d 25 (route_start s) s
