-- ===== src/Runtime/Graph/Limit.antt =====
-- The graph has no cycle, so the recursion limit never cuts a run short.
use lean_lang_chain.Common.{
  refl, none, some, zero, suc, ℕ, ◌<◌, ◌≡◌, ok, arith, Result, raise, Option,
}
use lean_lang_chain.Runtime.State.{ObligationRuntimeState}
use lean_lang_chain.Runtime.Graph.{Deps, run_node, follow, after_node, run, Node, next_node}

-- the most nodes that may follow
abbrev pub depth : Node → ℕ
depth Node.init_environment = 8
depth Node.retrieve_context = 7
depth Node.draft_candidate = 6
depth Node.interactive_check = 5
depth Node.batch_verify = 4
depth Node.audit_trust = 3
depth Node.evaluate_protocol = 2
depth Node.policy_review = 1
depth Node.resume_with_approval = 1
depth _ = 0

next-depth :
    (n m : Node) (s : ObligationRuntimeState) → next_node n s ≡ ok (some m) → depth m < depth n
unfolding next_node
next-depth Node.init_environment m s h = ground arith
next-depth Node.interactive_check m s h = ground arith
next-depth Node.policy_review m s h = ground arith
next-depth Node.resume_with_approval m s h = ground arith
next-depth _ m s h = ground arith

module _ {G : Type 0} (d : Deps G) where
  -- a run after a node, at two amounts of fuel that give the same for what may follow
  after_node-fuel :
      (f f' : ℕ) (n : Node)
      → ((m : Node) (s : ObligationRuntimeState) (g : G)
          → depth m < depth n
          → run d f m s g ≡ run d f' m s g)
      → (r : Result ObligationRuntimeState) (g : G)
      → after_node (run d f) n r g ≡ after_node (run d f') n r g
  unfolding after_node
  after_node-fuel f f' n same (raise e) g = refl
  after_node-fuel f f' n same (ok s) g = go (next_node n s) refl
    where
      go :
          (o : Result (Option Node))
          → next_node n s ≡ o
          → follow (run d f) o s g ≡ follow (run d f') o s g
      go (raise e) h = refl
      go (ok none) h = refl
      go (ok (some m)) h = same m s g (next-depth n m s h)

  -- Any two amounts of fuel above the number of nodes that may follow give the same run, be it a state or
  -- an exception.
  pub run-fuel :
      (f f' : ℕ) (n : Node) (s : ObligationRuntimeState) (g : G)
      → depth n < f
      → depth n < f'
      → run d f n s g ≡ run d f' n s g
  unfolding run
  run-fuel zero f' n s g p q = absurd (omega arith)
  run-fuel (suc f) zero n s g p q = absurd (omega arith)
  run-fuel (suc f) (suc f') n s g p q =
      after_node-fuel f f' n (λ m t h less. run-fuel f f' m t h (omega arith) (omega arith))
        (run_node d n s g).0 (run_node d n s g).1
