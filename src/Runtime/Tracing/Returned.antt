-- ===== src/Runtime/Tracing/Returned.antt =====
-- What a traced run returns.
use lean_lang_chain.Common.{
  ℕ, zero, suc, ◌≡◌, refl, sym, Option, none, some, Exc, Result, ok, raise,
}
use lean_lang_chain.Runtime.State.{ObligationRuntimeState}
use lean_lang_chain.Runtime.Exec.{Exec}
use lean_lang_chain.Runtime.Graph.{
  Node, Deps, run, run_node, next_node, after_node, follow, invoke, route_start,
}
use lean_lang_chain.Runtime.Tracing.{
  EventType, Tracer, emit, with_tracing, traced_run, traced_invoke, failed_as, exited, after_body,
  entered,
}

failed-raises :
    (e : Exc) (r : Result (Unit {0})) (t : ObligationRuntimeState) → failed_as e r ≡ ok t → ⊥
failed-raises e (ok _) t h = cc
failed-raises e (raise f) t h = cc

module _ {L G : Type 0} (tracer : Tracer L) where
  -- the traced call `x` returned what the call `y` returns, with the same state of the gateway
  record Same (t : ObligationRuntimeState) (x : Result ObligationRuntimeState × (G × L))
      (y : Result ObligationRuntimeState × G) : Type 0 where
    result : y.0 ≡ ok t
    gateway : x.1.0 ≡ y.1

  body-Same :
      (s : ObligationRuntimeState) (n : Node) (x : Result ObligationRuntimeState × G) (l : L)
      (t : ObligationRuntimeState)
      → (after_body tracer s n x l).0 ≡ ok t
      → Same t (after_body tracer s n x l) x
  body-Same s n (raise e, g) l t h =
      absurd (failed-raises e (emit tracer s n EventType.node_error (some e) l).0 t h)
  body-Same s n (ok u, g) l t h = left (emit tracer u n EventType.node_exit none l) h
    where
      left :
          (q : Result (Unit {0}) × L)
          → (exited tracer s n u g q).0 ≡ ok t
          → Same t (exited tracer s n u g q) (ok u, g)
      left (ok _, m) h = record { result = h; gateway = refl }
      left (raise e, m) h =
          absurd (failed-raises e (emit tracer s n EventType.node_error (some e) m).0 t h)

  node-Same :
      (n : Node) (fn : ObligationRuntimeState → Exec G ObligationRuntimeState)
      (s t : ObligationRuntimeState) (g : G) (l : L)
      → (with_tracing tracer n fn s (g, l)).0 ≡ ok t
      → Same t (with_tracing tracer n fn s (g, l)) (fn s g)
  unfolding with_tracing
  node-Same n fn s t g l h = start (emit tracer s n EventType.node_enter none l) h
    where
      start :
          (q : Result (Unit {0}) × L)
          → (entered tracer fn n s g q).0 ≡ ok t
          → Same t (entered tracer fn n s g q) (fn s g)
      start (ok _, m) h = body-Same s n (fn s g) m t h
      start (raise e, m) h = absurd cc

  after-Same :
      (d : Deps G) (f : ℕ) (n : Node) (t : ObligationRuntimeState)
      → ((m : Node) (u : ObligationRuntimeState) (g : G) (l : L)
          → (traced_run tracer d f m u (g, l)).0 ≡ ok t
          → Same t (traced_run tracer d f m u (g, l)) (run d f m u g))
      → (r : Result ObligationRuntimeState) (gl : G × L) (y : Result ObligationRuntimeState × G)
      → ((u : ObligationRuntimeState) → r ≡ ok u → (y.0 ≡ ok u) × (gl.0 ≡ y.1))
      → (after_node (traced_run tracer d f) n r gl).0 ≡ ok t
      → Same t (after_node (traced_run tracer d f) n r gl) (after_node (run d f) n y.0 y.1)
  unfolding after_node follow
  after-Same d f n t rest (raise e) gl y same h = absurd cc
  after-Same d f n t rest (ok u) (g, l) y same h =
      let (e, q) = same u refl in rw (e, sym q) (on_edge (next_node n u) h)
    where
      on_edge :
          (o : Result (Option Node))
          → (follow (traced_run tracer d f) o u (g, l)).0 ≡ ok t
          → Same t (follow (traced_run tracer d f) o u (g, l)) (follow (run d f) o u g)
      on_edge (raise e) h = absurd cc
      on_edge (ok none) h = record { result = h; gateway = refl }
      on_edge (ok (some m)) h = rest m u g l h

  run-Same :
      (d : Deps G) (f : ℕ) (n : Node) (s t : ObligationRuntimeState) (g : G) (l : L)
      → (traced_run tracer d f n s (g, l)).0 ≡ ok t
      → Same t (traced_run tracer d f n s (g, l)) (run d f n s g)
  unfolding traced_run run
  run-Same d zero n s t g l h = absurd cc
  run-Same d (suc f) n s t g l h =
      after-Same d f n t (λ m u g l h. run-Same d f m u t g l h)
        (with_tracing tracer n (run_node d n) s (g, l)).0
        (with_tracing tracer n (run_node d n) s (g, l)).1 (run_node d n s g)
        (λ u e. let w = node-Same n (run_node d n) s u g l e in (w.result, w.gateway)) h

  -- A traced run that returns a state returns the state that the run without tracing returns, and leaves
  -- the gateway as that one does, whatever the tracer does.
  pub traced_invoke-returns :
      (d : Deps G) (s t : ObligationRuntimeState) (g : G) (l : L)
      → (traced_invoke tracer d s (g, l)).0 ≡ ok t
      → (invoke d s g).0 ≡ ok t × ((traced_invoke tracer d s (g, l)).1.0 ≡ (invoke d s g).1)
  unfolding traced_invoke invoke
  traced_invoke-returns d s t g l h =
      let w = run-Same d 25 (route_start s) s t g l h in (w.result, w.gateway)
