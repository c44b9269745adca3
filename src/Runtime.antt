-- ===== src/Runtime.antt =====
-- The orchestrator's runtime: state, node handlers, routes and the patch-admissibility graph.
pub mod State
pub mod Exec
pub mod Dump
pub mod Handlers
pub mod Review
pub mod Finalize
pub mod Graph
pub mod Tracing
