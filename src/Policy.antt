-- ===== src/Policy.antt =====
-- The policy package: decisions, packs, the protocol evaluators and the policy engine.
pub mod Decision
pub mod Pack
pub mod Events
pub mod Protocol
pub mod Patch
pub mod Engine
