-- ===== src/Tests.antt =====
-- Concrete packs, events and states, and the theorems applied to them.
pub mod Samples
pub mod Policy
pub mod Runs
pub mod Gateway
pub mod Servers
pub mod Services
pub mod Clients
pub mod Text
pub mod Protocol
pub mod Cli
pub mod Stores
pub mod Tables
pub mod Tools
pub mod Traces
pub mod System
pub mod Answers
