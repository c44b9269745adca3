-- ===== src/Gateway.antt =====
-- The gateway: what it keeps between requests, and how it combines a batch run.
pub mod Map
pub mod Reviews
pub mod Queues
pub mod Batch
pub mod Sessions
pub mod Runners
pub mod Slots
pub mod Lsp
pub mod Interactive
pub mod Files
pub mod Errors
pub mod Paths
pub mod Health
pub mod Routes
pub mod Webhooks
