-- ===== src/Mcp.antt =====
-- apps/orchestrator/lean_langchain_orchestrator: mcp_session_store.py and mcp_server.py.
pub mod Store
pub mod Redis
pub mod Session
pub mod Catalog
pub mod Tools
pub mod Requests
pub mod Postgres
