-- ===== src/Agent.antt =====
-- The agent SDK (frameworks/agent-sdk/src/cobalto/agent).
pub mod Registry
pub mod Redis
pub mod Approval
pub mod Audit
pub mod Supervisor
pub mod Tools
