-- ===== src/Soar.antt =====
-- The SOAR SDK (frameworks/soar-sdk/src/cobalto/soar): playbooks and workflows.
pub mod Playbook
pub mod Template
pub mod Versions
pub mod Workflow
pub mod Condition
pub mod Actions
pub mod Parallel
pub mod Engine
