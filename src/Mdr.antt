-- ===== src/Mdr.antt =====
-- services/cobalt-mdr-ops: service levels, escalation and the assignment of alerts.
pub mod Sla
pub mod Scheduling
