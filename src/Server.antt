-- ===== src/Server.antt =====
-- The control-plane server (ci_failure_orchestrator/server/).
pub mod Jobs
