-- ===== src/Repair.antt =====
-- Repairs of pull requests under a supervisor (ci_failure_orchestrator/supervisor.py,
-- repair_state_machine.py).
pub mod Globs
pub mod Supervisor
pub mod Authority
pub mod Incident
pub mod Green
pub mod Chain
