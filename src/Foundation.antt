-- ===== src/Foundation.antt =====
-- The foundation pipeline (ci_failure_orchestrator/foundation/).
pub mod Models
pub mod StateMachine
pub mod Retry
pub mod Remediation
pub mod Evaluator
pub mod Policy
pub mod Integrity
pub mod Json
pub mod Exec
pub mod Durable
pub mod AuditLog
pub mod RunDir
pub mod Recovery
pub mod Journal
pub mod Reviewer
pub mod HumanDecision
pub mod Runner
