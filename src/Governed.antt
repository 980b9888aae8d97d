-- ===== src/Governed.antt =====
-- The governed pipeline: ci_failure_orchestrator/governed/.
pub mod States
pub mod Defs
pub mod Retry
pub mod Classify
pub mod Outcomes
pub mod Pipeline
pub mod Accounts
pub mod Endings
pub mod Rounds
pub mod Ends
pub mod Gates
pub mod Classes
