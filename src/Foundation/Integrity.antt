-- ===== src/Foundation/Integrity.antt =====
-- Patches that make the checks pass by weakening them:
-- ci_failure_orchestrator/foundation/verification_integrity.py.
pub mod Lines
pub mod Diff
pub mod Hunks
pub mod Paths
pub mod Analysis
pub mod Kept
pub mod Approved
