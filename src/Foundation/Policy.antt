-- ===== src/Foundation/Policy.antt =====
-- The policy gate: ci_failure_orchestrator/foundation/policy.py. Defs has its data and configuration,
-- Paths how it reads changed paths, Engine its rules, Gate what its decisions promise.
pub mod Defs
pub mod Paths
pub mod Context
pub mod Engine
pub mod Gate
