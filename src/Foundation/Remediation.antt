-- ===== src/Foundation/Remediation.antt =====
-- The decision on whether a repair is verified: ci_failure_orchestrator/foundation/remediation.py.
-- `risk_level` is one of the three levels of foundation/diff_risk.py or any other text; the reasons
-- of a decision are a data type, and codes and test names are texts.
pub mod Evidence
pub mod Decision
pub mod Verdict
pub mod Trail
