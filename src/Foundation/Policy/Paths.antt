-- ===== src/Foundation/Policy/Paths.antt =====
-- How the policy gate reads changed paths: `normalize_path`, `classify_file`, `classify_scope` and
-- `classify_risk` of ci_failure_orchestrator/foundation/policy.py.
pub mod Files
pub mod Risk
