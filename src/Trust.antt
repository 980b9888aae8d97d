-- ===== src/Trust.antt =====
-- The trust gateway of tools: ci_failure_orchestrator/trust_gateway.py and the decisions of
-- trust_policy.py.
pub mod Machine
pub mod Defs
pub mod Facts
pub mod Policy
pub mod Approval
pub mod Shipped
pub mod Attempt
pub mod Gateway
pub mod Accounts
pub mod Rounds
pub mod Ends
