-- ===== src/Examples.antt =====
-- Sample data of the program's parts, and the theorems at it.
mod Jobs
mod Ledger
mod Repair
mod Incidents
mod Durable
mod Integrity
mod Trust
mod Governed
mod Recovered
mod Runs
mod Verdict
mod Policy
