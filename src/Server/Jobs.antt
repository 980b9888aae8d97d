-- ===== src/Server/Jobs.antt =====
-- The job queue: ci_failure_orchestrator/server/jobs.py and the `jobs` table of server/db.py. The
-- table is the list of its rows. Every SQL statement that writes is atomic and is a `Statement`, so an
-- interleaving of workers, clients and recovery is a list of statements; the methods of `JobQueue` are
-- their compositions with nothing in between. Times count seconds, a payload is its canonical JSON, and
-- its SHA-256 is a parameter. The columns workflow and repository, which are only listed, are left out.
pub mod Rows
pub mod Methods
pub mod Stages
pub mod Moves
pub mod Fencing
pub mod Once
pub mod Replay
pub mod Claim
pub mod Drain
