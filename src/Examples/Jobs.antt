-- ===== src/Examples/Jobs.antt =====
-- Runs of the job queue of ci_failure_orchestrator/server/jobs.py.
use ci_failure_orchestrator.Common.{
  true, false, List, [], ◌∷◌, none, some, ◌≡◌, refl, all, any, count, str_eq, if◌then◌else◌,
}
use ci_failure_orchestrator.Server.Jobs.Rows.{
  JobRecord, Table, update, clashes, Completion, claimable, owned, expired, stale, set_claimed,
  Submission, new_job, Statement, execute, run, get, completed, failed, insert, claim_row,
  renew_row, complete_row, recover_row, is_queued,
}
use ci_failure_orchestrator.Server.Jobs.Methods.{
  complete, renew_lease, enqueue, insert_or_replay, key_in_use, by_key, created, replayed, conflict,
}
use ci_failure_orchestrator.Server.Jobs.Stages.{consistent, run-consistent}
use ci_failure_orchestrator.Server.Jobs.Once.{complete_once, recovered_for_good}
use ci_failure_orchestrator.Server.Jobs.Replay.{enqueue_replays}
use ci_failure_orchestrator.Server.Jobs.Claim.{ClaimsOldest, claim_oldest}
use ci_failure_orchestrator.Server.Jobs.Drain.{waiting, claims, Drained, claims_drain}

abbrev red_build : Submission
red_build = record {
  job_id = "job_1";
  run_id = "run_1";
  payload = "{\"log\": \"red\"}";
  request_sha256 = "d1";
  idempotency_key = some "push-17";
  now = 100;
}

abbrev other_build : Submission
other_build = record red_build {
  job_id = "job_2";
  run_id = "run_2";
  request_sha256 = "d2";
  now = 120;
}

abbrev claimed : List Statement
claimed = insert red_build ∷ claim_row "job_1" "worker_a" 30 110 ∷ []

abbrev repaired : Completion
repaired = record {
  status = completed;
  workflow_status = some "APPROVED";
  failure_class = some "TEST_FAILURE";
  error = none;
}

abbrev gave_up : Completion
gave_up = record {
  status = failed;
  workflow_status = none;
  failure_class = none;
  error = some "timeout";
}

abbrev afterwards : List Statement
afterwards = recover_row "job_1" (some "worker_a") 200 ∷ renew_row "job_1" "worker_a" 30 201 ∷ []

abbrev finished : Table
finished = execute (complete_row "job_1" "worker_a" repaired 130) (run claimed [])

finished_eq : complete "job_1" "worker_a" repaired 130 (run claimed []) ≡ some (true, finished)
unfolding complete execute run owned update claimable set_claimed new_job
finished_eq = refl

complete_once_example :
    (complete "job_1" "worker_b" gave_up 210 (run afterwards finished)
      ≡ some (false, run afterwards finished))
    × (get "job_1" (run afterwards finished) ≡ get "job_1" finished)
complete_once_example =
    complete_once claimed "job_1" "worker_a" repaired 130 finished finished_eq afterwards "worker_b"
      gave_up 210 refl

expired_lease : count (stale "job_1" 200) (run claimed []) ≡ 1
unfolding execute run update claimable set_claimed new_job stale expired clashes
expired_lease = refl

recovered_for_good_example :
    let recovered = execute (recover_row "job_1" (some "worker_a") 200) (run claimed []) in
    (complete "job_1" "worker_a" repaired 220 (run [] recovered) ≡ some (false, run [] recovered))
    × (renew_lease "job_1" "worker_a" 30 220 (run [] recovered) ≡ (false, run [] recovered))
    × (get "job_1" (run [] recovered) ≡ get "job_1" recovered)
recovered_for_good_example =
    recovered_for_good claimed "job_1" (some "worker_a") 200 expired_lease [] "worker_a" repaired 30
      220 refl

first_enqueue :
    enqueue (λ rows. rows) red_build []
    ≡ (created (new_job red_build), execute (insert red_build) [])
unfolding enqueue insert_or_replay key_in_use by_key
first_enqueue = refl

-- The second submission has the key of the first and another body.
enqueue_replays_example :
    (r : JobRecord) × (r.job_id ≡ "job_1")
    × (by_key "push-17" (run [] (execute (insert red_build) [])) ≡ some r)
    × (enqueue (λ rows. rows) other_build (run [] (execute (insert red_build) [])) ≡ (
      (if str_eq "d1" "d2" then replayed r else conflict),
      run [] (execute (insert red_build) []),
    ))
enqueue_replays_example =
    enqueue_replays (λ rows. rows) "push-17" red_build [] (execute (insert red_build) [])
      (new_job red_build) refl refl first_enqueue [] (λ rows. rows) other_build refl

abbrev both : List Statement
both = insert (record other_build { idempotency_key = none }) ∷ insert red_build ∷ []

both_queued : any (λ r. is_queued r.status) (run both []) ≡ true
unfolding execute run new_job clashes
both_queued = refl

claim_oldest_example : ClaimsOldest "worker_a" 30 130 (run both [])
claim_oldest_example = claim_oldest both "worker_a" 30 130 both_queued

run-consistent_example : all consistent (run (claimed) []) ≡ true
run-consistent_example = run-consistent claimed

claims_drain_example :
    Drained "worker_a"
      (waiting (run both []))
      (claims (waiting (run both [])) "worker_a" 30 130 (run both [])).0
      (claims (waiting (run both [])) "worker_a" 30 130 (run both [])).1
claims_drain_example = claims_drain both "worker_a" 30 130

-- Both jobs wait in this example.
both_wait : waiting (run both []) ≡ 2
unfolding execute run new_job clashes
both_wait = refl
