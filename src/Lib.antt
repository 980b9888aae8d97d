-- ===== src/Lib.antt =====
-- CI failure orchestrator.
--
-- The program takes a failed CI run, has a repair proposed for it, tries the repair in a sandbox,
-- decides whether another attempt is made, submits the result to a policy gate and to people, and
-- says whether the failure is fixed. A server queues such runs as jobs and hands them to workers.
--
-- The files, by the part of the program that they model:
--   Lifecycle              the status and the history that a state machine keeps
--   Foundation.Models      foundation/models.py: the data that the parts hand to each other
--   Foundation.StateMachine  foundation/state_machine.py; Order: what its table of transitions implies
--   Foundation.Evaluator   foundation/evaluator.py: LocalEvaluator.evaluate
--   Foundation.Retry       foundation/retry.py: RetryDecisionEngine.decide; Attempt: assess_progress,
--                          classify_disposition, build_attempt_record; Decide: what a decision says
--   Foundation.Policy      foundation/policy.py: Defs (data and configuration), Paths (Files:
--                          classify_file; Risk: classify_scope, classify_risk), Context
--                          (build_policy_context), Engine (StaticPolicyEngine), Gate (what a decision
--                          promises)
--   Foundation.Integrity   foundation/verification_integrity.py: Lines, Diff (parse_unified_diff), Paths,
--                          Analysis (analyze_patch); Hunks, Kept, Approved: proofs
--   Foundation.Runner      foundation/runner.py and foundation/policy_gate.py: AgentExecutionFoundation;
--                          Ends, Prepared, Approval, Verdicts, Statuses: proofs
--   Foundation.Remediation foundation/remediation.py: Evidence (states, gates, is_verified_fix),
--                          Decision (decide_remediation); Verdict, Trail: proofs
--   Foundation.Json, Exec  JSON values as Python reads them; methods that write files and may raise
--   Foundation.Durable     foundation/durable.py: the records on disk; Roundtrip: their JSON
--   Foundation.AuditLog    foundation/durable.py: FileAuditStore; Numbering (the abstract log),
--                          Holding, Refines, Torn: proofs
--   Foundation.RunDir      foundation/durable.py: the other files of a run
--   Foundation.Recovery    foundation/recovery.py; Stored, Resume, Statuses: proofs
--   Foundation.Reviewer, HumanDecision  foundation/human_decision.py; Files, Recorded, Final, Moves: proofs
--   Foundation.Journal     foundation/persistence.py: RunPersistence; Counts, Steps: proofs
--   Server.Jobs            server/jobs.py and the jobs table of server/db.py: Rows (the table and the
--                          statements that write it), Methods (JobQueue); Moves, Fencing, Once, Replay,
--                          Claim, Drain, Stages: proofs
--   Ledger                 task_idempotency.py: SQLiteCompletionLedger and IdempotentTaskDeliverer;
--                          Completed, Lease and Slow: proofs
--   Repair                 supervisor.py (Globs, Supervisor; Authority: proof) and
--                          repair_state_machine.py (Incident; Green, Chain: proofs)
--   Trust                  trust_policy.py and trust.py: Facts, Policy (TrustPolicyEngine.evaluate, the rules of
--                          config/policies.yaml at the root); Approval, Shipped: proofs.
--                          trust_gateway.py: Machine (GatewayStateMachine), Defs (records, RetryBudget,
--                          ExecutionEvaluator), Attempt, Gateway (TrustToolGateway.run); Accounts, Rounds,
--                          Ends: proofs
--   Governed               governed/pipeline.py: GovernedAgentPipeline.run (Outcomes, Pipeline), with
--                          States (state_machine.py), Defs (models.py, sandbox.py, evaluation.py,
--                          policy.py), Retry (retry.py), Classify (classifier.py, planner.py); Accounts,
--                          Endings, Rounds, Ends, Gates, Classes: proofs
--   Loops                  bodies of `while True` that return, raise or go on, and the rule by which
--                          what holds around a loop is proved; used by Trust and Governed
--   Common                 tests, lists and texts that the parts share
--   Examples               sample data
-- All paths are below ci_failure_orchestrator/. A function has the name of the source's function or
-- method, and a record has the fields of the class that the decisions read.
--
-- The runner moves a run through Foundation.StateMachine: each attempt is evaluated (Evaluator),
-- recorded (Retry.Attempt) and judged (Retry); the proposal of a passed evaluation goes to the gate
-- (Policy.Engine), which may approve, reject or escalate. Remediation judges the collected evidence.
-- The context builder, the classifier, the planner, the tools, the proposal factory, the sandbox and
-- the escalation builder, with which a runner is constructed, are arbitrary functions that may raise;
-- the block of the runner's `try` statement is a state and exception monad. The queue keeps the jobs
-- that hold such runs. The ledger keeps the results of tasks that agents are sent, by their keys.
-- Apart from the runs, a coordinator takes incidents of pull requests through planning, dispatch and
-- verification with the authority that a supervisor gives. The trust gateway is a loop of its own: it
-- has a model propose the use of a tool, asks a policy, runs the tool in a copy of the workspace and
-- verifies it, until an attempt is verified, its budget is spent or people have to decide. The model,
-- the context builder, the policy, the executor and the verifier are arbitrary functions that may
-- raise, and so may each append to the audit log and the entering and leaving of the workspace copy.
-- The governed pipeline is another loop: a failure is classified, and each attempt is planned,
-- proposed, tried in a sandbox, evaluated and, when it passed, submitted to a policy, until it is
-- approved, rejected or handed to people. Its collaborators are arbitrary functions too;
-- Governed.Pipeline.with_defaults puts in the sandbox, the evaluator and the policy that its
-- constructor takes by default.
--
-- Numbers are natural numbers without bound, as integers of the source are; a confidence or a cost,
-- floats that are compared and added, is a number of thousandths (no NaN), and a time is a number of
-- seconds. Paths and patches are lists of character codes where they are searched; `lower` folds ASCII
-- letters only. Every loop runs over a list or over the attempts that are left; the `while True` of
-- the trust gateway has as fuel the attempts that its budget has left and one more, since a round with
-- another behind it spends an attempt. The loop of the governed pipeline has the same fuel, since a
-- round goes on only below max_attempts. The texts of evidence, details and messages are data types or
-- are left out. The queue's table is the list of its rows, and each SQL statement that writes is
-- atomic; where a method reads and then writes, an arbitrary function stands for what others commit in
-- between. The JSON round trip of a stored result is a parameter of the ledger.
--
-- The directory of a run holds its state, its log of events, its evidence and what the file system
-- will do with the next writes. A line of the log is what json.loads makes of it: blank, malformed or
-- a value; a write may keep the line, lose it, leave its beginning or leave out its end. A state is
-- replaced whole or not at all. `str`, `int` and `dict` of values of unusual types are parameters.
--
-- The regular expressions of the patch analysis are parameters, as are the two taxonomies of failures
-- behind the classifier of the governed pipeline, and so is the whole analysis in the theorems on the
-- gate and on the runner, which hold for any.
--
-- Not modelled: the calls that a runner makes of its journal (the runner is one without an artifacts
-- root), the JSON of a run state, the attributes other than evidence references that a keyword of
-- RunPersistence.checkpoint could name, the sanitising of evidence, the reasons of transitions that
-- quote a rule, a retry reason or an exception, the fingerprints (texts that are only compared),
-- SHA-256, the governed pipeline's context and EvalForge adapter, its store and audit log, whose
-- writes end a run where they raise, HTTP routes, command lines, agents, benchmarks and telemetry.
pub mod Common
pub mod Lifecycle
pub mod Loops
pub mod Foundation
pub mod Ledger
pub mod Repair
pub mod Server
pub mod Examples
pub mod Trust
pub mod Governed
