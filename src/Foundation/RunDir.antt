-- ===== src/Foundation/RunDir.antt =====
-- The directory of one run under the artifacts root, as `FileStateStore`, `FileAuditStore` and
-- `FileEvidenceStore` of ci_failure_orchestrator/foundation/durable.py read and write it. Time stamps of
-- the state are left out.
use ci_failure_orchestrator.Common.{
  ℕ, String, str_append, Bool, true, false, List, [], ◌∷◌, ◌++◌, Option, any, str_eq, if◌then◌else◌,
}
use ci_failure_orchestrator.Foundation.Json.{Json, Builtins}
use ci_failure_orchestrator.Foundation.Exec.{
  Exception, persistence_error, file_not_found, Result, ok, raised, Exec, raise_if, return, ◌>>◌,
}
use ci_failure_orchestrator.Foundation.Durable.{AuditEvent, DurableEvidenceRef}
use ci_failure_orchestrator.Foundation.AuditLog.{FileAuditStore, restart, Write, kept, append}

pub record DurableRunState : Type 0 where
  pub schema_version : String
  pub run_id : String
  pub workflow_status : String
  pub technical_status : Option String
  pub policy_outcome : Option String
  pub current_attempt : ℕ
  pub failure_event_ref : Option String
  pub classification_ref : Option String
  pub current_plan_ref : Option String
  pub current_proposal_ref : Option String
  pub latest_evaluation_ref : Option String
  pub latest_policy_decision_ref : Option String
  pub latest_retry_decision_ref : Option String
  pub escalation_ref : Option String
  pub reviewer_decision_ref : Option String
  pub last_event_sequence : ℕ
  pub stop_reason : Option String

-- state.json: absent, with the exception that loading it raises, or with a run.
pub data StateFile : Type 0 where
  no_state : StateFile
  unreadable : Exception → StateFile
  holds : DurableRunState → StateFile

-- escalation/summary.json: absent, no JSON, or the JSON of a value.
pub data SummaryFile : Type 0 where
  no_summary bad_summary : SummaryFile
  summary : Json → SummaryFile

-- `files` are the paths of the files of the run, relative to its root; `writes` is what the file
-- system will do with the next writes, and it keeps those behind them.
pub record RunDir : Type 0 where
  pub state : StateFile
  pub audit : FileAuditStore
  pub escalation_summary : SummaryFile
  pub files : List String
  pub writes : List Write

abbrev pub is_file : String → RunDir → Bool
is_file path d = any (str_eq path) d.files

abbrev pub next_write : RunDir → Write × RunDir
next_write d = elim d.writes [ [] ↦ (kept, d) | w ∷ ws ↦ (w, record d { writes = ws }) ]

-- `atomic_write_text`: a write that fails leaves the old file in place.
unfoldable pub atomic_write : (RunDir → RunDir) → Exec RunDir Unit
atomic_write replace d =
    let (w, d') = next_write d in
    elim w [ kept ↦ (ok tt, replace d') | _ ↦ (raised persistence_error, d') ]

-- `FileStateStore.exists`, `save_run`, `create_run` and `load_run`.
abbrev pub exists : RunDir → Bool
exists d = elim d.state [ no_state ↦ false | _ ↦ true ]

unfoldable pub save_run : DurableRunState → Exec RunDir Unit
save_run run = atomic_write λ d. record d { state = holds run }

unfoldable pub create_run : DurableRunState → Exec RunDir Unit
create_run run = do λ d. raise_if (exists d) persistence_error d; save_run run

unfoldable pub load_run : RunDir → Result DurableRunState
load_run d = elim d.state [
  | no_state ↦ raised file_not_found
  | unreadable x ↦ raised x
  | holds run ↦ ok run
]

-- A new `FileAuditStore` on the directory.
abbrev pub new_audit_store : RunDir → RunDir
new_audit_store d = record d { audit = restart d.audit }

-- `audit.append(event)`.
unfoldable pub append_event : Builtins → AuditEvent → Exec RunDir Unit
append_event py e d =
    let (w, d') = next_write d in
    let (answer, audit) = append py e w d'.audit in (answer, record d' { audit = audit })

-- `FileEvidenceStore.KIND_DIRS.get(kind, kind)`.
unfoldable pub kind_dir : String → String
kind_dir kind =
    if str_eq kind "plan"
    then "plans"
    else if str_eq kind "attempt"
    then "attempts"
    else if any (str_eq kind) ("proposal" ∷ "patch" ∷ [])
    then "proposals"
    else if str_eq kind "evaluation"
    then "evaluations"
    else if str_eq kind "tool"
    then "tools"
    else kind

-- `FileEvidenceStore.write_json` with a name that ends in .json and has no backslash.
unfoldable pub write_json : String → String → Exec RunDir DurableEvidenceRef
write_json kind name =
    let path = str_append (str_append (kind_dir kind) "/") name in
    do
      atomic_write λ d. record d { files = d.files ++ path ∷ [] }
      return (record { kind = kind; ref = path; content_type = "application/json" })
