-- ===== src/Foundation/Durable.antt =====
-- The records of a run that are kept on disk, and their JSON: ci_failure_orchestrator/foundation/durable.py.
pub mod Roundtrip
use ci_failure_orchestrator.Common.{
  ℕ, String, Bool, List, [], ◌∷◌, Option, none, some, str_eq, if◌then◌else◌,
}
use ci_failure_orchestrator.Foundation.Json.{
  Json, null, number, text, array, object, Items, stop, item, Members, end, member, Builtins,
  Decoded, decoded, rejected, attribute_error, ◌>>=◌, caught, get, require, truthy, or_else, str,
  int, dict,
}

abbrev pub durable_schema : String
durable_schema = "foundation.durable.v1"

abbrev pub audit_schema : String
audit_schema = "foundation.audit.v1"

pub data AuditEventType : Type 0 where
  run_created run_resumed context_built failure_classified plan_created attempt_started tool_called
        tool_completed proposal_created sandbox_started sandbox_completed evaluation_completed
        retry_decided retry_started retry_stopped policy_review_started policy_approved
        policy_rejected policy_escalated escalation_package_created awaiting_human
        human_decision_recorded human_approved human_rejected target_patch_applied
        target_branch_pushed target_pr_opened repair_verification_completed run_succeeded run_failed
        persistence_error worker_lease_expired :
      AuditEventType

-- `event_type.value`.
abbrev pub event_value : AuditEventType → String
event_value run_created = "RUN_CREATED"
event_value run_resumed = "RUN_RESUMED"
event_value context_built = "CONTEXT_BUILT"
event_value failure_classified = "FAILURE_CLASSIFIED"
event_value plan_created = "PLAN_CREATED"
event_value attempt_started = "ATTEMPT_STARTED"
event_value tool_called = "TOOL_CALLED"
event_value tool_completed = "TOOL_COMPLETED"
event_value proposal_created = "PROPOSAL_CREATED"
event_value sandbox_started = "SANDBOX_STARTED"
event_value sandbox_completed = "SANDBOX_COMPLETED"
event_value evaluation_completed = "EVALUATION_COMPLETED"
event_value retry_decided = "RETRY_DECIDED"
event_value retry_started = "RETRY_STARTED"
event_value retry_stopped = "RETRY_STOPPED"
event_value policy_review_started = "POLICY_REVIEW_STARTED"
event_value policy_approved = "POLICY_APPROVED"
event_value policy_rejected = "POLICY_REJECTED"
event_value policy_escalated = "POLICY_ESCALATED"
event_value escalation_package_created = "ESCALATION_PACKAGE_CREATED"
event_value awaiting_human = "AWAITING_HUMAN"
event_value human_decision_recorded = "HUMAN_DECISION_RECORDED"
event_value human_approved = "HUMAN_APPROVED"
event_value human_rejected = "HUMAN_REJECTED"
event_value target_patch_applied = "TARGET_PATCH_APPLIED"
event_value target_branch_pushed = "TARGET_BRANCH_PUSHED"
event_value target_pr_opened = "TARGET_PR_OPENED"
event_value repair_verification_completed = "REPAIR_VERIFICATION_COMPLETED"
event_value run_succeeded = "RUN_SUCCEEDED"
event_value run_failed = "RUN_FAILED"
event_value persistence_error = "PERSISTENCE_ERROR"
event_value worker_lease_expired = "WORKER_LEASE_EXPIRED"

pub record DurableEvidenceRef : Type 0 where
  pub kind : String
  pub ref : String
  pub content_type : String

-- `state_before` and `state_after` hold what the file has, of whatever type.
pub record AuditEvent : Type 0 where
  pub schema_version : String
  pub event_id : String
  pub run_id : String
  pub sequence : ℕ
  pub timestamp : String
  pub event_type : String
  pub actor : String
  pub component : String
  pub state_before : Json
  pub state_after : Json
  pub evidence_refs : List DurableEvidenceRef
  pub metadata : Members

-- `new_id("evt")` and `utc_now()` for a new event.
pub record Stamp : Type 0 where
  pub event_id : String
  pub timestamp : String

abbrev pub ref_members : DurableEvidenceRef → Members
ref_members r =
    member "kind" (text r.kind)
      (member "ref" (text r.ref) (member "content_type" (text r.content_type) end))

unfoldable pub refs_to_items : List DurableEvidenceRef → Items
refs_to_items [] = stop
refs_to_items (r ∷ rs) = item (object (ref_members r)) (refs_to_items rs)

-- `AuditEvent.to_dict`.
unfoldable pub to_dict : AuditEvent → Json
to_dict e = object (
    member "schema_version" (text e.schema_version) (
      member "event_id" (text e.event_id) (
        member "run_id" (text e.run_id) (
          member "sequence" (number e.sequence) (
            member "timestamp" (text e.timestamp) (
              member "event_type" (text e.event_type) (
                member "actor" (text e.actor) (
                  member "component" (text e.component) (
                    member "state_before" e.state_before (
                      member "state_after" e.state_after (
                        member "evidence_refs" (array (refs_to_items e.evidence_refs))
                          (member "metadata" (object e.metadata) end))))))))))))

module _ (py : Builtins) where
  unfoldable pub ref_from_dict : Members → DurableEvidenceRef
  ref_from_dict ms = record {
    kind = str py (or_else (get "kind" ms) (text ""));
    ref = str py (or_else (get "ref" ms) (text ""));
    content_type = str py (or_else (get "content_type" ms) (text "application/json"));
  }

  -- Each element is asked for its `get`.
  unfoldable pub refs_from_items : Items → Decoded (List DurableEvidenceRef)
  unfolding ref_from_dict
  refs_from_items stop = decoded []
  refs_from_items (item (object ms) vs) = do
    rest ← refs_from_items vs
    decoded (ref_from_dict ms ∷ rest)
  refs_from_items (item _ vs) = attribute_error

  -- The loop over `data.get("evidence_refs") or []`: an object gives its keys and a text its
  -- characters, which have no `get`.
  unfoldable pub refs_from : Json → Decoded (List DurableEvidenceRef)
  refs_from (array vs) = refs_from_items vs
  refs_from (text s) = attribute_error
  refs_from (object ms) = attribute_error
  refs_from _ = rejected

  -- `AuditEvent.from_dict`.
  unfoldable pub from_dict : Json → Decoded AuditEvent
  unfolding refs_from refs_from_items
  from_dict (object data') = do
    refs ← refs_from (or_else (get "evidence_refs" data') (array stop))
    event_id ← caught (require "event_id" data')
    run_id ← caught (require "run_id" data')
    given_sequence ← caught (require "sequence" data')
    sequence ← caught (int py given_sequence)
    event_type ← caught (require "event_type" data')
    metadata ← caught (dict py (or_else (get "metadata" data') (object end)))
    decoded (record {
      schema_version = str py (or_else (get "schema_version" data') (text audit_schema));
      event_id = str py event_id;
      run_id = str py run_id;
      sequence = sequence;
      timestamp = str py (or_else (get "timestamp" data') (text ""));
      event_type = str py event_type;
      actor = str py (or_else (get "actor" data') (text "orchestrator"));
      component = str py (or_else (get "component" data') (text "foundation"));
      state_before = get "state_before" data';
      state_after = get "state_after" data';
      evidence_refs = refs;
      metadata = metadata;
    })
  from_dict _ = attribute_error
