-- ===== src/Foundation/Durable/Roundtrip.antt =====
-- What is read back of an event that was written (`AuditEvent.to_dict` and `from_dict`).
use ci_failure_orchestrator.Common.{
  String, List, [], ◌∷◌, map, str_eq, eq_iff, if◌then◌else◌, ◌≡◌, refl, arith,
}
use ci_failure_orchestrator.Foundation.Json.{
  text, array, object, stop, Members, end, member, Builtins, decoded, get, require, truthy, or_else,
  str, int, dict,
}
use ci_failure_orchestrator.Foundation.Durable.{
  DurableEvidenceRef, AuditEvent, audit_schema, refs_to_items, to_dict, ref_from_dict,
  refs_from_items, refs_from, from_dict,
}

-- A text with what stands for the empty one.
abbrev filled : String → String → String
filled s d = if str_eq s "" then d else s

abbrev pub filled_ref : DurableEvidenceRef → DurableEvidenceRef
filled_ref r = record r { content_type = filled r.content_type "application/json" }

abbrev pub filled_event : AuditEvent → AuditEvent
filled_event e = record e {
  schema_version = filled e.schema_version audit_schema;
  actor = filled e.actor "orchestrator";
  component = filled e.component "foundation";
  evidence_refs = map filled_ref e.evidence_refs;
}

filled_by_empty : (s : String) → filled s "" ≡ s
filled_by_empty s = ground (arith, eq_iff s "")

or_else-items :
    (rs : List DurableEvidenceRef)
    → or_else (array (refs_to_items rs)) (array stop) ≡ array (refs_to_items rs)
unfolding or_else truthy refs_to_items
or_else-items [] = refl
or_else-items (r ∷ rs) = refl

or_else-members : (ms : Members) → or_else (object ms) (object end) ≡ object ms
unfolding or_else truthy
or_else-members end = refl
or_else-members (member k v ms) = refl

module _ (py : Builtins) where
  str-or_else : (s d : String) → str py (or_else (text s) (text d)) ≡ filled s d
  unfolding or_else truthy str
  str-or_else s d = ground arith

  refs-roundtrip :
      (rs : List DurableEvidenceRef)
      → refs_from_items py (refs_to_items rs) ≡ decoded (map filled_ref rs)
  unfolding refs_from_items refs_to_items ref_from_dict get
  refs-roundtrip [] = refl
  refs-roundtrip (r ∷ rs) = rw (refs-roundtrip rs) (simp (str-or_else, filled_by_empty) refl)

  -- An event that is written and read back is the event, with the audit schema, `orchestrator`,
  -- `foundation` and `application/json` where its schema version, its actor, its component or the
  -- content type of one of its references is the empty text.
  pub from_dict-to_dict : (e : AuditEvent) → from_dict py (to_dict e) ≡ decoded (filled_event e)
  unfolding from_dict to_dict get require refs_from int dict str
  from_dict-to_dict e =
      simp (or_else-items, or_else-members, refs-roundtrip, str-or_else, filled_by_empty) refl
