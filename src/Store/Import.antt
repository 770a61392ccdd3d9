-- ===== src/Store/Import.antt =====
-- src/operations/operations-state.ts: `importMigratedWorkItem`. A legacy record lands in the lifecycle state
-- that the CEO approved, with the report that a review needs.
use Prim.Native.String.{◌++◌ as joined}
use real_ming.Base.{String, String_eq, Bool, ◌&&◌, ◌==◌, Option, none, some, [], ◌∷◌, ◌++◌, find}
use real_ming.Contracts.Kinds.{
  WorkItemState, captured, planned, waiting_blocked, ready_for_ceo_review, MigratedWorkItemState,
  accountable, AuditEventType, work_item_captured, work_item_planned, work_item_waiting_blocked,
  work_item_ready_for_ceo_review, outcome_report_recorded,
}
use real_ming.Contracts.Names.{state_text, executive_text, workstream_text, provenance_text}
use real_ming.Contracts.Json.{Json, text, number, Details, fields}
use real_ming.Contracts.Records.{WorkItem, OutcomeReport, ImportMigratedWorkItemRequest}
use real_ming.Store.Database.{Database}
use real_ming.Store.Sql.{
  Sql, pure, ◌>>=◌, ◌>>◌, rows, require_work_item, insert_work_item, set_state,
  assert_no_sensitive_data, append_audit,
}
use real_ming.Store.Outcomes.{insert_revision, insert_report}

-- `findWorkItemByCommand`
unfoldable pub find_work_item_by_command : String → String → Database → Option WorkItem
find_work_item_by_command workspace key db =
    find (λ i. i.workspace_id == workspace && i.idempotency_key == key) db.work_items

-- A `MigratedWorkItemState` is a `WorkItemState`.
abbrev pub migrated_state : MigratedWorkItemState → WorkItemState
migrated_state MigratedWorkItemState.captured = captured
migrated_state MigratedWorkItemState.planned = planned
migrated_state MigratedWorkItemState.waiting_blocked = waiting_blocked
migrated_state MigratedWorkItemState.ready_for_ceo_review = ready_for_ceo_review

-- `migratedLifecycleEvents`
abbrev pub migrated_lifecycle_event : MigratedWorkItemState → AuditEventType
migrated_lifecycle_event MigratedWorkItemState.captured = work_item_captured
migrated_lifecycle_event MigratedWorkItemState.planned = work_item_planned
migrated_lifecycle_event MigratedWorkItemState.waiting_blocked = work_item_waiting_blocked
migrated_lifecycle_event MigratedWorkItemState.ready_for_ceo_review = work_item_ready_for_ceo_review

pub request_details : ImportMigratedWorkItemRequest → Details
request_details r =
    ("actorId", text r.actor_id)
    ∷ ("workspaceId", text r.workspace_id)
    ∷ ("sourceReference", text r.source_reference)
    ∷ ("intent", text r.intent)
    ∷ ("lifecycle", text (state_text (migrated_state r.lifecycle)))
    ∷ ("workstream", text (workstream_text r.workstream))
    ∷ ("accountableExecutive", text (executive_text r.accountable_executive))
    ∷ ("legacyStatus", text r.legacy_status)
    ∷ ("commitmentProvenance", text (provenance_text r.commitment_provenance))
    ∷ ("approvalReference", text r.approval_reference)
    ∷ []

pub provenance_details : ImportMigratedWorkItemRequest → Details
provenance_details r =
    ("basis", text "ceo-approved-migration")
    ∷ ("approvalReference", text r.approval_reference)
    ∷ ("sourceReference", text r.source_reference)
    ∷ ("legacyStatus", text r.legacy_status)
    ∷ ("commitmentProvenance", text (provenance_text r.commitment_provenance))
    ∷ ("workstream", text (workstream_text r.workstream))
    ∷ ("accountableExecutive", text (executive_text r.accountable_executive))
    ∷ []

pub reason_of : ImportMigratedWorkItemRequest → String
reason_of r = joined "Migrated at the CEO-approved lifecycle " (
    joined (state_text (migrated_state r.lifecycle)) (
      joined " from legacy status \""
        (joined r.legacy_status "\". The clearing action has not been recorded yet.")))

abbrev pub migrated_item : String → ImportMigratedWorkItemRequest → String → WorkItem
migrated_item id r at = record {
  id = id;
  actor_id = r.actor_id;
  workspace_id = r.workspace_id;
  idempotency_key = r.source_reference;
  intent = r.intent;
  expected_effect = record { kind = "migrated-legacy-task"; value = r.source_reference };
  accountable_executive = r.accountable_executive;
  workstream = some r.workstream;
  collaborating_executives = [];
  confirmed_commitment = none;
  proposed_commitment = none;
  priority = none;
  state = captured;
  created_at = at;
  updated_at = at;
}

abbrev pub migrated_report :
    String → String → ImportMigratedWorkItemRequest → String → OutcomeReport
migrated_report report_id id r at = record {
  id = report_id;
  work_item_id = id;
  revision = 1;
  requested_intent = r.intent;
  completed_effect = record {
    work_item_id = id;
    executive = r.accountable_executive;
    authority = accountable;
    idempotency_key = joined r.source_reference ":migration";
    kind = "migrated-legacy-task";
    value = r.source_reference;
  };
  verification = record { reference = r.source_reference };
  remaining_risks =
      "The underlying work was performed outside Real-Ming; the evidence is the legacy record named in this report, not a controlled effect Real-Ming executed."
      ∷ [];
  required_decisions =
      joined "Confirm the legacy \""
        (joined r.legacy_status "\" outcome before completing this migrated Work Item.")
      ∷ [];
  created_at = at;
}

module _ (carries_secret : Json → Bool) where
  -- `#recordMigratedOutcomeReport`
  unfoldable pub record_migrated_outcome_report :
      String → String → ImportMigratedWorkItemRequest → String → Sql (Unit {0})
  record_migrated_outcome_report report_id id r at = do
    insert_revision (migrated_report report_id id r at)
    insert_report (migrated_report report_id id r at)
    append_audit carries_secret id outcome_report_recorded at (
        ("outcomeReportId", text report_id)
        ∷ ("revision", number 1)
        ∷ ("basis", text "ceo-approved-migration")
        ∷ ("sourceReference", text r.source_reference)
        ∷ [])

  unfoldable pub bring_report :
      String
      → String
      → ImportMigratedWorkItemRequest
      → String
      → MigratedWorkItemState
      → Sql (Unit {0})
  bring_report report_id id r at MigratedWorkItemState.ready_for_ceo_review =
      record_migrated_outcome_report report_id id r at
  bring_report report_id id r at _ = pure tt

  unfoldable pub land : String → ImportMigratedWorkItemRequest → String → Sql (Unit {0})
  land id r at = do
    set_state id (migrated_state r.lifecycle) at
    append_audit carries_secret id (migrated_lifecycle_event r.lifecycle) at
        (provenance_details r ++ (("reason", text (reason_of r)) ∷ []))

  unfoldable pub bring_state :
      String → ImportMigratedWorkItemRequest → String → MigratedWorkItemState → Sql (Unit {0})
  bring_state id r at MigratedWorkItemState.captured = pure tt
  bring_state id r at _ = land id r at

  unfoldable pub import_row :
      String → String → ImportMigratedWorkItemRequest → String → Sql WorkItem
  import_row id report_id r at = do
    insert_work_item (migrated_item id r at)
    append_audit carries_secret id work_item_captured at (
        provenance_details r
        ++ (("actorId", text r.actor_id)
            ∷ ("workspaceId", text r.workspace_id)
            ∷ ("idempotencyKey", text r.source_reference)
            ∷ []))
    bring_report report_id id r at r.lifecycle
    bring_state id r at r.lifecycle
    require_work_item id

  unfoldable pub import_unless :
      Option WorkItem → String → String → ImportMigratedWorkItemRequest → String → Sql WorkItem
  import_unless (some existing) id report_id r at = pure existing
  import_unless none id report_id r at = import_row id report_id r at

  unfoldable pub import_migrated_work_item :
      String → String → ImportMigratedWorkItemRequest → String → Sql WorkItem
  import_migrated_work_item id report_id r at = do
    assert_no_sensitive_data carries_secret "A migrated Work Item" (fields (request_details r))
    existing ← rows (find_work_item_by_command r.workspace_id r.source_reference)
    import_unless existing id report_id r at
