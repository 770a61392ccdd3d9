-- ===== src/Store/Database.antt =====
-- src/operations/operations-state.ts: the tables of the operations database, and the failures that its
-- methods and the gateway's throw. A column that holds JSON is kept as the value that was
-- stringified into it. Rows stand in the order of their rowids.
use real_ming.Base.{ℕ, String, List, [], Option}
use real_ming.Contracts.Kinds.{WorkItemState, Workstream, WorkItemPriority, ExecutiveRole}
use real_ming.Contracts.Records.{WorkItem, OutcomeReport, Approval, StandingAuthority, AuditEvent}

-- A row of `work_item_priority_writes`; a cleared priority is `none` here, "cleared" in the column.
pub record PriorityWrite : Type 0 where
  pub idempotency_key : String
  pub work_item_id : String
  pub priority : Option WorkItemPriority
  pub recorded_at : String

pub record Database : Type 0 where
  pub work_items : List WorkItem
  pub outcome_reports : List OutcomeReport
  pub outcome_report_revisions : List OutcomeReport
  pub approvals : List Approval
  pub standing_authorities : List StandingAuthority
  pub audit_events : List AuditEvent
  -- the number that SQLite gives the next audit row
  pub row_id : List AuditEvent → ℕ
  pub priority_writes : List PriorityWrite

abbrev pub empty_database : (List AuditEvent → ℕ) → Database
empty_database row_id = record {
  work_items = [];
  outcome_reports = [];
  outcome_report_revisions = [];
  approvals = [];
  standing_authorities = [];
  audit_events = [];
  row_id = row_id;
  priority_writes = [];
}

-- Each `throw`, and each refusal of a statement by SQLite.
pub data Failure : Type 0 where
  sensitive_secret : (label : String) → Failure
  constraint_violated : (table : String) → Failure
  review_needs_outcome : Failure
  work_item_not_found : Failure
  work_item_unknown : Failure
  transition_not_allowed : WorkItemState → WorkItemState → Failure
  collaborator_invalid : Failure
  priority_key_reused : Failure
  approval_not_found : Failure
  approval_unknown : Failure
  only_verifying_work : Failure
  outcome_already_recorded : Failure
  approval_missing : Failure
  only_changes_requested_work : Failure
  worker_failed : Failure
  collaborator_failed : Failure
  verification_failed : Failure
  ceo_only : Failure
  only_requested_approval : Failure
  review_ready_outcome_required : Failure
  review_ready_work_required : Failure
  ceo_commitment_immutable : Failure
  approval_reference_required : Failure
  executive_mismatch : Workstream → ExecutiveRole → ExecutiveRole → Failure
  projection_failed : Failure

pub data Result {ℓ} (A : Type ℓ) : Type ℓ where
  ok : A → Result A
  err : Failure → Result A
