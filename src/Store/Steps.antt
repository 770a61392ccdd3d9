-- ===== src/Store/Steps.antt =====
-- src/operations/operations-state.ts: the operations database as a state machine. A step is what one
-- committed transaction does to the Work Items, the audit trail and the Outcome Reports.
pub mod Rules
pub mod Items
pub mod Approvals
pub mod Reports
pub mod Import
use real_ming.Base.{
  String, Bool, false, not, ◌&&◌, ◌||◌, ◌==◌, String_eq, ℕ_eq, if◌then◌else◌, ◌≡◌, refl, Option,
  none, some, List, [], ◌∷◌, ◌++◌, exists, update,
}
use real_ming.Contracts.Kinds.{
  WorkItemState, captured, triaged, planned, awaiting_approval, executing, verifying,
  waiting_blocked, ready_for_ceo_review, changes_requested, cancelled, completed, AuditEventType,
  work_item_captured, work_item_triaged, work_item_planned, work_item_awaiting_approval,
  work_item_executing, work_item_verifying, work_item_waiting_blocked,
  work_item_ready_for_ceo_review, work_item_completed, work_item_changes_requested,
  work_item_cancelled,
}
use real_ming.Contracts.Json.{Details}
use real_ming.Contracts.Records.{WorkItem, OutcomeReport}
use real_ming.Lifecycle.{lifecycle_event_for}
use real_ming.Store.Database.{Database}
use real_ming.Store.Sql.{
  is_id, is_report_of, is_known, work_item, needs_outcome, has_outcome, audited, in_state,
}

-- The state that a lifecycle event reports.
abbrev pub state_after : AuditEventType → Option WorkItemState
state_after work_item_captured = some captured
state_after work_item_triaged = some triaged
state_after work_item_planned = some planned
state_after work_item_awaiting_approval = some awaiting_approval
state_after work_item_executing = some executing
state_after work_item_verifying = some verifying
state_after work_item_waiting_blocked = some waiting_blocked
state_after work_item_ready_for_ceo_review = some ready_for_ceo_review
state_after work_item_completed = some completed
state_after work_item_changes_requested = some changes_requested
state_after work_item_cancelled = some cancelled
state_after _ = none

-- The columns of a Work Item that no annotation changes.
pub record Annotates (f : WorkItem → WorkItem) : Type 0 where
  pub id : (i : WorkItem) → (f i).id ≡ i.id
  pub state : (i : WorkItem) → (f i).state ≡ i.state
  pub workspace_id : (i : WorkItem) → (f i).workspace_id ≡ i.workspace_id
  pub idempotency_key : (i : WorkItem) → (f i).idempotency_key ≡ i.idempotency_key

-- The tables that the invariants of the Work Items do not read may change in any step.
abbrev pub SameTables : Database → Database → Type 0
SameTables t u =
    (u.work_items ≡ t.work_items)
    × (u.audit_events ≡ t.audit_events)
    × (u.outcome_reports ≡ t.outcome_reports)
    × (u.outcome_report_revisions ≡ t.outcome_report_revisions)

-- A revision of the same number for the same Work Item.
abbrev pub is_revision : OutcomeReport → OutcomeReport → Bool
is_revision report r = r.work_item_id == report.work_item_id && r.revision == report.revision

-- The current reports once `report` is the one of its Work Item.
abbrev pub placed : OutcomeReport → List OutcomeReport → List OutcomeReport
placed report reports =
    if exists (is_report_of report.work_item_id) reports
    then update (is_report_of report.work_item_id) (λ _. report) reports
    else reports ++ (report ∷ [])

pub data Step (t u : Database) : Type 0 where
  -- an Approval or a Standing Authority
  aside : SameTables t u → Step t u
  -- an audit row that reports no lifecycle event
  noted :
      (id : String) (kind : AuditEventType) (at : String) (details : Details)
      → state_after kind ≡ none
      → u ≡ audited id kind at details t
      → Step t u
  -- columns of a Work Item other than its state and its keys
  annotated :
      (id : String) (f : WorkItem → WorkItem)
      → Annotates f
      → u ≡ record t { work_items = update (is_id id) f t.work_items }
      → Step t u
  -- a transition of the lifecycle table, with its audit row
  moved :
      (id : String) (state : WorkItemState) (event : AuditEventType) (at : String)
      (details : Details) (current : WorkItem)
      → work_item id t ≡ some current
      → lifecycle_event_for current.state state ≡ some event
      → (is_known id t && (needs_outcome state && not (has_outcome id t))) ≡ false
      → u ≡ audited id event at details (in_state id state at t)
      → Step t u
  -- a captured Work Item, with its audit row
  created :
      (row : WorkItem) (at : String) (details : Details)
      → row.state ≡ captured
      → exists (is_id row.id) t.work_items ≡ false
      → exists
          (λ i. i.workspace_id == row.workspace_id && i.idempotency_key == row.idempotency_key)
          t.work_items
        ≡ false
      → u
        ≡ audited row.id work_item_captured at details
            (record t { work_items = t.work_items ++ (row ∷ []) })
      → Step t u
  -- a migrated Work Item that lands in its approved state, with its audit row
  landed :
      (id : String) (state : WorkItemState) (event : AuditEventType) (at : String)
      (details : Details)
      → state_after event ≡ some state
      → (is_known id t && (needs_outcome state && not (has_outcome id t))) ≡ false
      → u ≡ audited id event at details (in_state id state at t)
      → Step t u
  -- an Outcome Report: a new revision, which becomes the current report
  filed :
      (report : OutcomeReport)
      → exists (is_revision report) t.outcome_report_revisions ≡ false
      → u ≡ record t {
        outcome_reports = placed report t.outcome_reports;
        outcome_report_revisions = t.outcome_report_revisions ++ (report ∷ []);
      }
      → Step t u

pub data Steps (t : Database) : Database → Type 0 where
  here : Steps t t
  next : {u v : Database} → Steps t u → Step u v → Steps t v

pub Steps-trans : {t u v : Database} → Steps t u → Steps u v → Steps t v
Steps-trans p here = p
Steps-trans p (next q s) = next (Steps-trans p q) s

pub one : {t u : Database} → Step t u → Steps t u
one s = next here s
