-- ===== src/Store/Sql.antt =====
-- src/operations/operations-state.ts: a transaction, as a function of the database. `BEGIN IMMEDIATE`
-- with `ROLLBACK` in the `catch` leaves nothing of a failed transaction, so a failure carries no
-- database; and a statement outside a transaction is a transaction of its own.
use real_ming.Base.{
  String, String_eq, Bool, not, ◌&&◌, ◌||◌, ◌==◌, if◌then◌else◌, Option, none, some, [], ◌∷◌, ◌++◌,
  find, exists, update,
}
use real_ming.Contracts.Kinds.{
  WorkItemState, WorkItemState_eq, ready_for_ceo_review, completed, AuditEventType,
}
use real_ming.Contracts.Json.{Json, Details, fields}
use real_ming.Contracts.Records.{WorkItem, OutcomeReport, Approval}
use real_ming.Store.Database.{
  Database, Failure, sensitive_secret, constraint_violated, review_needs_outcome,
  work_item_not_found, approval_not_found, Result, ok, err,
}

abbrev pub Sql : Type 0 → Type 0
Sql A = Database → Result (A × Database)

abbrev pub pure : {A : Type 0} → A → Sql A
pure a db = ok (a, db)

abbrev pub throw : {A : Type 0} → Failure → Sql A
throw e db = err e

abbrev pub chain : {A B : Type 0} → Result (A × Database) → (A → Sql B) → Result (B × Database)
chain (ok (a, db)) f = f a db
chain (err e) f = err e

infixl 5 ◌>>=◌ ◌>>◌
abbrev pub ◌>>=◌ : {A B : Type 0} → Sql A → (A → Sql B) → Sql B
◌>>=◌ m f db = chain (m db) f

abbrev pub ◌>>◌ : {B : Type 0} → Sql (Unit {0}) → Sql B → Sql B
m >> k = m >>= λ _. k

abbrev pub rows : {A : Type 0} → (Database → A) → Sql A
rows f db = ok (f db, db)

abbrev pub is_id : String → WorkItem → Bool
is_id id item = item.id == id

abbrev pub is_report_of : String → OutcomeReport → Bool
is_report_of id report = report.work_item_id == id

-- `workItem(id)`
abbrev pub work_item : String → Database → Option WorkItem
work_item id db = find (is_id id) db.work_items

-- `outcomeReport(workItemId)`
abbrev pub outcome_report : String → Database → Option OutcomeReport
outcome_report id db = find (is_report_of id) db.outcome_reports

-- `approval(id)`
abbrev pub approval : String → Database → Option Approval
approval id db = find (λ a. a.id == id) db.approvals

abbrev pub found {ℓ} : {A : Type ℓ} → Failure → Option A → Database → Result (A × Database)
found e none db = err e
found e (some a) db = ok (a, db)

unfoldable pub require_work_item : String → Sql WorkItem
require_work_item id db = found work_item_not_found (work_item id db) db

unfoldable pub require_approval : String → Sql Approval
require_approval id db = found approval_not_found (approval id db) db

-- The foreign key of a table to `work_items`.
abbrev pub is_known : String → Database → Bool
is_known id db = exists (is_id id) db.work_items

-- The states that the triggers on `work_items` guard.
abbrev pub needs_outcome : WorkItemState → Bool
needs_outcome state = state == ready_for_ceo_review || state == completed

abbrev pub has_outcome : String → Database → Bool
has_outcome id db = exists (is_report_of id) db.outcome_reports

-- `INSERT INTO work_items`: the primary key, the unique command, the trigger on insertion.
unfoldable pub insert_work_item : WorkItem → Sql (Unit {0})
insert_work_item row db =
    if exists (is_id row.id) db.work_items
      || exists
          (λ i. i.workspace_id == row.workspace_id && i.idempotency_key == row.idempotency_key)
          db.work_items
    then err (constraint_violated "work_items")
    else if needs_outcome row.state && not (has_outcome row.id db)
    then err review_needs_outcome
    else ok (tt, record db { work_items = db.work_items ++ (row ∷ []) })

abbrev pub with_state : WorkItemState → String → WorkItem → WorkItem
with_state state at item = record item { state = state; updated_at = at }

abbrev pub in_state : String → WorkItemState → String → Database → Database
in_state id state at db = record db {
  work_items = update (is_id id) (with_state state at) db.work_items;
}

-- `UPDATE work_items SET state = ?, updated_at = ? WHERE id = ?`, and its trigger
unfoldable pub set_state : String → WorkItemState → String → Sql (Unit {0})
set_state id state at db =
    if is_known id db && (needs_outcome state && not (has_outcome id db))
    then err review_needs_outcome
    else ok (tt, in_state id state at db)

-- `assertNoSensitiveData`, where `carries_secret` says of a payload whether its fields or its text
-- match a pattern of src/operations/sensitive-secret.ts.
abbrev pub assert_no_sensitive_data : (Json → Bool) → String → Json → Sql (Unit {0})
assert_no_sensitive_data carries_secret label payload db =
    if carries_secret payload then err (sensitive_secret label) else ok (tt, db)

abbrev pub audited : String → AuditEventType → String → Details → Database → Database
audited id kind at details db = record db {
  audit_events =
      db.audit_events
      ++ (record {
        sequence = db.row_id db.audit_events;
        work_item_id = id;
        kind = kind;
        occurred_at = at;
        details = details;
      }
          ∷ []);
}

-- `#appendAudit`
unfoldable pub append_audit :
    (Json → Bool) → String → AuditEventType → String → Details → Sql (Unit {0})
append_audit carries_secret id kind at details db =
    if carries_secret (fields details)
    then err (sensitive_secret "An audit event")
    else if is_known id db
    then ok (tt, audited id kind at details db)
    else err (constraint_violated "audit_events")
