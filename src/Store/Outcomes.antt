-- ===== src/Store/Outcomes.antt =====
-- src/operations/operations-state.ts: Outcome Reports and their revisions, and the import of a migrated
-- Work Item, which may bring a report with it.
use real_ming.Base.{
  ℕ, ◌+◌, String, String_eq, Bool, not, ◌&&◌, ◌||◌, ◌==◌, ℕ_eq, if◌then◌else◌, leb, Option, none,
  some, List, [], ◌∷◌, ◌++◌, exists, update,
}
use real_ming.Contracts.Kinds.{
  ready_for_ceo_review, AuditEventType, outcome_report_recorded, outcome_report_superseded,
}
use real_ming.Contracts.Names.{executive_text, authority_text}
use real_ming.Contracts.Json.{Json, text, number, Details, fields, array, items}
use real_ming.Contracts.Records.{
  WorkItem, WorkerEffect, WorkerReceipt, EffectVerification, OutcomeReport, OperationsResult,
}
use real_ming.Lifecycle.{lifecycle_event_for}
use real_ming.Store.Database.{Database, constraint_violated, only_verifying_work, ok, err}
use real_ming.Store.Sql.{
  Sql, pure, throw, ◌>>=◌, ◌>>◌, rows, is_report_of, is_known, outcome_report, require_work_item,
  set_state, assert_no_sensitive_data, append_audit,
}

-- `MAX(revision)` of the revisions of a Work Item, 0 where there is none
abbrev pub highest_revision : String → List OutcomeReport → ℕ
highest_revision id [] = 0
highest_revision id (r ∷ rs) =
    if r.work_item_id == id && leb (highest_revision id rs) r.revision
    then r.revision
    else highest_revision id rs

unfoldable pub next_outcome_report_revision : String → Database → ℕ
next_outcome_report_revision id db = highest_revision id db.outcome_report_revisions + 1

unfoldable pub insert_revision : OutcomeReport → Sql (Unit {0})
insert_revision row db =
    if exists (λ r. r.id == row.id) db.outcome_report_revisions
      || exists (λ r. r.work_item_id == row.work_item_id && r.revision == row.revision)
          db.outcome_report_revisions
      || not (is_known row.work_item_id db)
    then err (constraint_violated "outcome_report_revisions")
    else ok (tt, record db { outcome_report_revisions = db.outcome_report_revisions ++ (row ∷ []) })

unfoldable pub insert_report : OutcomeReport → Sql (Unit {0})
insert_report row db =
    if exists (λ r. r.id == row.id) db.outcome_reports
      || exists (is_report_of row.work_item_id) db.outcome_reports
      || not (is_known row.work_item_id db)
    then err (constraint_violated "outcome_reports")
    else ok (tt, record db { outcome_reports = db.outcome_reports ++ (row ∷ []) })

-- `UPDATE outcome_reports SET … WHERE work_item_id = ?`, where the new id is the primary key.
unfoldable pub replace_report : OutcomeReport → Sql (Unit {0})
replace_report row db =
    if exists (λ r. r.id == row.id && not (r.work_item_id == row.work_item_id)) db.outcome_reports
    then err (constraint_violated "outcome_reports")
    else ok (
      tt,
      record db {
        outcome_reports = update (is_report_of row.work_item_id) (λ _. row) db.outcome_reports;
      },
    )

effect_details : WorkerEffect → Details
effect_details effect =
    ("workItemId", text effect.work_item_id)
    ∷ ("executive", text (executive_text effect.executive))
    ∷ ("authority", text (authority_text effect.authority))
    ∷ ("idempotencyKey", text effect.idempotency_key)
    ∷ ("kind", text effect.kind)
    ∷ ("value", text effect.value)
    ∷ []

texts : List String → List Json
texts [] = []
texts (s ∷ ss) = text s ∷ texts ss

pub report_payload : OutcomeReport → Json
unfolding effect_details texts
report_payload report = fields (
    ("id", text report.id)
    ∷ ("workItemId", text report.work_item_id)
    ∷ ("revision", number report.revision)
    ∷ ("requestedIntent", text report.requested_intent)
    ∷ ("completedEffect", fields (effect_details report.completed_effect))
    ∷ (
      "verification",
      fields (
          ("status", text "verified")
          ∷ (
            "evidence",
            fields (
                ("kind", text "controlled-effect-reference")
                ∷ ("reference", text report.verification.reference)
                ∷ []),
          )
          ∷ []),
    )
    ∷ ("remainingRisks", array (items (texts report.remaining_risks)))
    ∷ ("requiredDecisions", array (items (texts report.required_decisions)))
    ∷ ("createdAt", text report.created_at)
    ∷ [])

abbrev pub superseded_details : OutcomeReport → Details
superseded_details old =
    ("supersededOutcomeReportId", text old.id) ∷ ("supersededRevision", number old.revision) ∷ []

module _ (carries_secret : Json → Bool) where
  -- The report becomes the current one: a new row, or in place of the report that it supersedes.
  unfoldable pub put_report : String → OutcomeReport → Option OutcomeReport → Sql (Unit {0})
  put_report at report none = insert_report report
  put_report at report (some old) = do
    replace_report report
    append_audit carries_secret report.work_item_id outcome_report_superseded at
        (superseded_details old)

  -- The transaction of `recordReviewReadyOutcome`.
  unfoldable pub record_report :
      AuditEventType → Option OutcomeReport → OutcomeReport → String → Sql OperationsResult
  record_report review_event old report at = do
    insert_revision report
    put_report at report old
    append_audit carries_secret report.work_item_id outcome_report_recorded at
        (("outcomeReportId", text report.id) ∷ ("revision", number report.revision) ∷ [])
    set_state report.work_item_id ready_for_ceo_review at
    append_audit carries_secret report.work_item_id review_event at
        (("outcomeReportId", text report.id) ∷ [])
    item ← require_work_item report.work_item_id
    pure (record { work_item = item; outcome_report = report })

  unfoldable pub report_event :
      String
      → WorkItem
      → WorkerReceipt
      → EffectVerification
      → String
      → WorkItem
      → Option AuditEventType
      → Sql OperationsResult
  report_event id item receipt verification at current none = throw only_verifying_work
  report_event id item receipt verification at current (some review_event) = do
    old ← rows (outcome_report item.id)
    revision ← rows (next_outcome_report_revision item.id)
    let report : OutcomeReport = record {
      id = id;
      work_item_id = item.id;
      revision = revision;
      requested_intent = current.intent;
      completed_effect = receipt.effect;
      verification = verification;
      remaining_risks = [];
      required_decisions = "CEO review required before completion." ∷ [];
      created_at = at;
    }
    assert_no_sensitive_data carries_secret "An Outcome Report" (report_payload report)
    record_report review_event old report at

  unfoldable pub record_review_ready_outcome :
      String → WorkItem → WorkerReceipt → EffectVerification → String → Sql OperationsResult
  record_review_ready_outcome id item receipt verification at = do
    current ← require_work_item item.id
    report_event id item receipt verification at current
        (lifecycle_event_for current.state ready_for_ceo_review)
