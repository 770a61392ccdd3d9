-- ===== src/Store/Steps/Reports.antt =====
-- src/operations/operations-state.ts: the methods that file Outcome Reports are made of steps.
use real_ming.Base.{
  String, Bool, false, String_eq, ◌≡◌, refl, ap, ◌∙◌, Option, none, some, [], ◌∷◌, ◌++◌, find,
  exists, exists_of_find, arith,
}
use real_ming.Contracts.Kinds.{ready_for_ceo_review, AuditEventType}
use real_ming.Contracts.Json.{Json}
use real_ming.Contracts.Records.{WorkItem, WorkerReceipt, EffectVerification, OutcomeReport}
use real_ming.Lifecycle.{lifecycle_event_for}
use real_ming.Store.Database.{Database, ok}
use real_ming.Store.Sql.{is_id, is_report_of, outcome_report, work_item, append_audit}
use real_ming.Store.Outcomes.{
  insert_revision, insert_report, replace_report, put_report, record_report, report_event,
  record_review_ready_outcome,
}
use real_ming.Store.Steps.{filed, placed, is_revision, one, here}
use real_ming.Store.Steps.Rules.{
  Reaches, Reaches-ok, Reaches-err, Reaches-after, Reaches-chain, Reaches-require, Reaches-assert,
  Reaches-note, Reaches-move, Reaches-join, Reaches-noted,
}

pub revision_ok :
    (row : OutcomeReport) (t v : Database)
    → insert_revision row t ≡ ok (tt, v)
    → (v ≡ record t { outcome_report_revisions = t.outcome_report_revisions ++ (row ∷ []) })
      × (exists (is_revision row) t.outcome_report_revisions ≡ false)
unfolding insert_revision
revision_ok row t v e = ground arith

pub report_ok :
    (row : OutcomeReport) (t v : Database)
    → insert_report row t ≡ ok (tt, v)
    → v ≡ record t { outcome_reports = placed row t.outcome_reports }
unfolding insert_report
report_ok row t v e = ground arith

replace_ok :
    (row : OutcomeReport) (t v : Database)
    → exists (is_report_of row.work_item_id) t.outcome_reports ≡ Bool.true
    → replace_report row t ≡ ok (tt, v)
    → v ≡ record t { outcome_reports = placed row t.outcome_reports }
unfolding replace_report
replace_ok row t v known e = ground arith

module _ (carries_secret : Json → Bool) where
  -- The report is put in its place once its revision is in.
  put_report-Reaches :
      (at : String) (report : OutcomeReport) (old : Option OutcomeReport) (t : Database)
      → exists (is_revision report) t.outcome_report_revisions ≡ false
      → outcome_report report.work_item_id t ≡ old
      → Reaches t (
          put_report carries_secret at report old
            (record t { outcome_report_revisions = t.outcome_report_revisions ++ (report ∷ []) }))
  unfolding put_report
  put_report-Reaches at report none t fresh current = record {
    ends = λ x v e. one (filed report fresh (report_ok report _ v e));
  }
  put_report-Reaches at report (some old) t fresh current =
      Reaches-chain (replace_report report _) _ λ x v e.
        let known = exists_of_find (is_report_of report.work_item_id) t.outcome_reports current in
        Reaches-after (one (filed report fresh (replace_ok report _ v known e)))
          (Reaches-noted v carries_secret _ _ at _ refl)

  put_report-work_items :
      (at : String) (report : OutcomeReport) (old : Option OutcomeReport) (t v : Database)
      → put_report carries_secret at report old t ≡ ok (tt, v)
      → v.work_items ≡ t.work_items
  unfolding put_report insert_report replace_report append_audit
  put_report-work_items at report none t v e = ground arith
  put_report-work_items at report (some old) t v e = ground arith

  record_report-Reaches :
      (event : AuditEventType) (old : Option OutcomeReport) (report : OutcomeReport) (at : String)
      (t : Database) (current : WorkItem)
      → work_item report.work_item_id t ≡ some current
      → lifecycle_event_for current.state ready_for_ceo_review ≡ some event
      → outcome_report report.work_item_id t ≡ old
      → Reaches t (record_report carries_secret event old report at t)
  unfolding record_report
  record_report-Reaches event old report at t current there e now =
      Reaches-chain (insert_revision report t) _ λ x u inserted.
        let (same, fresh) = revision_ok report t u inserted in
        rw same (
          Reaches-join (put_report carries_secret at report old _) _
            (put_report-Reaches at report old t fresh now)
            λ y v put. Reaches-note v carries_secret _ _ at _ _ refl (
              Reaches-move _ carries_secret _ ready_for_ceo_review at event _ _ current
                (ap (find (is_id report.work_item_id)) (put_report-work_items at report old _ v put)
                  ∙ there)
                e (Reaches-require _ report.work_item_id _ λ item found. Reaches-ok _ _ here)))

  report_event-Reaches :
      (id : String) (item : WorkItem) (receipt : WorkerReceipt) (verification : EffectVerification)
      (at : String) (t : Database) (current : WorkItem) (event : Option AuditEventType)
      → work_item item.id t ≡ some current
      → lifecycle_event_for current.state ready_for_ceo_review ≡ event
      → Reaches t (report_event carries_secret id item receipt verification at current event t)
  unfolding report_event
  report_event-Reaches id item receipt verification at t current none there e = Reaches-err _
  report_event-Reaches id item receipt verification at t current (some event) there e =
      Reaches-assert t carries_secret _ _ _
        (record_report-Reaches event _ _ at t current there e refl)

  pub record_review_ready_outcome-Reaches :
      (id : String) (item : WorkItem) (receipt : WorkerReceipt) (verification : EffectVerification)
      (at : String) (t : Database)
      → Reaches t (record_review_ready_outcome carries_secret id item receipt verification at t)
  unfolding record_review_ready_outcome
  record_review_ready_outcome-Reaches id item receipt verification at t =
      Reaches-require t item.id _
        λ current there. report_event-Reaches id item receipt verification at t current _ there refl
