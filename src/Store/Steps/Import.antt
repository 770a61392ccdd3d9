-- ===== src/Store/Steps/Import.antt =====
-- src/operations/operations-state.ts: the import of a migrated Work Item is made of steps.
use real_ming.Base.{String, Bool, ◌≡◌, refl, Option, none, some, arith}
use real_ming.Contracts.Kinds.{MigratedWorkItemState}
use real_ming.Contracts.Json.{Json}
use real_ming.Contracts.Records.{WorkItem, ImportMigratedWorkItemRequest}
use real_ming.Store.Database.{Database}
use real_ming.Store.Outcomes.{insert_revision, insert_report}
use real_ming.Store.Import.{
  migrated_lifecycle_event, migrated_state, migrated_report, record_migrated_outcome_report,
  bring_report, land, bring_state, import_row, import_unless, import_migrated_work_item,
}
use real_ming.Store.Steps.{filed, one, here, state_after}
use real_ming.Store.Steps.Rules.{
  Reaches, Reaches-ok, Reaches-after, Reaches-chain, Reaches-join, Reaches-assert, Reaches-create,
  Reaches-read, Reaches-noted, Reaches-land_last,
}
use real_ming.Store.Steps.Reports.{revision_ok, report_ok}

module _ (carries_secret : Json → Bool) where
  record_migrated_outcome_report-Reaches :
      (report_id id : String) (r : ImportMigratedWorkItemRequest) (at : String) (t : Database)
      → Reaches t (record_migrated_outcome_report carries_secret report_id id r at t)
  unfolding record_migrated_outcome_report
  record_migrated_outcome_report-Reaches report_id id r at t =
      let report = migrated_report report_id id r at in
      Reaches-chain (insert_revision report t) _ λ x u e.
        let (same, fresh) = revision_ok report t u e in
        rw same (
          Reaches-chain (insert_report report _) _ λ y v f.
            Reaches-after (one (filed report fresh (report_ok report _ v f)))
              (Reaches-noted v carries_secret id _ at _ refl))

  bring_report-Reaches :
      (report_id id : String) (r : ImportMigratedWorkItemRequest) (at : String)
      (lifecycle : MigratedWorkItemState) (t : Database)
      → Reaches t (bring_report carries_secret report_id id r at lifecycle t)
  unfolding bring_report
  bring_report-Reaches report_id id r at MigratedWorkItemState.ready_for_ceo_review t =
      record_migrated_outcome_report-Reaches report_id id r at t
  bring_report-Reaches report_id id r at _ t = Reaches-ok _ _ here

  land_event :
      (lifecycle : MigratedWorkItemState)
      → state_after (migrated_lifecycle_event lifecycle) ≡ some (migrated_state lifecycle)
  land_event lifecycle = ground arith

  land-Reaches :
      (id : String) (r : ImportMigratedWorkItemRequest) (at : String) (t : Database)
      → Reaches t (land carries_secret id r at t)
  unfolding land
  land-Reaches id r at t = Reaches-land_last t carries_secret id _ at _ _ (land_event r.lifecycle)

  bring_state-Reaches :
      (id : String) (r : ImportMigratedWorkItemRequest) (at : String)
      (lifecycle : MigratedWorkItemState) (t : Database)
      → Reaches t (bring_state carries_secret id r at lifecycle t)
  unfolding bring_state
  bring_state-Reaches id r at MigratedWorkItemState.captured t = Reaches-ok _ _ here
  bring_state-Reaches id r at _ t = land-Reaches id r at t

  import_row-Reaches :
      (id report_id : String) (r : ImportMigratedWorkItemRequest) (at : String) (t : Database)
      → Reaches t (import_row carries_secret id report_id r at t)
  unfolding import_row
  import_row-Reaches id report_id r at t = Reaches-create t carries_secret _ at _ _ refl (
      Reaches-join (bring_report carries_secret report_id id r at r.lifecycle _) _
        (bring_report-Reaches report_id id r at r.lifecycle _)
        λ x u e.
          Reaches-join (bring_state carries_secret id r at r.lifecycle u) _
            (bring_state-Reaches id r at r.lifecycle u) λ y v f. Reaches-read v id)

  import_unless-Reaches :
      (existing : Option WorkItem) (id report_id : String) (r : ImportMigratedWorkItemRequest)
      (at : String) (t : Database)
      → Reaches t (import_unless carries_secret existing id report_id r at t)
  unfolding import_unless
  import_unless-Reaches none id report_id r at t = import_row-Reaches id report_id r at t
  import_unless-Reaches (some item) id report_id r at t = Reaches-ok _ _ here

  pub import_migrated_work_item-Reaches :
      (id report_id : String) (r : ImportMigratedWorkItemRequest) (at : String) (t : Database)
      → Reaches t (import_migrated_work_item carries_secret id report_id r at t)
  unfolding import_migrated_work_item
  import_migrated_work_item-Reaches id report_id r at t =
      Reaches-assert t carries_secret _ _ _ (import_unless-Reaches _ id report_id r at t)
