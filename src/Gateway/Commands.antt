-- ===== src/Gateway/Commands.antt =====
-- src/operations/operations-gateway.ts: the methods that capture, execute and rework a Work Item.
pub mod Steps
pub mod Repeats
use real_ming.Base.{
  String, String_eq, Bool, true, false, ◌||◌, ◌==◌, ℕ_eq, if◌then◌else◌, Option, none, some,
}
use real_ming.Contracts.Kinds.{
  WorkItemState_eq, executing, ready_for_ceo_review, awaiting_approval, changes_requested,
  completed,
}
use real_ming.Contracts.Records.{NormalizedCeoAction, WorkItem, OutcomeReport, OperationsResult}
use real_ming.Routing.{route_accountable_executive}
use real_ming.Policy.{find_effective_approval}
use real_ming.Store.Database.{
  outcome_already_recorded, approval_missing, only_changes_requested_work,
}
use real_ming.Store.Sql.{outcome_report}
use real_ming.Store.Items.{create_work_item}
use real_ming.Store.Notes.{record_rejected_transition}
use real_ming.Store.Approvals.{approvals_of}
use real_ming.Store.Import.{find_work_item_by_command}
use real_ming.Gateway.World.{
  Environment, M, pure, throw, ◌>>=◌, ◌>>◌, transaction, read, now, random_uuid,
}
use real_ming.Gateway.Publish.{require_work_item, publish}
use real_ming.Gateway.Execution.{run_controlled_execution}

abbrev is_some {ℓ} : {A : Type ℓ} → Option A → Bool
is_some none = false
is_some (some _) = true

module _ (env : Environment) where
  -- An outcome is there: it is returned again where the review is due or done.
  already_executed : WorkItem → OutcomeReport → M OperationsResult
  already_executed item report =
      if item.state == ready_for_ceo_review || item.state == completed
      then (do
        published ← publish env item
        pure (record { work_item = published; outcome_report = report }))
      else (do
        at ← now env
        transaction (
            record_rejected_transition env.carries_secret item.id none item.state executing
              "recorded-outcome-cannot-be-replaced" at)
        throw outcome_already_recorded)

  -- The guard of `Awaiting Approval`; the clock is read only where the guard asks for it.
  approval_stands : WorkItem → M Bool
  approval_stands item =
      if item.state == awaiting_approval
      then (do
        approvals ← read (approvals_of item.id)
        at ← now env
        pure (is_some (find_effective_approval approvals at)))
      else pure true

  first_execution : WorkItem → Bool → M OperationsResult
  first_execution item true = run_controlled_execution env item
  first_execution item false = do
    at ← now env
    transaction (
        record_rejected_transition env.carries_secret item.id none item.state executing
          "approval-required" at)
    throw approval_missing

  unfoldable pub execute_work_item : String → M OperationsResult
  unfolding already_executed approval_stands first_execution
  execute_work_item id = do
    item ← require_work_item id
    existing ← read (outcome_report id)
    elim existing [
      | some report ↦ already_executed item report
      | none ↦ do stands ← approval_stands item; first_execution item stands
    ]

  unfoldable pub rework_work_item : String → M OperationsResult
  rework_work_item id = do
    item ← require_work_item id
    if item.state == changes_requested then run_controlled_execution env item else (do
      at ← now env
      transaction (
          record_rejected_transition env.carries_secret item.id none item.state executing
            "changes-requested-required" at)
      throw only_changes_requested_work)

  routed : NormalizedCeoAction → NormalizedCeoAction
  routed action = record action {
    accountable_executive =
        some (route_accountable_executive action.accountable_executive action.workstream);
  }

  -- `acknowledgeCeoAction`: the Work Item of a command that was seen before, or a new one.
  unfoldable pub acknowledge_ceo_action : NormalizedCeoAction → M WorkItem
  unfolding routed
  acknowledge_ceo_action action = do
    existing ← read (find_work_item_by_command action.workspace_id action.idempotency_key)
    elim existing [
      | some item ↦ publish env item
      | none ↦ do
        at ← now env
        id ← random_uuid env
        created ← transaction (create_work_item env.carries_secret id (routed action) at)
        publish env created
    ]

  unfoldable pub submit_ceo_action : NormalizedCeoAction → M OperationsResult
  submit_ceo_action action = do
    acknowledged ← acknowledge_ceo_action action
    execute_work_item acknowledged.id
