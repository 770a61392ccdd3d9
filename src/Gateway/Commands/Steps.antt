-- ===== src/Gateway/Commands/Steps.antt =====
-- src/operations/operations-gateway.ts: what a capture, an execution and a rework commit.
use real_ming.Base.{String, Bool, true, false, ◌||◌, ◌==◌, refl}
use real_ming.Contracts.Kinds.{
  WorkItemState_eq, ready_for_ceo_review, completed, awaiting_approval, changes_requested,
}
use real_ming.Contracts.Records.{NormalizedCeoAction, WorkItem, OutcomeReport}
use real_ming.Store.Notes.{record_rejected_transition}
use real_ming.Store.Steps.Rules.{Reaches-noted}
use real_ming.Store.Steps.Items.{create_work_item-Reaches}
use real_ming.Gateway.World.{Environment}
use real_ming.Gateway.Rules.{
  Runs, Runs-pure, Runs-throw, Runs-read, Runs-now, Runs-random_uuid, Runs-bind, Runs-transaction,
  Runs-if, Runs-option,
}
use real_ming.Gateway.Publish.Steps.{require_work_item-Runs, publish-Runs}
use real_ming.Gateway.Execution.Steps.{run_controlled_execution-Runs}
use real_ming.Gateway.Commands.{
  already_executed, approval_stands, first_execution, execute_work_item, rework_work_item,
  acknowledge_ceo_action, submit_ceo_action,
}

module _ (env : Environment) where
  already_executed-Runs :
      (item : WorkItem) (report : OutcomeReport) → Runs (already_executed env item report)
  unfolding already_executed record_rejected_transition
  already_executed-Runs item report =
      Runs-if (item.state == ready_for_ceo_review || item.state == completed)
        (Runs-bind (publish-Runs env item) λ published. Runs-pure _)
        (Runs-bind (Runs-now env)
          λ at. Runs-bind (Runs-transaction λ t. Reaches-noted t _ _ _ at _ refl) λ u. Runs-throw _)

  approval_stands-Runs : (item : WorkItem) → Runs (approval_stands env item)
  unfolding approval_stands
  approval_stands-Runs item =
      Runs-if (item.state == awaiting_approval)
        (Runs-bind (Runs-read _) λ approvals. Runs-bind (Runs-now env) λ at. Runs-pure _)
        (Runs-pure true)

  first_execution-Runs : (item : WorkItem) (stands : Bool) → Runs (first_execution env item stands)
  unfolding first_execution record_rejected_transition
  first_execution-Runs item true = run_controlled_execution-Runs env item
  first_execution-Runs item false =
      Runs-bind (Runs-now env)
        λ at. Runs-bind (Runs-transaction λ t. Reaches-noted t _ _ _ at _ refl) λ u. Runs-throw _

  pub execute_work_item-Runs : (id : String) → Runs (execute_work_item env id)
  unfolding execute_work_item
  execute_work_item-Runs id = Runs-bind (require_work_item-Runs id) λ item.
      Runs-bind (Runs-read _) λ existing.
        Runs-option existing (Runs-bind (approval_stands-Runs item) (first_execution-Runs item))
          (already_executed-Runs item)

  pub rework_work_item-Runs : (id : String) → Runs (rework_work_item env id)
  unfolding rework_work_item record_rejected_transition
  rework_work_item-Runs id = Runs-bind (require_work_item-Runs id) λ item.
      Runs-if (item.state == changes_requested) (run_controlled_execution-Runs env item) (
        Runs-bind (Runs-now env)
          λ at. Runs-bind (Runs-transaction λ t. Reaches-noted t _ _ _ at _ refl) λ u. Runs-throw _)

  pub acknowledge_ceo_action-Runs :
      (action : NormalizedCeoAction) → Runs (acknowledge_ceo_action env action)
  unfolding acknowledge_ceo_action
  acknowledge_ceo_action-Runs action = Runs-bind (Runs-read _) λ existing.
      Runs-option existing
        (Runs-bind (Runs-now env) λ at. Runs-bind (Runs-random_uuid env) λ id.
          Runs-bind (Runs-transaction λ t. create_work_item-Reaches env.carries_secret t id _ at)
            (publish-Runs env))
        (publish-Runs env)

  pub submit_ceo_action-Runs : (action : NormalizedCeoAction) → Runs (submit_ceo_action env action)
  unfolding submit_ceo_action
  submit_ceo_action-Runs action =
      Runs-bind (acknowledge_ceo_action-Runs action) λ item. execute_work_item-Runs item.id
