-- ===== src/Gateway/Commands/Repeats.antt =====
-- src/operations/operations-gateway.ts: a command, or an execution, that is submitted again.
use real_ming.Base.{String, String_eq, true, ◌≡◌, some}
use real_ming.Contracts.Kinds.{WorkItemState_eq}
use real_ming.Contracts.Records.{NormalizedCeoAction, WorkItem, OutcomeReport}
use real_ming.Store.Sql.{work_item, outcome_report, needs_outcome}
use real_ming.Store.Import.{find_work_item_by_command}
use real_ming.Gateway.World.{Environment, World, after, pure, ◌>>=◌, read}
use real_ming.Gateway.Quiet.{Untouched, Quiet, Quiet-bind, Quiet-pure}
use real_ming.Gateway.Publish.{require_work_item}
use real_ming.Gateway.Publish.Returns.{publish-Quiet}
use real_ming.Gateway.Commands.{already_executed, execute_work_item, acknowledge_ceo_action}

module _ (env : Environment) where
  already_executed-Quiet :
      (item : WorkItem) (report : OutcomeReport)
      → needs_outcome item.state ≡ true
      → Quiet (already_executed env item report)
  unfolding already_executed
  already_executed-Quiet item report ready =
      rw ready (Quiet-bind (publish-Quiet env item) λ published. Quiet-pure _)

  -- Executing a Work Item that has an Outcome Report and is ready for review or completed changes
  -- nothing in the database and asks no worker for an effect.
  pub execute_work_item-Untouched :
      (id : String) (item : WorkItem) (report : OutcomeReport) (w : World)
      → work_item id w.database ≡ some item
      → outcome_report id w.database ≡ some report
      → needs_outcome item.state ≡ true
      → Untouched w (after (execute_work_item env id w))
  unfolding execute_work_item require_work_item read pure ◌>>=◌
  execute_work_item-Untouched id item report w there reported ready =
      rw (there, reported) ((already_executed-Quiet item report ready).same w)

  -- Acknowledging a command whose workspace and key a Work Item already has changes nothing in the
  -- database and asks no worker for an effect.
  pub acknowledge_ceo_action-Untouched :
      (action : NormalizedCeoAction) (item : WorkItem) (w : World)
      → find_work_item_by_command action.workspace_id action.idempotency_key w.database ≡ some item
      → Untouched w (after (acknowledge_ceo_action env action w))
  unfolding acknowledge_ceo_action read ◌>>=◌
  acknowledge_ceo_action-Untouched action item w there = rw there ((publish-Quiet env item).same w)
