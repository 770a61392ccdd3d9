-- ===== src/Gateway/Reviews/Steps.antt =====
-- src/operations/operations-gateway.ts: what reviews, commitments, priorities, imports and commands
-- commit.
use real_ming.Base.{String, not, ◌==◌, is_blank, Option, none, some, refl}
use real_ming.Contracts.Kinds.{
  WorkItemState_eq, ReviewDecision_eq, ExecutiveRole_eq, ready_for_ceo_review, complete,
}
use real_ming.Contracts.Json.{Details}
use real_ming.Contracts.Records.{
  ExpectedEffect, CeoCommand, CommandClassification, information_question, action, ambiguous,
  CommitmentActor, ceo, external_source, executive_role, RecordWorkItemCommitmentRequest,
  RecordWorkItemPriorityRequest, WorkItem, ImportMigratedWorkItemRequest, CeoReviewRequest,
}
use real_ming.Routing.{workstream_executive}
use real_ming.Store.Database.{Failure, Result, ok, err}
use real_ming.Store.Notes.{record_rejected_transition, record_rejected_commitment}
use real_ming.Store.Steps.Rules.{Reaches-noted}
use real_ming.Store.Steps.Items.{
  transition-Reaches, record_commitment-Reaches, record_priority-Reaches,
}
use real_ming.Store.Steps.Import.{import_migrated_work_item-Reaches}
use real_ming.Gateway.World.{Environment}
use real_ming.Gateway.Rules.{
  Runs, Runs-pure, Runs-throw, Runs-read, Runs-next_call, Runs-now, Runs-random_uuid, Runs-bind,
  Runs-transaction, Runs-if,
}
use real_ming.Gateway.Publish.Steps.{require_work_item-Runs, publish-Runs}
use real_ming.Gateway.Commands.Steps.{acknowledge_ceo_action-Runs}
use real_ming.Gateway.Decisions.{is_ceo_actor}
use real_ming.Gateway.Reviews.{
  may_complete, is_ceo_set, reject_review, review_move, judge_work_item, review_work_item,
  reject_commitment, commit_by, record_work_item_commitment, record_work_item_priority,
  import_work_item, answered, clarify, capture, act_on, submit_ceo_command,
}

module _ (env : Environment) where
  reject_review-Runs :
      (request : CeoReviewRequest) (item : WorkItem) (reason : String) (message : Failure)
      → Runs (reject_review env request item reason message)
  unfolding reject_review record_rejected_transition
  reject_review-Runs request item reason message =
      Runs-bind (Runs-now env)
        λ at. Runs-bind (Runs-transaction λ t. Reaches-noted t _ _ _ at _ refl) λ u. Runs-throw _

  review_move-Runs :
      (request : CeoReviewRequest) (item : WorkItem) (details : Details)
      → Runs (review_move env request item details)
  unfolding review_move
  review_move-Runs request item details =
      Runs-bind (Runs-now env)
        λ at. Runs-transaction λ t. transition-Reaches env.carries_secret t item.id _ at details

  judge_work_item-Runs : (request : CeoReviewRequest) → Runs (judge_work_item env request)
  unfolding judge_work_item
  judge_work_item-Runs request = Runs-bind (require_work_item-Runs request.work_item_id) λ item.
      Runs-bind (Runs-read _) λ report.
        Runs-if (not (is_ceo_actor request.actor_id)) (reject_review-Runs request item _ _) (
          Runs-if (request.decision == complete)
            (Runs-if (may_complete item report) (review_move-Runs request item _)
              (reject_review-Runs request item _ _))
            (Runs-if (item.state == ready_for_ceo_review) (review_move-Runs request item _)
              (reject_review-Runs request item _ _)))

  pub review_work_item-Runs : (request : CeoReviewRequest) → Runs (review_work_item env request)
  unfolding review_work_item
  review_work_item-Runs request = Runs-bind (judge_work_item-Runs request) (publish-Runs env)

  reject_commitment-Runs :
      (id kind reason : String) (message : Failure)
      → Runs (reject_commitment env id kind reason message)
  unfolding reject_commitment record_rejected_commitment
  reject_commitment-Runs id kind reason message =
      Runs-bind (Runs-now env)
        λ at. Runs-bind (Runs-transaction λ t. Reaches-noted t _ _ _ at _ refl) λ u. Runs-throw _

  commit_by-Runs :
      (request : RecordWorkItemCommitmentRequest) (item : WorkItem) (actor : CommitmentActor)
      → Runs (commit_by env request item actor)
  unfolding commit_by
  commit_by-Runs request item (executive_role executive) = Runs-bind (Runs-now env) λ proposed_at.
      Runs-bind (Runs-now env)
        λ at. Runs-transaction λ t. record_commitment-Reaches env.carries_secret t item.id _ at
  commit_by-Runs request item (external_source identity reference as_of) =
      Runs-if (is_ceo_set item.confirmed_commitment) (reject_commitment-Runs item.id _ _ _) (
        Runs-bind (Runs-now env) λ recorded_at.
          Runs-bind (Runs-now env)
            λ at. Runs-transaction λ t. record_commitment-Reaches env.carries_secret t item.id _ at)
  commit_by-Runs request item (ceo actor) =
      Runs-if (is_ceo_actor actor)
        (Runs-bind (Runs-now env) λ recorded_at.
          Runs-bind (Runs-now env)
            λ at. Runs-transaction λ t. record_commitment-Reaches env.carries_secret t item.id _ at)
        (reject_commitment-Runs item.id _ _ _)

  pub record_work_item_commitment-Runs :
      (request : RecordWorkItemCommitmentRequest) → Runs (record_work_item_commitment env request)
  unfolding record_work_item_commitment
  record_work_item_commitment-Runs request =
      Runs-bind (require_work_item-Runs request.work_item_id)
        λ item. Runs-bind (commit_by-Runs request item request.actor) (publish-Runs env)

  pub record_work_item_priority-Runs :
      (request : RecordWorkItemPriorityRequest) → Runs (record_work_item_priority env request)
  unfolding record_work_item_priority
  record_work_item_priority-Runs request =
      Runs-bind (require_work_item-Runs request.work_item_id) λ item. Runs-bind (Runs-now env) λ at.
        Runs-bind
          (Runs-transaction
            λ t. record_priority-Reaches env.carries_secret t request.work_item_id _ _ at)
          (publish-Runs env)

  pub import_work_item-Runs :
      (request : ImportMigratedWorkItemRequest) → Runs (import_work_item env request)
  unfolding import_work_item
  import_work_item-Runs request = Runs-if (is_blank request.approval_reference) (Runs-throw _) (
      Runs-if (request.accountable_executive == workstream_executive request.workstream)
        (Runs-bind (Runs-now env) λ at. Runs-bind (Runs-random_uuid env) λ id.
          Runs-bind (Runs-random_uuid env) λ report_id.
            Runs-bind
              (Runs-transaction
                λ t. import_migrated_work_item-Reaches env.carries_secret id report_id request at t)
              (publish-Runs env))
        (Runs-throw _))

  answered-Runs : (reply : Result String) → Runs (answered env reply)
  unfolding answered
  answered-Runs (ok answer) = Runs-pure _
  answered-Runs (err e) = Runs-throw e

  capture-Runs :
      (command : CeoCommand) (effect : ExpectedEffect) → Runs (capture env command effect)
  unfolding capture
  capture-Runs command effect = Runs-bind (acknowledge_ceo_action-Runs env _) λ item. Runs-pure _

  clarify-Runs : Runs (clarify env)
  unfolding clarify
  clarify-Runs = Runs-pure _

  act_on-Runs :
      (command : CeoCommand) (class : CommandClassification) (effect : Option ExpectedEffect)
      → Runs (act_on env command class effect)
  unfolding act_on
  act_on-Runs command information_question effect =
      Runs-bind Runs-next_call λ n. answered-Runs (env.answer n command)
  act_on-Runs command action none = clarify-Runs
  act_on-Runs command action (some effect) = capture-Runs command effect
  act_on-Runs command ambiguous effect = clarify-Runs

  pub submit_ceo_command-Runs : (command : CeoCommand) → Runs (submit_ceo_command env command)
  unfolding submit_ceo_command
  submit_ceo_command-Runs command =
      act_on-Runs command (env.classify command) command.expected_effect
