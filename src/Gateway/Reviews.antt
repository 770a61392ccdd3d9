-- ===== src/Gateway/Reviews.antt =====
-- src/operations/operations-gateway.ts: the CEO's reviews, commitments, priorities, migrated Work Items and
-- commands.
pub mod Steps
pub mod Authority
pub mod Commitments
pub mod Acceptance
use real_ming.Base.{
  String, Bool, true, false, not, ◌==◌, if◌then◌else◌, is_blank, Option, none, some, List, [], ◌∷◌,
}
use real_ming.Contracts.Kinds.{
  WorkItemState, WorkItemState_eq, ready_for_ceo_review, changes_requested, completed, cancelled,
  ExecutiveRole_eq, ReviewDecision, ReviewDecision_eq, complete, request_changes, reject, cancel,
}
use real_ming.Contracts.Names.{state_text, decision_text}
use real_ming.Contracts.Json.{text, Details}
use real_ming.Contracts.Records.{
  ExpectedEffect, CeoCommand, CommandClassification, information_question, action,
  ConfirmedCommitment, ceo_set, externally_sourced, confirmed, proposed, CommitmentActor, ceo,
  external_source, executive_role, RecordWorkItemCommitmentRequest, RecordWorkItemPriorityRequest,
  WorkItem, ImportMigratedWorkItemRequest, CeoReviewRequest, OutcomeReport,
}
use real_ming.Routing.{workstream_executive}
use real_ming.Store.Database.{
  Failure, Result, ok, err, ceo_only, review_ready_outcome_required, review_ready_work_required,
  ceo_commitment_immutable, approval_reference_required, executive_mismatch,
}
use real_ming.Store.Sql.{outcome_report}
use real_ming.Store.Items.{transition, record_commitment, record_priority}
use real_ming.Store.Notes.{record_rejected_transition, record_rejected_commitment}
use real_ming.Store.Import.{import_migrated_work_item}
use real_ming.Gateway.World.{
  Environment, M, pure, throw, ◌>>=◌, ◌>>◌, transaction, read, next_call, now, random_uuid,
}
use real_ming.Gateway.Publish.{require_work_item, publish}
use real_ming.Gateway.Commands.{acknowledge_ceo_action}
use real_ming.Gateway.Decisions.{is_ceo_actor}

-- `reviewTargetStates`
abbrev pub review_target : ReviewDecision → WorkItemState
review_target complete = completed
review_target request_changes = changes_requested
review_target reject = cancelled
review_target cancel = cancelled

abbrev review_details : WorkItem → CeoReviewRequest → Details
review_details item request =
    ("actorId", text request.actor_id)
    ∷ ("from", text (state_text item.state))
    ∷ ("decision", text (decision_text request.decision))
    ∷ []

-- The guard of a completion.
abbrev may_complete : WorkItem → Option OutcomeReport → Bool
may_complete item none = false
may_complete item (some report) = item.state == ready_for_ceo_review

abbrev is_ceo_set : Option ConfirmedCommitment → Bool
is_ceo_set (some (ceo_set _ _ _)) = true
is_ceo_set _ = false

-- `CeoCommandResult`, as far as the gateway produces it.
pub data CeoCommandResult : Type 0 where
  information_answer : (answer : String) → CeoCommandResult
  clarification : (question : String) → CeoCommandResult
  acknowledgement : WorkItem → CeoCommandResult

module _ (env : Environment) where
  reject_review : CeoReviewRequest → WorkItem → String → Failure → M WorkItem
  reject_review request item reason message = do
    at ← now env
    transaction (
        record_rejected_transition env.carries_secret item.id (some request.actor_id) item.state
          (review_target request.decision) reason at)
    throw message

  review_move : CeoReviewRequest → WorkItem → Details → M WorkItem
  review_move request item details = do
    at ← now env
    transaction (transition env.carries_secret item.id (review_target request.decision) at details)

  -- `reviewWorkItem` before it publishes.
  unfoldable pub judge_work_item : CeoReviewRequest → M WorkItem
  unfolding reject_review review_move
  judge_work_item request = do
    item ← require_work_item request.work_item_id
    report ← read (outcome_report item.id)
    if not (is_ceo_actor request.actor_id)
        then reject_review request item "ceo-review-required" ceo_only
        else if request.decision == complete
        then if may_complete item report
          then review_move request item (review_details item request)
          else reject_review request item "review-ready-outcome-required"
              review_ready_outcome_required
        else if item.state == ready_for_ceo_review
        then review_move request item (
            mathlib.Core.List.◌++◌ (review_details item request)
              (("reason", text request.reason) ∷ []))
        else reject_review request item "review-ready-work-required" review_ready_work_required

  unfoldable pub review_work_item : CeoReviewRequest → M WorkItem
  review_work_item request = do reviewed ← judge_work_item request; publish env reviewed

  reject_commitment : String → String → String → Failure → M WorkItem
  reject_commitment id kind reason message = do
    at ← now env
    transaction (record_rejected_commitment env.carries_secret id kind reason at)
    throw message

  commit_by : RecordWorkItemCommitmentRequest → WorkItem → CommitmentActor → M WorkItem
  commit_by request item (executive_role executive) = do
    proposed_at ← now env
    at ← now env
    transaction (
        record_commitment env.carries_secret item.id
          (proposed
            (record { value = request.value; proposed_by = executive; proposed_at = proposed_at }))
          at)
  commit_by request item (external_source identity reference as_of) =
      if is_ceo_set item.confirmed_commitment
      then reject_commitment item.id "Externally Sourced" "ceo-set-commitment-immutable"
          ceo_commitment_immutable
      else (do
        recorded_at ← now env
        at ← now env
        transaction (
            record_commitment env.carries_secret item.id
              (confirmed (externally_sourced request.value identity reference as_of recorded_at))
              at))
  commit_by request item (ceo actor) =
      if is_ceo_actor actor
      then (do
        recorded_at ← now env
        at ← now env
        transaction (
            record_commitment env.carries_secret item.id
              (confirmed (ceo_set request.value actor recorded_at)) at))
      else reject_commitment item.id "CEO-set" "ceo-actor-required" ceo_only

  unfoldable pub record_work_item_commitment : RecordWorkItemCommitmentRequest → M WorkItem
  unfolding commit_by reject_commitment
  record_work_item_commitment request = do
    item ← require_work_item request.work_item_id
    recorded ← commit_by request item request.actor
    publish env recorded

  unfoldable pub record_work_item_priority : RecordWorkItemPriorityRequest → M WorkItem
  record_work_item_priority request = do
    item ← require_work_item request.work_item_id
    at ← now env
    recorded ← transaction (
        record_priority env.carries_secret request.work_item_id request.priority
          request.idempotency_key at)
    publish env recorded

  -- The guard on `migratedWorkItemStates` always passes: the request's type admits no other state.
  unfoldable pub import_work_item : ImportMigratedWorkItemRequest → M WorkItem
  import_work_item request =
      if is_blank request.approval_reference
      then throw approval_reference_required
      else if request.accountable_executive == workstream_executive request.workstream
      then (do
        at ← now env
        id ← random_uuid env
        report_id ← random_uuid env
        imported ←
            transaction (import_migrated_work_item env.carries_secret id report_id request at)
        publish env imported)
      else throw (
          executive_mismatch request.workstream (workstream_executive request.workstream)
            request.accountable_executive)

  answered : Result String → M CeoCommandResult
  answered (ok answer) = pure (information_answer answer)
  answered (err e) = throw e

  clarify : M CeoCommandResult
  clarify = pure (clarification "What specific outcome should Real-Ming produce for this request?")

  capture : CeoCommand → ExpectedEffect → M CeoCommandResult
  capture command effect = do
    item ← acknowledge_ceo_action env (record {
      actor_id = command.actor_id;
      workspace_id = command.workspace_id;
      idempotency_key = command.idempotency_key;
      intent = command.text;
      expected_effect = effect;
      accountable_executive = command.addressed_executive;
      workstream = command.workstream;
      collaborating_executives = command.collaborating_executives;
    })
    pure (acknowledgement item)

  act_on : CeoCommand → CommandClassification → Option ExpectedEffect → M CeoCommandResult
  act_on command information_question effect = do n ← next_call; answered (env.answer n command)
  act_on command action (some effect) = capture command effect
  act_on command _ _ = clarify

  unfoldable pub submit_ceo_command : CeoCommand → M CeoCommandResult
  unfolding act_on capture clarify answered
  submit_ceo_command command = act_on command (env.classify command) command.expected_effect
