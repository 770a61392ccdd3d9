-- ===== src/Gateway/Execution.antt =====
-- src/operations/operations-gateway.ts: how a Work Item is executed, and what blocks it.
pub mod Steps
pub mod Blocking
use Prim.Native.String.{◌++◌ as joined}
use real_ming.Base.{
  ℕ, String, String_eq, Bool, true, false, ◌==◌, ℕ_eq, if◌then◌else◌, decimal, List, [], ◌∷◌,
}
use real_ming.Contracts.Kinds.{
  WorkItemState_eq, executing, verifying, waiting_blocked, accountable, contribute_only,
}
use real_ming.Contracts.Names.{executive_text, unavailable_text}
use real_ming.Contracts.Json.{text}
use real_ming.Contracts.Records.{
  CollaboratingExecutiveAssignment, WorkItem, WorkerEffect, WorkerReceipt, EffectVerification,
  OperationsResult,
}
use real_ming.Store.Database.{Failure, worker_failed, collaborator_failed, verification_failed}
use real_ming.Store.Items.{transition}
use real_ming.Store.Notes.{
  record_worker_effect, record_worker_failure, record_verification, record_verification_failure,
}
use real_ming.Store.Outcomes.{next_outcome_report_revision, record_review_ready_outcome}
use real_ming.Gateway.World.{
  Environment, WorkerReply, receipt, unavailable, broken, MaterialBlockerReason,
  collaborator_execution_failed, effect_verification_failed, worker_execution_failed,
  worker_unavailable, material_blocker, blocker_recovered, effect_requested, M, pure, throw, ◌>>=◌,
  ◌>>◌, transaction, read, tell, next_call, swallow, now, random_uuid,
}
use real_ming.Gateway.Publish.{publish, advance_work_item}

-- `reason` as it is written to the audit trail.
pub blocker_text : MaterialBlockerReason → String
blocker_text collaborator_execution_failed = "collaborator-execution-failed"
blocker_text effect_verification_failed = "effect-verification-failed"
blocker_text worker_execution_failed = "worker-execution-failed"
blocker_text (worker_unavailable reason) = unavailable_text reason

-- `${workspaceId}:${idempotencyKey}${rest}`
pub effect_key : WorkItem → String → String
effect_key item rest = joined item.workspace_id (joined ":" (joined item.idempotency_key rest))

pub revision_suffix : ℕ → String
revision_suffix revision = if revision == 1 then "" else joined ":revision-" (decimal revision)

abbrev contribution_effect : WorkItem → String → CollaboratingExecutiveAssignment → WorkerEffect
contribution_effect item suffix assignment = record {
  work_item_id = item.id;
  executive = assignment.executive;
  authority = contribute_only;
  idempotency_key =
      effect_key item
        (joined ":contribution:" (joined (executive_text assignment.executive) suffix));
  kind = "executive-contribution";
  value = assignment.contribution;
}

abbrev accountable_effect : WorkItem → String → WorkerEffect
accountable_effect item suffix = record {
  work_item_id = item.id;
  executive = item.accountable_executive;
  authority = accountable;
  idempotency_key = effect_key item (joined ":effect" suffix);
  kind = item.expected_effect.kind;
  value = item.expected_effect.value;
}

module _ (env : Environment) where
  unfoldable pub block_after_worker_failure :
      {A : Type 0} → String → MaterialBlockerReason → Failure → M A
  block_after_worker_failure id reason message = do
    failed_at ← now env
    transaction (record_worker_failure env.carries_secret id failed_at (blocker_text reason))
    at ← now env
    blocked ← transaction (
        transition env.carries_secret id waiting_blocked at
          (("reason", text (blocker_text reason)) ∷ []))
    tell (material_blocker blocked reason)
    swallow (publish env blocked)
    throw message

  -- What a reply of the worker leads to.
  worker_reply : WorkerEffect → MaterialBlockerReason → Failure → WorkerReply → M WorkerReceipt
  worker_reply effect reason message (receipt r) = pure r
  worker_reply effect reason message (unavailable because) =
      block_after_worker_failure effect.work_item_id (worker_unavailable because) message
  worker_reply effect reason message broken =
      block_after_worker_failure effect.work_item_id reason message

  unfoldable pub execute_controlled_effect :
      WorkerEffect → MaterialBlockerReason → Failure → M WorkerReceipt
  unfolding worker_reply
  execute_controlled_effect effect reason message = do
    tell (effect_requested effect)
    n ← next_call
    worker_reply effect reason message (env.execute n effect)

  -- The loop over the collaborating executives.
  unfoldable pub contribute :
      WorkItem → String → List CollaboratingExecutiveAssignment → M (Unit {0})
  contribute item suffix [] = pure tt
  contribute item suffix (assignment ∷ assignments) = do
    r ←
        execute_controlled_effect (contribution_effect item suffix assignment)
          collaborator_execution_failed collaborator_failed
    at ← now env
    transaction (
        record_worker_effect env.carries_secret item.id at
          (contribution_effect item suffix assignment))
    contribute item suffix assignments

  unfoldable pub block_after_verification_failure : {A : Type 0} → String → M A
  block_after_verification_failure id = do
    failed_at ← now env
    transaction (record_verification_failure env.carries_secret id failed_at)
    at ← now env
    blocked ← transaction (
        transition env.carries_secret id waiting_blocked at
          (("reason", text (blocker_text effect_verification_failed)) ∷ []))
    tell (material_blocker blocked effect_verification_failed)
    swallow (publish env blocked)
    throw verification_failed

  -- From a verified effect to the CEO's review.
  unfoldable pub present : Bool → WorkItem → WorkerReceipt → M OperationsResult
  present was_blocked item r = do
    let verification : EffectVerification = record { reference = r.effect.idempotency_key }
    at ← now env
    transaction (record_verification env.carries_secret item.id verification at)
    report_id ← random_uuid env
    report_at ← now env
    result ←
        transaction
          (record_review_ready_outcome env.carries_secret report_id item r verification report_at)
    if was_blocked then tell (blocker_recovered result.work_item) else pure tt
    publish env result.work_item
    pure result

  -- The verifier's word.
  unfoldable pub judge_verification : Bool → WorkItem → WorkerReceipt → Bool → M OperationsResult
  judge_verification was_blocked item r true = present was_blocked item r
  judge_verification was_blocked item r false = block_after_verification_failure item.id

  unfoldable pub run_controlled_execution : WorkItem → M OperationsResult
  run_controlled_execution entry = do
    revision ← read (next_outcome_report_revision entry.id)
    let suffix = revision_suffix revision
    item ← advance_work_item env entry executing "execution-not-permitted"
    contribute item suffix item.collaborating_executives
    let effect = accountable_effect item suffix
    r ← execute_controlled_effect effect worker_execution_failed worker_failed
    effect_at ← now env
    transaction (record_worker_effect env.carries_secret item.id effect_at effect)
    at ← now env
    checked ← transaction (transition env.carries_secret item.id verifying at [])
    n ← next_call
    judge_verification (entry.state == waiting_blocked) checked r
        (env.verify n r checked.expected_effect effect)
