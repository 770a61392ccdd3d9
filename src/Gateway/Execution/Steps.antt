-- ===== src/Gateway/Execution/Steps.antt =====
-- src/operations/operations-gateway.ts: what an execution commits, however it ends.
use real_ming.Base.{String, Bool, true, false, ◌==◌, List, [], ◌∷◌, refl}
use real_ming.Contracts.Kinds.{WorkItemState_eq, waiting_blocked, verifying}
use real_ming.Contracts.Records.{
  CollaboratingExecutiveAssignment, WorkItem, WorkerEffect, WorkerReceipt,
}
use real_ming.Store.Database.{Failure}
use real_ming.Store.Notes.{
  record_worker_effect, record_worker_failure, record_verification, record_verification_failure,
}
use real_ming.Store.Steps.Rules.{Reaches-noted}
use real_ming.Store.Steps.Items.{transition-Reaches}
use real_ming.Store.Steps.Reports.{record_review_ready_outcome-Reaches}
use real_ming.Gateway.World.{
  Environment, MaterialBlockerReason, WorkerReply, receipt, unavailable, broken,
}
use real_ming.Gateway.Rules.{
  Runs, Runs-pure, Runs-throw, Runs-read, Runs-tell, Runs-next_call, Runs-now, Runs-random_uuid,
  Runs-bind, Runs-transaction, Runs-swallow, Runs-if,
}
use real_ming.Gateway.Publish.Steps.{publish-Runs, advance_work_item-Runs}
use real_ming.Gateway.Execution.{
  block_after_worker_failure, worker_reply, execute_controlled_effect, contribute,
  block_after_verification_failure, present, judge_verification, run_controlled_execution,
}

module _ (env : Environment) where
  block_after_worker_failure-Runs :
      {A : Type 0} (id : String) (reason : MaterialBlockerReason) (message : Failure)
      → Runs (block_after_worker_failure env {A = A} id reason message)
  unfolding block_after_worker_failure record_worker_failure
  block_after_worker_failure-Runs id reason message = Runs-bind (Runs-now env) λ failed_at.
      Runs-bind (Runs-transaction λ t. Reaches-noted t _ _ _ failed_at _ refl) λ u.
        Runs-bind (Runs-now env) λ at.
          Runs-bind (Runs-transaction λ t. transition-Reaches env.carries_secret t id _ at _)
            λ blocked.
              Runs-bind (Runs-tell _)
                λ v. Runs-bind (Runs-swallow (publish-Runs env blocked)) λ x. Runs-throw _

  worker_reply-Runs :
      (effect : WorkerEffect) (reason : MaterialBlockerReason) (message : Failure)
      (reply : WorkerReply)
      → Runs (worker_reply env effect reason message reply)
  unfolding worker_reply
  worker_reply-Runs effect reason message (receipt r) = Runs-pure r
  worker_reply-Runs effect reason message (unavailable because) =
      block_after_worker_failure-Runs effect.work_item_id _ message
  worker_reply-Runs effect reason message broken =
      block_after_worker_failure-Runs effect.work_item_id reason message

  execute_controlled_effect-Runs :
      (effect : WorkerEffect) (reason : MaterialBlockerReason) (message : Failure)
      → Runs (execute_controlled_effect env effect reason message)
  unfolding execute_controlled_effect
  execute_controlled_effect-Runs effect reason message = Runs-bind (Runs-tell _) λ u.
      Runs-bind Runs-next_call λ n. worker_reply-Runs effect reason message (env.execute n effect)

  contribute-Runs :
      (item : WorkItem) (suffix : String) (assignments : List CollaboratingExecutiveAssignment)
      → Runs (contribute env item suffix assignments)
  unfolding contribute record_worker_effect
  contribute-Runs item suffix [] = Runs-pure tt
  contribute-Runs item suffix (assignment ∷ assignments) =
      Runs-bind (execute_controlled_effect-Runs _ _ _) λ r. Runs-bind (Runs-now env) λ at.
        Runs-bind (Runs-transaction λ t. Reaches-noted t _ _ _ at _ refl)
          λ u. contribute-Runs item suffix assignments

  block_after_verification_failure-Runs :
      {A : Type 0} (id : String) → Runs (block_after_verification_failure env {A = A} id)
  unfolding block_after_verification_failure record_verification_failure
  block_after_verification_failure-Runs id = Runs-bind (Runs-now env) λ failed_at.
      Runs-bind (Runs-transaction λ t. Reaches-noted t _ _ _ failed_at _ refl) λ u.
        Runs-bind (Runs-now env) λ at.
          Runs-bind (Runs-transaction λ t. transition-Reaches env.carries_secret t id _ at _)
            λ blocked.
              Runs-bind (Runs-tell _)
                λ v. Runs-bind (Runs-swallow (publish-Runs env blocked)) λ x. Runs-throw _

  present-Runs :
      (was_blocked : Bool) (item : WorkItem) (r : WorkerReceipt)
      → Runs (present env was_blocked item r)
  unfolding present record_verification
  present-Runs was_blocked item r = Runs-bind (Runs-now env) λ at.
      Runs-bind (Runs-transaction λ t. Reaches-noted t _ _ _ at _ refl) λ u.
        Runs-bind (Runs-random_uuid env) λ report_id. Runs-bind (Runs-now env) λ report_at.
          Runs-bind
            (Runs-transaction λ t.
              record_review_ready_outcome-Reaches env.carries_secret report_id item r _ report_at t)
            λ result.
              Runs-bind (Runs-if was_blocked (Runs-tell _) (Runs-pure tt))
                λ v. Runs-bind (publish-Runs env result.work_item) λ x. Runs-pure result

  judge_verification-Runs :
      (was_blocked : Bool) (item : WorkItem) (r : WorkerReceipt) (verified : Bool)
      → Runs (judge_verification env was_blocked item r verified)
  unfolding judge_verification
  judge_verification-Runs was_blocked item r true = present-Runs was_blocked item r
  judge_verification-Runs was_blocked item r false = block_after_verification_failure-Runs item.id

  pub run_controlled_execution-Runs : (entry : WorkItem) → Runs (run_controlled_execution env entry)
  unfolding run_controlled_execution record_worker_effect
  run_controlled_execution-Runs entry = Runs-bind (Runs-read _) λ revision.
      Runs-bind (advance_work_item-Runs env entry _ _) λ item.
        Runs-bind (contribute-Runs item _ item.collaborating_executives) λ u.
          Runs-bind (execute_controlled_effect-Runs _ _ _) λ r.
            Runs-bind (Runs-now env) λ effect_at.
              Runs-bind (Runs-transaction λ t. Reaches-noted t _ _ _ effect_at _ refl) λ v.
                Runs-bind (Runs-now env) λ at.
                  Runs-bind
                    (Runs-transaction
                      λ t. transition-Reaches env.carries_secret t item.id verifying at [])
                    λ checked.
                      Runs-bind Runs-next_call
                        λ n. judge_verification-Runs (entry.state == waiting_blocked) checked r _
