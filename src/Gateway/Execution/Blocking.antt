-- ===== src/Gateway/Execution/Blocking.antt =====
-- src/operations/operations-gateway.ts: a worker that fails leaves the Work Item blocked.
use real_ming.Base.{
  suc, String, Bool, true, false, ◌≡◌, ◌∙◌, refl, sym, subst, ap, some, [], ◌∷◌, find-update,
  exists_of_find,
}
use real_ming.Contracts.Kinds.{
  verifying, work_item_waiting_blocked, worker_effect_verification_failed, AuditEventType,
  waiting_blocked, worker_effect_failed,
}
use real_ming.Contracts.Json.{Details, Json, text, flag, fields}
use real_ming.Contracts.Records.{WorkerReceipt, WorkItem, WorkerEffect}
use real_ming.Lifecycle.{lifecycle_event_for}
use real_ming.Store.Database.{Database, Failure, verification_failed, ok}
use real_ming.Store.Sql.{is_id, work_item, append_audit, audited, with_state}
use real_ming.Store.Notes.{record_worker_failure, record_verification_failure}
use real_ming.Store.Items.Transition.{transition-moves}
use real_ming.Gateway.World.{
  effect_verification_failed, Environment, World, MaterialBlockerReason, worker_unavailable,
  WorkerReply, receipt, unavailable, broken, Run, done, thrown, after, continue, forgotten, throw,
  ◌>>=◌, transaction, tell, next_call, swallow, now,
}
use real_ming.Gateway.Publish.{publish}
use real_ming.Gateway.Publish.Returns.{publish-Quiet}
use real_ming.Gateway.Execution.{
  block_after_verification_failure, judge_verification, blocker_text, block_after_worker_failure,
  worker_reply, execute_controlled_effect,
}

-- The reasons of a blocker are no secrets to the detector.
pub record Clean (carries_secret : Json → Bool) : Type 0 where
  pub failure :
      (reason : MaterialBlockerReason)
      → carries_secret
          (fields (("classification", text (blocker_text reason)) ∷ ("secretSafe", flag true) ∷ []))
        ≡ false
  pub blocker :
      (reason : MaterialBlockerReason)
      → carries_secret (fields (("reason", text (blocker_text reason)) ∷ [])) ≡ false

-- The run throws `message`, and the Work Item is then Waiting / Blocked.
abbrev pub Blocks : {A : Type 0} → WorkItem → Failure → String → Run A → Type 0
Blocks item message at r =
    (v : World) × (r ≡ thrown message v)
    × (work_item item.id v.database ≡ some (with_state waiting_blocked at item))

failure_recorded :
    (carries_secret : Json → Bool) (id at : String) (reason : MaterialBlockerReason) (db : Database)
    (item : WorkItem)
    → Clean carries_secret
    → work_item id db ≡ some item
    → record_worker_failure carries_secret id at (blocker_text reason) db
      ≡ ok (
        tt,
        audited id worker_effect_failed at
            (("classification", text (blocker_text reason)) ∷ ("secretSafe", flag true) ∷ [])
            db,
      )
unfolding record_worker_failure append_audit
failure_recorded carries_secret id at reason db item clean there =
    rw (clean.failure reason, exists_of_find (is_id id) db.work_items there) refl

abbrev unverified_details : Details
unverified_details =
    ("classification", text "effect-verification-failed") ∷ ("secretSafe", flag true) ∷ []

unverified_recorded :
    (carries_secret : Json → Bool) (id at : String) (db : Database) (item : WorkItem)
    → Clean carries_secret
    → work_item id db ≡ some item
    → record_verification_failure carries_secret id at db
      ≡ ok (tt, audited id worker_effect_verification_failed at unverified_details db)
unfolding record_verification_failure append_audit blocker_text
unverified_recorded carries_secret id at db item clean there =
    rw (clean.failure effect_verification_failed, exists_of_find (is_id id) db.work_items there)
      refl

verifying_may_block : lifecycle_event_for verifying waiting_blocked ≡ some work_item_waiting_blocked
unfolding lifecycle_event_for
verifying_may_block = refl

forgotten_done : {A : Type 0} (r : Run A) → forgotten r ≡ done tt (after r)
forgotten_done (done a w) = refl
forgotten_done (thrown e w) = refl

-- The reply is a receipt.
abbrev pub is_receipt : WorkerReply → Bool
is_receipt (receipt r) = true
is_receipt _ = false

module _ (env : Environment) where
  published_blocks :
      {A : Type 0} (item blocked : WorkItem) (message : Failure) (w : World)
      → work_item item.id w.database ≡ some blocked
      → (v : World) × (continue (forgotten (publish env blocked w)) (λ _. throw {A = A} message)
          ≡ thrown message v)
        × (work_item item.id v.database ≡ some blocked)
  unfolding throw
  published_blocks item blocked message w there = (
    _,
    ap (λ r. continue r (λ _. throw message)) (forgotten_done (publish env blocked w)),
    subst (λ db. work_item item.id db ≡ some blocked)
        (sym ((publish-Quiet env blocked).same w).database) there,
  )

  block_after_worker_failure-Blocks :
      {A : Type 0} (item : WorkItem) (reason : MaterialBlockerReason) (message : Failure)
      (w : World) (event : AuditEventType)
      → work_item item.id w.database ≡ some item
      → lifecycle_event_for item.state waiting_blocked ≡ some event
      → Clean env.carries_secret
      → Blocks item message
          (env.clock (suc w.ticks))
          (block_after_worker_failure env {A = A} item.id reason message w)
  unfolding block_after_worker_failure now transaction tell swallow ◌>>=◌
  block_after_worker_failure-Blocks item reason message w event there e clean =
      let failed =
        failure_recorded env.carries_secret item.id (env.clock w.ticks) reason w.database item clean
          there in
      let moved =
        transition-moves env.carries_secret item.id waiting_blocked (env.clock (suc w.ticks))
          (("reason", text (blocker_text reason)) ∷ [])
          (audited item.id worker_effect_failed (env.clock w.ticks)
            (("classification", text (blocker_text reason)) ∷ ("secretSafe", flag true) ∷ [])
            w.database)
          item event there e refl (clean.blocker reason) in
      rw (failed, moved)
        (published_blocks item _ message _ (
          find-update (is_id item.id) (with_state waiting_blocked (env.clock (suc w.ticks)))
            w.database.work_items (λ i. refl) there))

  worker_reply-Blocks :
      (item : WorkItem) (effect : WorkerEffect) (reason : MaterialBlockerReason) (message : Failure)
      (reply : WorkerReply) (w : World) (event : AuditEventType)
      → effect.work_item_id ≡ item.id
      → is_receipt reply ≡ false
      → work_item item.id w.database ≡ some item
      → lifecycle_event_for item.state waiting_blocked ≡ some event
      → Clean env.carries_secret
      → Blocks item message
          (env.clock (suc w.ticks))
          (worker_reply env effect reason message reply w)
  unfolding worker_reply
  worker_reply-Blocks item effect reason message (receipt r) w event its failed there e clean = cc
  worker_reply-Blocks item effect reason message (unavailable because) w event its failed there e
        clean =
      rw its (
        block_after_worker_failure-Blocks item (worker_unavailable because) message w event there e
          clean)
  worker_reply-Blocks item effect reason message broken w event its failed there e clean =
      rw its (block_after_worker_failure-Blocks item reason message w event there e clean)

  -- If the detector takes no recorded reason of a blocker for a secret: an effect of a Work Item
  -- that may be blocked, which the worker does not return a receipt for, leaves the Work Item
  -- Waiting / Blocked and throws, whatever the projector replies.
  pub execute_controlled_effect-Blocks :
      (item : WorkItem) (effect : WorkerEffect) (reason : MaterialBlockerReason) (message : Failure)
      (w : World) (event : AuditEventType)
      → effect.work_item_id ≡ item.id
      → is_receipt (env.execute w.calls effect) ≡ false
      → work_item item.id w.database ≡ some item
      → lifecycle_event_for item.state waiting_blocked ≡ some event
      → Clean env.carries_secret
      → Blocks item message
          (env.clock (suc w.ticks))
          (execute_controlled_effect env effect reason message w)
  unfolding execute_controlled_effect tell next_call ◌>>=◌
  execute_controlled_effect-Blocks item effect reason message w event its failed there e clean =
      worker_reply-Blocks item effect reason message (env.execute w.calls effect) _ event its failed
        there e clean

  -- If the detector takes no recorded reason of a blocker for a secret: a Work Item that is being
  -- verified, and whose effect the verifier does not confirm, is left Waiting / Blocked, and the
  -- execution throws, whatever the projector replies.
  pub judge_verification-Blocks :
      (was_blocked : Bool) (item : WorkItem) (r : WorkerReceipt) (w : World)
      → item.state ≡ verifying
      → work_item item.id w.database ≡ some item
      → Clean env.carries_secret
      → Blocks item verification_failed
          (env.clock (suc w.ticks))
          (judge_verification env was_blocked item r false w)
  unfolding judge_verification block_after_verification_failure now transaction tell swallow ◌>>=◌
      blocker_text
  judge_verification-Blocks was_blocked item r w due there clean =
      let failed =
        unverified_recorded env.carries_secret item.id (env.clock w.ticks) w.database item clean
          there in
      let moved =
        transition-moves env.carries_secret item.id waiting_blocked (env.clock (suc w.ticks))
          (("reason", text "effect-verification-failed") ∷ [])
          (audited item.id worker_effect_verification_failed (env.clock w.ticks) unverified_details
            w.database)
          item work_item_waiting_blocked there
          (ap (λ s. lifecycle_event_for s waiting_blocked) due ∙ verifying_may_block) refl
          (clean.blocker effect_verification_failed) in
      rw (failed, moved)
        (published_blocks item _ verification_failed _ (
          find-update (is_id item.id) (with_state waiting_blocked (env.clock (suc w.ticks)))
            w.database.work_items (λ i. refl) there))
