-- ===== src/Examples/Methods.antt =====
-- The theorems on single methods of the gateway and of the store, at a Work Item in several states.
use real_ming.Base.{inr, starts_with, false, none, some, ◌≡◌, refl, [], ◌∷◌}
use real_ming.Contracts.Kinds.{
  WorkItemState, executing, ready_for_ceo_review, verifying, waiting_blocked, WorkItemPriority,
  work_item_waiting_blocked, work_item_priority_recorded,
}
use real_ming.Contracts.Json.{text}
use real_ming.Contracts.Names.{priority_text}
use real_ming.Contracts.Records.{WorkItem, external_source}
use real_ming.Lifecycle.{lifecycle_event_for}
use real_ming.Store.Database.{
  Database, PriorityWrite, worker_failed, verification_failed, ok, err, priority_key_reused,
}
use real_ming.Store.Sql
use real_ming.Store.Items.{
  transition, record_priority, priority_found, write_priority, edit_item, insert_priority_write,
}
use real_ming.Store.Items.Transition.{transition-moves}
use real_ming.Store.Items.Priorities.{record_priority-again, record_priority-bound}
use real_ming.Gateway.World.{after, worker_execution_failed}
use real_ming.Gateway.Quiet.{Untouched}
use real_ming.Gateway.Execution.{judge_verification, execute_controlled_effect}
use real_ming.Gateway.Execution.Blocking.{
  Clean, Blocks, execute_controlled_effect-Blocks, judge_verification-Blocks,
}
use real_ming.Gateway.Commands.{execute_work_item, acknowledge_ceo_action}
use real_ming.Gateway.Commands.Repeats.{
  execute_work_item-Untouched, acknowledge_ceo_action-Untouched,
}
use real_ming.Gateway.Reviews.{review_work_item, record_work_item_commitment}
use real_ming.Gateway.Reviews.Authority.{Refuses, review_work_item-Refuses}
use real_ming.Gateway.Reviews.Acceptance.{review_work_item-Settles}
use real_ming.Gateway.Reviews.Commitments.{Holds, record_work_item_commitment-Kept}
use real_ming.Gateway.Decisions.{is_ceo_actor}
use real_ming.Examples.{
  surroundings, idle_surroundings, ceo_action, item_in, effect_of_item, report_of_item, world_with,
  review_by,
}

blocked_item : lifecycle_event_for executing waiting_blocked ≡ some work_item_waiting_blocked
unfolding lifecycle_event_for
blocked_item = refl

review_work_item-Settles_example :
    Sql.work_item "id-0"
      (after (
        review_work_item surroundings
          (review_by "ceo:ming")
          (world_with ready_for_ceo_review (report_of_item ∷ [])))).database
    ≡ some (
        Sql.with_state WorkItemState.completed
          (surroundings.clock 0)
          (item_in ready_for_ceo_review))
unfolding is_ceo_actor starts_with
review_work_item-Settles_example =
    review_work_item-Settles surroundings (review_by "ceo:ming") (item_in ready_for_ceo_review)
      (some report_of_item) (world_with ready_for_ceo_review (report_of_item ∷ [])) refl refl refl
      refl

review_work_item-Refuses_example :
    Refuses
      (world_with verifying [])
      (review_work_item surroundings (review_by "executive:coo") (world_with verifying []))
unfolding is_ceo_actor starts_with
review_work_item-Refuses_example =
    review_work_item-Refuses surroundings (review_by "executive:coo") (item_in verifying) none
      (world_with verifying []) refl refl refl

idle_Clean : Clean idle_surroundings.carries_secret
idle_Clean = record { failure = λ reason. refl; blocker = λ reason. refl }

execute_controlled_effect-Blocks_example :
    Blocks (item_in executing) worker_failed (idle_surroundings.clock 1) (
      execute_controlled_effect idle_surroundings effect_of_item worker_execution_failed
        worker_failed
        (world_with executing []))
execute_controlled_effect-Blocks_example =
    execute_controlled_effect-Blocks idle_surroundings (item_in executing) effect_of_item
      worker_execution_failed worker_failed (world_with executing []) work_item_waiting_blocked refl
      refl refl blocked_item idle_Clean

judge_verification-Blocks_example :
    Blocks (item_in verifying) verification_failed (surroundings.clock 1) (
      judge_verification surroundings false
        (item_in verifying)
        (record { effect = effect_of_item; evidence = [] })
        false
        (world_with verifying []))
judge_verification-Blocks_example =
    judge_verification-Blocks surroundings false (item_in verifying)
      (record { effect = effect_of_item; evidence = [] }) (world_with verifying []) refl refl
      idle_Clean

record_work_item_commitment-Kept_example :
    Holds
      (item_in executing)
      (after (
        record_work_item_commitment surroundings
          (record {
            work_item_id = "id-0";
            value = "next month";
            actor = external_source "calendar" "event-7" "2026-01-02";
          })
          (world_with executing []))).database
record_work_item_commitment-Kept_example =
    record_work_item_commitment-Kept surroundings
      (record {
        work_item_id = "id-0";
        value = "next month";
        actor = external_source "calendar" "event-7" "2026-01-02";
      })
      (item_in executing) (world_with executing []) refl refl refl

execute_work_item-Untouched_example :
    Untouched (world_with ready_for_ceo_review (report_of_item ∷ [])) (
      after (
        execute_work_item surroundings "id-0"
          (world_with ready_for_ceo_review (report_of_item ∷ []))))
execute_work_item-Untouched_example =
    execute_work_item-Untouched surroundings "id-0" (item_in ready_for_ceo_review) report_of_item
      (world_with ready_for_ceo_review (report_of_item ∷ [])) refl refl refl

acknowledge_ceo_action-Untouched_example :
    Untouched
      (world_with executing [])
      (after (acknowledge_ceo_action surroundings ceo_action (world_with executing [])))
unfolding real_ming.Store.Import.find_work_item_by_command
acknowledge_ceo_action-Untouched_example =
    acknowledge_ceo_action-Untouched surroundings ceo_action (item_in executing)
      (world_with executing []) refl

transition-moves_example :
    transition
      (λ j. false)
      "id-0"
      waiting_blocked
      "2026-01-02"
      []
      (world_with executing []).database
    ≡ ok (
      Sql.with_state waiting_blocked "2026-01-02" (item_in executing),
      Sql.audited "id-0" work_item_waiting_blocked "2026-01-02" []
          (Sql.in_state "id-0" waiting_blocked "2026-01-02" (world_with executing []).database),
    )
transition-moves_example =
    transition-moves (λ j. false) "id-0" waiting_blocked "2026-01-02" []
      (world_with executing []).database (item_in executing) work_item_waiting_blocked refl
      blocked_item refl refl

abbrev first_write : PriorityWrite
first_write = record {
  idempotency_key = "write-1";
  work_item_id = "id-0";
  priority = some WorkItemPriority.high;
  recorded_at = "2026-01-02";
}

abbrev written_database : Database
written_database = record ((world_with executing []).database) {
  priority_writes = first_write ∷ [];
}

abbrev prioritized : WorkItem
prioritized = record (item_in executing) {
  priority = some WorkItemPriority.high;
  updated_at = "2026-01-02";
}

abbrev prioritized_database : Database
prioritized_database =
    Sql.audited "id-0" work_item_priority_recorded "2026-01-02"
      (("idempotencyKey", text "write-1") ∷ ("priority", text "High") ∷ [])
      (record written_database { work_items = prioritized ∷ [] })

first_recorded :
    record_priority
      (λ j. false)
      "id-0"
      (some WorkItemPriority.high)
      "write-1"
      "2026-01-02"
      (world_with executing []).database
    ≡ ok (prioritized, prioritized_database)
unfolding record_priority priority_found write_priority edit_item insert_priority_write
    Sql.require_work_item Sql.append_audit priority_text
first_recorded = refl

record_priority-again_example :
    record_priority
      (λ j. false)
      "id-0"
      (some WorkItemPriority.high)
      "write-1"
      "2026-01-09"
      prioritized_database
    ≡ ok (prioritized, prioritized_database)
record_priority-again_example =
    record_priority-again (λ j. false) "id-0" (some WorkItemPriority.high) "write-1" "2026-01-02"
      "2026-01-09" (world_with executing []).database prioritized_database prioritized refl
      first_recorded

record_priority-bound_example :
    record_priority
      (λ j. false)
      "id-0"
      (some WorkItemPriority.low)
      "write-1"
      "2026-01-09"
      prioritized_database
    ≡ err priority_key_reused
record_priority-bound_example =
    record_priority-bound (λ j. false) "id-0" "id-0" (some WorkItemPriority.high)
      (some WorkItemPriority.low) "write-1" "2026-01-02" "2026-01-09"
      (world_with executing []).database prioritized_database prioritized prioritized refl
      first_recorded refl (inr refl)
