-- ===== src/Gateway/Reviews/Acceptance.antt =====
-- src/operations/operations-gateway.ts: what the CEO's review of a Work Item leads to.
use real_ming.Base.{
  suc, String_eq, true, false, not, ◌&&◌, ◌≡◌, refl, sym, subst, ap, Option, none, some, ◌∷◌, [],
  arith, eq_test, find-test, find-update, exists_of_find,
}
use real_ming.Contracts.Kinds.{
  WorkItemState_eq, ReviewDecision, ReviewDecision_eq, AuditEventType, complete, request_changes,
  reject, cancel, ready_for_ceo_review,
}
use real_ming.Contracts.Json.{Details, text, fields}
use real_ming.Contracts.Records.{WorkItem, OutcomeReport, CeoReviewRequest}
use real_ming.Lifecycle.{lifecycle_event_for}
use real_ming.Store.Database.{Database}
use real_ming.Store.Sql.{
  is_id, is_report_of, work_item, outcome_report, needs_outcome, has_outcome, with_state,
}
use real_ming.Store.Items.Transition.{transition-moves}
use real_ming.Gateway.World.{
  Environment, World, Run, done, after, continue, committed, pure, ◌>>=◌, transaction, read, now,
}
use real_ming.Gateway.Publish.{require_work_item, publish}
use real_ming.Gateway.Publish.Returns.{publish-Quiet}
use real_ming.Gateway.Decisions.{is_ceo_actor}
use real_ming.Gateway.Reviews.{
  review_target, review_details, review_move, judge_work_item, review_work_item,
}
use real_ming.Gateway.Reviews.Authority.{admissible}

-- The details of the audit row of a review.
abbrev pub given_details : CeoReviewRequest → WorkItem → Details
given_details request item = elim request.decision [
  | complete ↦ review_details item request
  | _ ↦ mathlib.Core.List.◌++◌ (review_details item request) (("reason", text request.reason) ∷ [])
]

review_event :
    (d : ReviewDecision)
    → (event : AuditEventType) × (lifecycle_event_for ready_for_ceo_review (review_target d)
        ≡ some event)
unfolding lifecycle_event_for
review_event complete = (_, refl)
review_event request_changes = (_, refl)
review_event reject = (_, refl)
review_event cancel = (_, refl)

-- A decision's state has its Outcome Report, where the review is admissible.
review_guard :
    (request : CeoReviewRequest) (item : WorkItem) (report : Option OutcomeReport) (db : Database)
    (d : ReviewDecision)
    → request.decision ≡ d
    → outcome_report item.id db ≡ report
    → admissible request item report ≡ true
    → (needs_outcome (review_target d) && not (has_outcome item.id db)) ≡ false
review_guard request item (some report) db complete e found h =
    rw (exists_of_find (is_report_of item.id) db.outcome_reports found) refl
review_guard request item none db complete e found h = ground arith
review_guard request item report db request_changes e found h = refl
review_guard request item report db reject e found h = refl
review_guard request item report db cancel e found h = refl

-- The run returns `new`, and that is then the row of `old`.
abbrev Settles : WorkItem → WorkItem → Run WorkItem → Type 0
Settles old new r = (v : World) × (r ≡ done new v) × (work_item old.id v.database ≡ some new)

-- The facts that an admissible review of a Work Item rests on.
admissible_facts :
    (request : CeoReviewRequest) (item : WorkItem) (report : Option OutcomeReport)
    → admissible request item report ≡ true
    → (is_ceo_actor request.actor_id ≡ true) × (item.state ≡ ready_for_ceo_review)
admissible_facts request item none h =
    (ground arith, eq_test item.state ready_for_ceo_review (ground arith))
admissible_facts request item (some report) h =
    (ground arith, eq_test item.state ready_for_ceo_review (ground arith))

module _ (env : Environment) where
  moved_to :
      (request : CeoReviewRequest) (item : WorkItem) (w : World) (event : AuditEventType)
      (details : Details)
      → work_item item.id w.database ≡ some item
      → lifecycle_event_for item.state (review_target request.decision) ≡ some event
      → (needs_outcome (review_target request.decision) && not (has_outcome item.id w.database))
        ≡ false
      → env.carries_secret (fields details) ≡ false
      → Settles item
          (with_state (review_target request.decision) (env.clock w.ticks) item)
          (review_move env request item details w)
  unfolding review_move now transaction ◌>>=◌
  moved_to request item w event details there e guarded clean =
      let at = env.clock w.ticks in
      let state = review_target request.decision in
      let moves =
        transition-moves env.carries_secret item.id state at details w.database item event there e
          guarded clean in
      (
        _,
        ap (committed (record w { ticks = suc w.ticks })) moves,
        find-update (is_id item.id) (with_state state at) w.database.work_items (λ i. refl) there,
      )

  -- An admissible review is a transition, with the details of its decision.
  accepted :
      (request : CeoReviewRequest) (item : WorkItem) (report : Option OutcomeReport) (w : World)
      (d : ReviewDecision)
      → request.decision ≡ d
      → work_item request.work_item_id w.database ≡ some item
      → outcome_report item.id w.database ≡ report
      → admissible request item report ≡ true
      → judge_work_item env request w ≡ review_move env request item (given_details request item) w
  unfolding judge_work_item require_work_item read pure ◌>>=◌
  accepted request item none w complete e there reported fits = ground arith
  accepted request item (some report) w complete e there reported fits =
      let (by_ceo, ready) = admissible_facts request item (some report) fits in
      rw (there, reported, by_ceo, e, ready) refl
  accepted request item report w request_changes e there reported fits =
      let (by_ceo, ready) = admissible_facts request item report fits in
      rw (there, reported, by_ceo, e, ready) refl
  accepted request item report w reject e there reported fits =
      let (by_ceo, ready) = admissible_facts request item report fits in
      rw (there, reported, by_ceo, e, ready) refl
  accepted request item report w cancel e there reported fits =
      let (by_ceo, ready) = admissible_facts request item report fits in
      rw (there, reported, by_ceo, e, ready) refl

  published-Settles :
      (old new : WorkItem) (w : World) (r : Run WorkItem)
      → Settles old new r
      → work_item old.id (after (continue r (publish env))).database ≡ some new
  published-Settles old new w r (v, ends, kept) =
      rw (ends, ((publish-Quiet env new).same v).database) kept

  -- The CEO's review of a Work Item that is ready for review (with an Outcome Report, if the review
  -- completes it) and whose details carry no secret leaves the Work Item in the state of the decision,
  -- as of the review's time, whatever the projector replies.
  pub review_work_item-Settles :
      (request : CeoReviewRequest) (item : WorkItem) (report : Option OutcomeReport) (w : World)
      → work_item request.work_item_id w.database ≡ some item
      → outcome_report item.id w.database ≡ report
      → admissible request item report ≡ true
      → env.carries_secret (fields (given_details request item)) ≡ false
      → work_item item.id (after (review_work_item env request w)).database
        ≡ some (with_state (review_target request.decision) (env.clock w.ticks) item)
  unfolding review_work_item ◌>>=◌
  review_work_item-Settles request item report w there reported fits clean =
      let same : item.id ≡ request.work_item_id =
        eq_test item.id request.work_item_id
          (find-test (is_id request.work_item_id) w.database.work_items there) in
      let again : work_item item.id w.database ≡ some item =
        subst (λ id. work_item id w.database ≡ some item) (sym same) there in
      let (by_ceo, ready) = admissible_facts request item report fits in
      let (event, known) = review_event request.decision in
      let guarded =
        review_guard request item report w.database request.decision refl reported fits in
      published-Settles item _ w (judge_work_item env request w) (
        subst (Settles item _)
          (sym (accepted request item report w request.decision refl there reported fits))
          (moved_to request item w event _ again (rw ready known) guarded clean))
