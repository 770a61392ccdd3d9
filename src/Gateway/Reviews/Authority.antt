-- ===== src/Gateway/Reviews/Authority.antt =====
-- src/operations/operations-gateway.ts: who may review a Work Item, and when.
use real_ming.Base.{
  String, Bool, false, not, ◌&&◌, ◌==◌, ◌≡◌, refl, Option, none, some, arith, Bool-cases, inl, inr,
}
use real_ming.Contracts.Kinds.{WorkItemState_eq, ReviewDecision_eq, ready_for_ceo_review, complete}
use real_ming.Contracts.Records.{WorkItem, OutcomeReport, CeoReviewRequest}
use real_ming.Store.Database.{Database, Failure, Result, ok, err}
use real_ming.Store.Sql.{work_item, outcome_report, append_audit}
use real_ming.Store.Notes.{record_rejected_transition}
use real_ming.Gateway.World.{
  Environment, World, Run, thrown, continue, committed, pure, throw, ◌>>=◌, transaction, read, now,
}
use real_ming.Gateway.Publish.{require_work_item}
use real_ming.Gateway.Decisions.{is_ceo_actor}
use real_ming.Gateway.Reviews.{reject_review, judge_work_item, review_work_item}

-- The run throws and changes no Work Item.
pub record Refuses {A : Type 0} (w : World) (r : Run A) : Type 0 where
  pub failure : Failure
  pub world : World
  pub throws : r ≡ thrown failure world
  pub keeps : world.database.work_items ≡ w.database.work_items

-- A CEO reviews Work Items that are ready for review, and completes those with an Outcome Report.
abbrev pub admissible : CeoReviewRequest → WorkItem → Option OutcomeReport → Bool
admissible request item none =
    is_ceo_actor request.actor_id
    && (item.state == ready_for_ceo_review && not (request.decision == complete))
admissible request item (some report) =
    is_ceo_actor request.actor_id && item.state == ready_for_ceo_review

Refuses-continue :
    {A B : Type 0} {w : World} (r : Run A) (k : A → World → Run B)
    → Refuses w r
    → Refuses w (continue r k)
Refuses-continue r k h = record {
  failure = h.failure;
  world = h.world;
  throws = rw h.throws refl;
  keeps = h.keeps;
}

rejected_run :
    (w v : World) (r : Result (Unit {0} × Database)) (message : Failure)
    → v.database ≡ w.database
    → ((u : Database) → r ≡ ok (tt, u) → u.work_items ≡ w.database.work_items)
    → Refuses w (continue {B = WorkItem} (committed v r) (λ _. throw message))
unfolding throw
rejected_run w v (ok (tt, u)) message same h = record {
  failure = message;
  world = record v { database = u };
  throws = refl;
  keeps = h u refl;
}
rejected_run w v (err e) message same h = record {
  failure = e;
  world = v;
  throws = refl;
  keeps = rw same refl;
}

module _ (env : Environment) where
  reject_review-Refuses :
      (request : CeoReviewRequest) (item : WorkItem) (reason : String) (message : Failure)
      (w : World)
      → Refuses w (reject_review env request item reason message w)
  unfolding reject_review now transaction ◌>>=◌ record_rejected_transition append_audit
  reject_review-Refuses request item reason message w =
      rejected_run w _ _ message refl λ u e. ground arith

  judge_work_item-Refuses :
      (request : CeoReviewRequest) (item : WorkItem) (report : Option OutcomeReport) (w : World)
      → work_item request.work_item_id w.database ≡ some item
      → outcome_report item.id w.database ≡ report
      → admissible request item report ≡ false
      → Refuses w (judge_work_item env request w)
  unfolding judge_work_item require_work_item read pure ◌>>=◌
  judge_work_item-Refuses request item none w there reported refused =
      elim (Bool-cases (is_ceo_actor request.actor_id)) [
        | inr stranger ↦ rw (there, reported, stranger) (reject_review-Refuses request item _ _ w)
        | inl by_ceo ↦ elim (Bool-cases (request.decision == complete)) [
          | inl completes ↦
              rw (there, reported, by_ceo, completes) (reject_review-Refuses request item _ _ w)
          | inr other ↦
              let unready : (item.state == ready_for_ceo_review) ≡ false = ground arith in
              rw (there, reported, by_ceo, other, unready)
                (reject_review-Refuses request item _ _ w)
        ]
      ]
  judge_work_item-Refuses request item (some report) w there reported refused =
      elim (Bool-cases (is_ceo_actor request.actor_id)) [
        | inr stranger ↦ rw (there, reported, stranger) (reject_review-Refuses request item _ _ w)
        | inl by_ceo ↦
            let unready : (item.state == ready_for_ceo_review) ≡ false = ground arith in
            elim (Bool-cases (request.decision == complete)) [
              | inl completes ↦
                  rw (there, reported, by_ceo, completes, unready)
                    (reject_review-Refuses request item _ _ w)
              | inr other ↦
                  rw (there, reported, by_ceo, other, unready)
                    (reject_review-Refuses request item _ _ w)
            ]
      ]

  -- A review that is not the CEO's, of a Work Item that is not ready for review, or to complete one
  -- without an Outcome Report, throws and changes no Work Item.
  pub review_work_item-Refuses :
      (request : CeoReviewRequest) (item : WorkItem) (report : Option OutcomeReport) (w : World)
      → work_item request.work_item_id w.database ≡ some item
      → outcome_report item.id w.database ≡ report
      → admissible request item report ≡ false
      → Refuses w (review_work_item env request w)
  unfolding review_work_item ◌>>=◌
  review_work_item-Refuses request item report w there reported refused =
      Refuses-continue (judge_work_item env request w) _
        (judge_work_item-Refuses request item report w there reported refused)
