-- ===== src/Gateway/Reviews/Commitments.antt =====
-- src/operations/operations-gateway.ts: a commitment that the CEO set is the CEO's to change.
use real_ming.Base.{
  suc, String, String_eq, Bool, true, false, ◌≡◌, refl, sym, subst, ap, ◌∙◌, some, arith, eq_test,
  find-test, find, update, find-update,
}
use real_ming.Contracts.Json.{Json}
use real_ming.Contracts.Records.{
  proposed, ProposedCommitment, CommitmentActor, ceo, external_source, executive_role,
  RecordWorkItemCommitmentRequest, WorkItem,
}
use real_ming.Store.Database.{Database, Failure, Result, ok, err}
use real_ming.Store.Sql.{is_id, work_item, require_work_item, append_audit}
use real_ming.Store.Items.{edit_item, with_commitment, record_commitment}
use real_ming.Store.Notes.{record_rejected_commitment}
use real_ming.Gateway.World.{
  Environment, World, Run, done, thrown, after, continue, committed, pure, throw, ◌>>=◌,
  transaction, read, now,
}
use real_ming.Gateway.Publish.{require_work_item as look_up, publish}
use real_ming.Gateway.Publish.Returns.{publish-Quiet}
use real_ming.Gateway.Decisions.{is_ceo_actor}
use real_ming.Gateway.Reviews.{
  is_ceo_set, commit_by, reject_commitment, record_work_item_commitment,
}

-- The actor of a commitment is the CEO.
abbrev pub by_ceo : CommitmentActor → Bool
by_ceo (ceo actor) = is_ceo_actor actor
by_ceo _ = false

-- The Work Item is there, with the confirmed commitment of `item`.
abbrev pub Holds : WorkItem → Database → Type 0
Holds item db =
    (i : WorkItem) × (work_item item.id db ≡ some i)
    × (i.confirmed_commitment ≡ item.confirmed_commitment)

committed-Holds :
    {A : Type 0} (item : WorkItem) (w : World) (r : Result (A × Database))
    → Holds item w.database
    → ((a : A) (u : Database) → r ≡ ok (a, u) → Holds item u)
    → Holds item (after (committed w r)).database
committed-Holds item w (ok (a, u)) h g = g a u refl
committed-Holds item w (err e) h g = h

module _ (carries_secret : Json → Bool) where
  proposed_Holds :
      (item : WorkItem) (c : ProposedCommitment) (at : String) (t u : Database) (a : WorkItem)
      → work_item item.id t ≡ some item
      → record_commitment carries_secret item.id (proposed c) at t ≡ ok (a, u)
      → Holds item u
  unfolding record_commitment edit_item append_audit require_work_item
  proposed_Holds item c at t u a there h =
      let found =
        find-update (is_id item.id) (with_commitment (proposed c) at) t.work_items (λ i. refl)
          there in
      let same : u.work_items
          ≡ update (is_id item.id) (with_commitment (proposed c) at) t.work_items =
        ground arith in
      (_, ap (find (is_id item.id)) same ∙ found, refl)

  rejected_Holds :
      (item : WorkItem) (kind reason at : String) (t u : Database)
      → work_item item.id t ≡ some item
      → record_rejected_commitment carries_secret item.id kind reason at t ≡ ok (tt, u)
      → Holds item u
  unfolding record_rejected_commitment append_audit
  rejected_Holds item kind reason at t u there h =
      let same : u.work_items ≡ t.work_items = ground arith in (item, rw same there, refl)

module _ (env : Environment) where
  abbrev Kept : WorkItem → Run WorkItem → Type 0
  Kept item r = Holds item (after r).database

  rejection_Kept :
      (item : WorkItem) (w v : World) (r : Result (Unit {0} × Database)) (message : Failure)
      → Holds item v.database
      → ((u : Database) → r ≡ ok (tt, u) → Holds item u)
      → Kept item (continue (committed v r) (λ _. throw message))
  unfolding throw
  rejection_Kept item w v (ok (tt, u)) message h g = g u refl
  rejection_Kept item w v (err e) message h g = h

  reject_commitment-Kept :
      (item : WorkItem) (kind reason : String) (message : Failure) (w : World)
      → work_item item.id w.database ≡ some item
      → Kept item (reject_commitment env item.id kind reason message w)
  unfolding reject_commitment now transaction ◌>>=◌
  reject_commitment-Kept item kind reason message w there =
      rejection_Kept item w (record w { ticks = suc w.ticks })
        (record_rejected_commitment env.carries_secret item.id kind reason (env.clock w.ticks)
          w.database)
        message (item, there, refl)
        λ u e.
          rejected_Holds env.carries_secret item kind reason (env.clock w.ticks) w.database u there
            e

  commit_by-Kept :
      (request : RecordWorkItemCommitmentRequest) (item : WorkItem) (actor : CommitmentActor)
      (w : World)
      → work_item item.id w.database ≡ some item
      → is_ceo_set item.confirmed_commitment ≡ true
      → by_ceo actor ≡ false
      → Kept item (commit_by env request item actor w)
  unfolding commit_by now transaction ◌>>=◌
  commit_by-Kept request item (executive_role executive) w there set stranger =
      let c : ProposedCommitment = record {
        value = request.value;
        proposed_by = executive;
        proposed_at = env.clock w.ticks;
      } in
      let at = env.clock (suc w.ticks) in
      committed-Holds item (record w { ticks = suc (suc w.ticks) })
        (record_commitment env.carries_secret item.id (proposed c) at w.database)
        (item, there, refl)
        λ a u e. proposed_Holds env.carries_secret item c at w.database u a there e
  commit_by-Kept request item (external_source identity reference as_of) w there set stranger =
      rw set (reject_commitment-Kept item _ _ _ w there)
  commit_by-Kept request item (ceo actor) w there set stranger =
      rw stranger (reject_commitment-Kept item _ _ _ w there)

  published_Kept :
      (item : WorkItem) (r : Run WorkItem) → Kept item r → Kept item (continue r (publish env))
  published_Kept item (done i v) h =
      subst (Holds item) (sym ((publish-Quiet env i).same v).database) h
  published_Kept item (thrown e v) h = h

  -- A commitment that the CEO set is still the confirmed one after anybody else's attempt to record
  -- one: an executive's, an external source's, or one in the CEO's name by another actor.
  pub record_work_item_commitment-Kept :
      (request : RecordWorkItemCommitmentRequest) (item : WorkItem) (w : World)
      → work_item request.work_item_id w.database ≡ some item
      → is_ceo_set item.confirmed_commitment ≡ true
      → by_ceo request.actor ≡ false
      → Holds item (after (record_work_item_commitment env request w)).database
  unfolding record_work_item_commitment look_up read pure ◌>>=◌
  record_work_item_commitment-Kept request item w there set stranger =
      let same : item.id ≡ request.work_item_id =
        eq_test item.id request.work_item_id
          (find-test (is_id request.work_item_id) w.database.work_items there) in
      rw there (
        published_Kept item (commit_by env request item request.actor w) (
          commit_by-Kept request item request.actor w
            (subst (λ id. work_item id w.database ≡ some item) (sym same) there) set stranger))
