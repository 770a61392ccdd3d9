-- ===== src/Store/Items/Transition.antt =====
-- src/operations/operations-state.ts: when a transition is committed, and what it leaves.
use real_ming.Base.{
  String, String_eq, Bool, false, not, ◌&&◌, ◌≡◌, refl, some, find-update, exists_of_find,
}
use real_ming.Contracts.Kinds.{WorkItemState, AuditEventType}
use real_ming.Contracts.Json.{Json, Details, fields}
use real_ming.Contracts.Records.{WorkItem}
use real_ming.Lifecycle.{lifecycle_event_for}
use real_ming.Store.Database.{Database, ok}
use real_ming.Store.Sql.{
  is_id, work_item, require_work_item, needs_outcome, has_outcome, set_state, append_audit,
  with_state, in_state, audited,
}
use real_ming.Store.Items.{move, transition}

known_after :
    (db : Database) (id : String) (state : WorkItemState) (at : String) (current : WorkItem)
    → work_item id db ≡ some current
    → work_item id (in_state id state at db) ≡ some (with_state state at current)
known_after db id state at current there =
    find-update (is_id id) (with_state state at) db.work_items (λ i. refl) there

module _ (carries_secret : Json → Bool) where
  -- A transition that the lifecycle table has, to a state whose Outcome Report (where it needs one)
  -- is there, with details that carry no secret, is committed: the Work Item is in the new state,
  -- and the audit trail has one more row, with the table's event and the details.
  pub transition-moves :
      (id : String) (state : WorkItemState) (at : String) (details : Details) (db : Database)
      (current : WorkItem) (event : AuditEventType)
      → work_item id db ≡ some current
      → lifecycle_event_for current.state state ≡ some event
      → (needs_outcome state && not (has_outcome id db)) ≡ false
      → carries_secret (fields details) ≡ false
      → transition carries_secret id state at details db
        ≡ ok (with_state state at current, audited id event at details (in_state id state at db))
  unfolding transition require_work_item move set_state append_audit
  transition-moves id state at details db current event there e guarded clean =
      let known = exists_of_find (is_id id) db.work_items there in
      let moved = known_after db id state at current there in
      let known_later = exists_of_find (is_id id) (in_state id state at db).work_items moved in
      rw (there, e, known, guarded, clean, known_later, moved) refl
