-- ===== src/Gateway/Publish.antt =====
-- src/operations/operations-gateway.ts: how a Work Item is looked up, published and advanced.
pub mod Steps
pub mod Returns
use real_ming.Base.{ℕ, String, String_eq, ℕ_eq, none, some, List, [], ◌∷◌}
use real_ming.Contracts.Kinds.{WorkItemState, WorkItemState_eq}
use real_ming.Contracts.Records.{WorkItem}
use real_ming.Lifecycle.{lifecycle_path_to}
use real_ming.Store.Database.{work_item_unknown, transition_not_allowed, projection_failed}
use real_ming.Store.Sql.{work_item}
use real_ming.Store.Items.{transition}
use real_ming.Store.Notes.{record_rejected_transition}
use real_ming.Gateway.World.{
  Environment, Projection, projected, transient, refused, work_item_changed, M, pure, throw, ◌>>=◌,
  ◌>>◌, transaction, read, tell, next_call, now,
}

-- `requireWorkItem`
unfoldable pub require_work_item : String → M WorkItem
require_work_item id = do
  stored ← read (work_item id)
  elim stored [ some item ↦ pure item | none ↦ throw work_item_unknown ]

module _ (env : Environment) where
  -- One call of `workItemChanged`.
  project_once : (ℕ → WorkItem → Projection) → WorkItem → M Projection
  project_once project item = do tell (work_item_changed item); n ← next_call; pure (project n item)

  give_up : WorkItem → M WorkItem
  give_up item = do tell (real_ming.Gateway.World.projection_failed item); throw projection_failed

  second_reply : WorkItem → Projection → M WorkItem
  second_reply item projected = pure item
  second_reply item _ = give_up item

  first_reply : (ℕ → WorkItem → Projection) → WorkItem → Projection → M WorkItem
  first_reply project item projected = pure item
  first_reply project item refused = give_up item
  first_reply project item transient = do reply ← project_once project item; second_reply item reply

  -- An error that may be retried is retried once.
  unfoldable pub publish : WorkItem → M WorkItem
  unfolding project_once give_up second_reply first_reply
  publish item = elim env.project [
    | none ↦ pure item
    | some project ↦ do reply ← project_once project item; first_reply project item reply
  ]

  -- The loop over the path.
  follow : List WorkItemState → WorkItem → M WorkItem
  follow [] current = pure current
  follow (next ∷ path) current = do
    at ← now env
    moved ← transaction (transition env.carries_secret current.id next at [])
    follow path moved

  reject_transition : WorkItem → WorkItemState → String → M WorkItem
  reject_transition item target reason = do
    at ← now env
    transaction
        (record_rejected_transition env.carries_secret item.id none item.state target reason at)
    throw (transition_not_allowed item.state target)

  unfoldable pub advance_work_item : WorkItem → WorkItemState → String → M WorkItem
  unfolding follow reject_transition
  advance_work_item item target reason = elim (lifecycle_path_to item.state target) [
    | none ↦ reject_transition item target reason
    | some path ↦ follow path item
  ]
