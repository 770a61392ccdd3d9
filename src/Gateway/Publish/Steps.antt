-- ===== src/Gateway/Publish/Steps.antt =====
-- src/operations/operations-gateway.ts: what publishing and advancing commit.
use real_ming.Base.{ℕ, String, List, [], ◌∷◌, refl}
use real_ming.Contracts.Kinds.{WorkItemState}
use real_ming.Contracts.Records.{WorkItem}
use real_ming.Lifecycle.{lifecycle_path_to}
use real_ming.Store.Sql.{work_item}
use real_ming.Store.Notes.{record_rejected_transition}
use real_ming.Store.Steps.Rules.{Reaches-noted}
use real_ming.Store.Steps.Items.{transition-Reaches}
use real_ming.Gateway.World.{Environment, Projection, projected, transient, refused}
use real_ming.Gateway.Rules.{
  Runs, Runs-pure, Runs-throw, Runs-read, Runs-tell, Runs-next_call, Runs-now, Runs-bind,
  Runs-transaction, Runs-option,
}
use real_ming.Gateway.Publish.{
  require_work_item, project_once, give_up, second_reply, first_reply, publish, follow,
  reject_transition, advance_work_item,
}

pub require_work_item-Runs : (id : String) → Runs (require_work_item id)
unfolding require_work_item
require_work_item-Runs id =
    Runs-bind (Runs-read (work_item id)) λ stored. Runs-option stored (Runs-throw _) Runs-pure

module _ (env : Environment) where
  project_once-Runs :
      (project : ℕ → WorkItem → Projection) (item : WorkItem) → Runs (project_once env project item)
  unfolding project_once
  project_once-Runs project item =
      Runs-bind (Runs-tell _) λ u. Runs-bind Runs-next_call λ n. Runs-pure _

  give_up-Runs : (item : WorkItem) → Runs (give_up env item)
  unfolding give_up
  give_up-Runs item = Runs-bind (Runs-tell _) λ u. Runs-throw _

  second_reply-Runs : (item : WorkItem) (reply : Projection) → Runs (second_reply env item reply)
  unfolding second_reply
  second_reply-Runs item projected = Runs-pure item
  second_reply-Runs item transient = give_up-Runs item
  second_reply-Runs item refused = give_up-Runs item

  first_reply-Runs :
      (project : ℕ → WorkItem → Projection) (item : WorkItem) (reply : Projection)
      → Runs (first_reply env project item reply)
  unfolding first_reply
  first_reply-Runs project item projected = Runs-pure item
  first_reply-Runs project item refused = give_up-Runs item
  first_reply-Runs project item transient =
      Runs-bind (project_once-Runs project item) (second_reply-Runs item)

  pub publish-Runs : (item : WorkItem) → Runs (publish env item)
  unfolding publish
  publish-Runs item =
      Runs-option env.project (Runs-pure item)
        λ project. Runs-bind (project_once-Runs project item) (first_reply-Runs project item)

  follow-Runs : (path : List WorkItemState) (item : WorkItem) → Runs (follow env path item)
  unfolding follow
  follow-Runs [] item = Runs-pure item
  follow-Runs (next ∷ path) item = Runs-bind (Runs-now env) λ at.
      Runs-bind (Runs-transaction λ t. transition-Reaches env.carries_secret t item.id next at [])
        (follow-Runs path)

  reject_transition-Runs :
      (item : WorkItem) (target : WorkItemState) (reason : String)
      → Runs (reject_transition env item target reason)
  unfolding reject_transition record_rejected_transition
  reject_transition-Runs item target reason =
      Runs-bind (Runs-now env)
        λ at. Runs-bind (Runs-transaction λ t. Reaches-noted t _ _ _ at _ refl) λ u. Runs-throw _

  pub advance_work_item-Runs :
      (item : WorkItem) (target : WorkItemState) (reason : String)
      → Runs (advance_work_item env item target reason)
  unfolding advance_work_item
  advance_work_item-Runs item target reason =
      Runs-option (lifecycle_path_to item.state target) (reject_transition-Runs item target reason)
        λ path. follow-Runs path item
