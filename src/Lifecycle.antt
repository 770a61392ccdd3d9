-- ===== src/Lifecycle.antt =====
-- src/operations/work-item-lifecycle.ts: the table of lifecycle transitions, and the breadth-first
-- search for a way through it.
pub mod States
pub mod Paths
pub mod Shortest
use real_ming.Base.{
  ℕ, zero, suc, Bool, not, ◌||◌, ◌==◌, if◌then◌else◌, Option, none, some, List, [], ◌∷◌, ◌++◌, find,
  exists,
}
use real_ming.Contracts.Kinds.{
  WorkItemState, captured, triaged, planned, awaiting_approval, executing, verifying,
  waiting_blocked, ready_for_ceo_review, changes_requested, cancelled, completed, WorkItemState_eq,
  AuditEventType, work_item_triaged, work_item_planned, work_item_awaiting_approval,
  work_item_executing, work_item_waiting_blocked, work_item_verifying,
  work_item_ready_for_ceo_review, work_item_completed, work_item_changes_requested,
  work_item_cancelled,
}

pub record LifecycleTransition : Type 0 where
  pub source : WorkItemState  -- `from`
  pub target : WorkItemState  -- `to`
  pub event : AuditEventType

abbrev arrow : WorkItemState → WorkItemState → AuditEventType → LifecycleTransition
arrow s t e = record { source = s; target = t; event = e }

abbrev pub lifecycle_transitions : List LifecycleTransition
lifecycle_transitions =
    arrow captured triaged work_item_triaged
    ∷ arrow triaged planned work_item_planned
    ∷ arrow planned awaiting_approval work_item_awaiting_approval
    ∷ arrow planned executing work_item_executing
    ∷ arrow awaiting_approval executing work_item_executing
    ∷ arrow executing waiting_blocked work_item_waiting_blocked
    ∷ arrow executing verifying work_item_verifying
    ∷ arrow verifying waiting_blocked work_item_waiting_blocked
    ∷ arrow verifying ready_for_ceo_review work_item_ready_for_ceo_review
    ∷ arrow waiting_blocked planned work_item_planned
    ∷ arrow waiting_blocked executing work_item_executing
    ∷ arrow ready_for_ceo_review completed work_item_completed
    ∷ arrow ready_for_ceo_review changes_requested work_item_changes_requested
    ∷ arrow ready_for_ceo_review cancelled work_item_cancelled
    ∷ arrow changes_requested planned work_item_planned
    ∷ []

abbrev advanceable_states : List WorkItemState
advanceable_states =
    captured ∷ triaged ∷ planned ∷ awaiting_approval ∷ waiting_blocked ∷ changes_requested ∷ []

abbrev event_of : Option LifecycleTransition → Option AuditEventType
event_of none = none
event_of (some t) = some t.event

abbrev goes : WorkItemState → WorkItemState → LifecycleTransition → Bool
goes s t transition = if transition.source == s then transition.target == t else Bool.false

unfoldable pub lifecycle_event_for : WorkItemState → WorkItemState → Option AuditEventType
lifecycle_event_for s t = event_of (find (goes s t) lifecycle_transitions)

-- `cameFrom.get(key)`; each key is set once.
came : WorkItemState → List (WorkItemState × WorkItemState) → Option WorkItemState
came key [] = none
came key ((k, v) ∷ entries) = if k == key then some v else came key entries

-- The variables of the search.
pub record Search : Type 0 where
  pub visited : List WorkItemState
  pub came_from : List (WorkItemState × WorkItemState)
  pub queue : List WorkItemState

-- How the scan of the transitions for one state ends.
pub data Scan : Type 0 where
  found : List (WorkItemState × WorkItemState) → Scan
  scanned : Search → Scan

scan : List LifecycleTransition → WorkItemState → WorkItemState → Search → Scan
scan [] current to s = scanned s
scan (t ∷ ts) current to s =
    let came' = (t.target, current) ∷ s.came_from in
    let marked = t.target ∷ s.visited in
    let skipped = scan ts current to s in
    let queued =
      scan ts current to
        (record { visited = marked; came_from = came'; queue = s.queue ++ (t.target ∷ []) }) in
    if not (t.source == current)
      || t.target == ready_for_ceo_review
      || exists (λ v. v == t.target) s.visited
    then skipped
    else if t.target == to
    then found came'
    else queued

-- How the search ends. `spent` is no result of the source: the fuel ran out.
pub data Exploration : Type 0 where
  path : List WorkItemState → Exploration
  no_path : Exploration
  spent : Exploration

-- The loop that unshifts the steps from `to` back to `from`.
walk_back :
    ℕ
    → WorkItemState
    → List (WorkItemState × WorkItemState)
    → List WorkItemState
    → Option WorkItemState
    → Exploration
walk_back zero from entries steps step = spent
walk_back (suc fuel) from entries steps none = path steps
walk_back (suc fuel) from entries steps (some step) =
    let further = walk_back fuel from entries (step ∷ steps) (came step entries) in
    if step == from then path steps else further

-- The loop over the queue.
explore : ℕ → WorkItemState → WorkItemState → Search → Exploration
explore zero from to s = spent
explore (suc fuel) from to s = elim s.queue [
  | [] ↦ no_path
  | current ∷ rest ↦ elim (scan lifecycle_transitions current to (record s { queue = rest })) [
    | found entries ↦ walk_back 12 from entries [] (some to)
    | scanned s' ↦ explore fuel from to s'
  ]
]

-- Each state enters the queue at most once, and there are eleven.
unfoldable pub search_path : WorkItemState → WorkItemState → Exploration
unfolding explore scan walk_back came
search_path from to =
    explore 12 from to (record { visited = from ∷ []; came_from = []; queue = from ∷ [] })

abbrev pub explored : Exploration → Option (List WorkItemState)
explored (path steps) = some steps
explored no_path = none
explored spent = none

unfoldable pub lifecycle_path_to : WorkItemState → WorkItemState → Option (List WorkItemState)
lifecycle_path_to from to =
    if from == to || not (exists (λ s. s == from) advanceable_states)
    then none
    else explored (search_path from to)
