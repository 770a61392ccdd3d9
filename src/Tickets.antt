-- ===== src/Tickets.antt =====
-- src/phase3/ticket-graph.ts: the status of each ticket of a graph, and the ticket to work on next. A `Map`
-- made from a list has for each key the last entry with it.
pub mod Acyclic
pub mod Depth
pub mod Next
pub mod Progress
pub mod Waiting
pub mod Ranks
use real_ming.Base.{
  ℕ, String, String_eq, ℕ_eq, Bool, true, false, not, ◌&&◌, ◌||◌, ◌==◌, if◌then◌else◌, leb, Option,
  none, some, List, [], ◌∷◌, exists, select, map,
}

pub data TriageLabel : Type 0 where
  ready_for_agent ready_for_human : TriageLabel

pub data IssueLifecycleState : Type 0 where
  still_open closed : IssueLifecycleState

pub data TicketStatus : Type 0 where
  completed ready_for_agent ready_for_human blocked : TicketStatus

pub record TicketNode : Type 0 where
  pub id : String
  pub issue_number : ℕ
  pub title : String
  pub state : IssueLifecycleState
  pub triage_label : TriageLabel
  pub blocked_by : List String
  pub url : String

pub record LiveIssueState : Type 0 where
  pub issue_number : ℕ
  pub state : IssueLifecycleState
  pub triage_label : Option TriageLabel

-- Without `humanGates`, which nothing here reads.
pub record ClassifiedTicket : Type 0 where
  pub id : String
  pub issue_number : ℕ
  pub title : String
  pub triage_label : TriageLabel
  pub status : TicketStatus
  pub open_blockers : List String
  pub url : String

-- The entry of a `Map` for a key.
abbrev or_earlier {ℓ} : {A : Type ℓ} → Option A → Option A → Option A
or_earlier none earlier = earlier
or_earlier (some later) earlier = some later

abbrev pub last_with {ℓ} : {A : Type ℓ} → (A → Bool) → List A → Option A
last_with p [] = none
last_with p (x ∷ xs) = or_earlier (last_with p xs) (if p x then some x else none)

abbrev pub is_closed : IssueLifecycleState → Bool
is_closed IssueLifecycleState.closed = true
is_closed IssueLifecycleState.still_open = false

abbrev pub is_completed : TicketStatus → Bool
is_completed TicketStatus.completed = true
is_completed _ = false

abbrev pub is_ready : TicketStatus → Bool
is_ready TicketStatus.ready_for_agent = true
is_ready _ = false

abbrev pub is_human : TicketStatus → Bool
is_human TicketStatus.ready_for_human = true
is_human _ = false

abbrev live_state : IssueLifecycleState → Option LiveIssueState → IssueLifecycleState
live_state s none = s
live_state s (some live) = live.state

abbrev live_label : TriageLabel → Option LiveIssueState → TriageLabel
live_label l none = l
live_label l (some live) = elim live.triage_label [ none ↦ l | some m ↦ m ]

-- `byId.get`, and the node whose state and label `effective` has for an id.
abbrev pub node_of : List TicketNode → String → Option TicketNode
node_of nodes id = last_with (λ n. n.id == id) nodes

module _ (nodes : List TicketNode) (live_issues : List LiveIssueState) where
  -- `liveByIssueNumber.get`
  abbrev live_of : TicketNode → Option LiveIssueState
  live_of node = last_with (λ i. i.issue_number == node.issue_number) live_issues

  abbrev pub state_of : TicketNode → IssueLifecycleState
  state_of node = live_state node.state (live_of node)

  abbrev pub label_of : TicketNode → TriageLabel
  label_of node = live_label node.triage_label (live_of node)

  -- `effective.get(blocker)?.state !== "closed"`
  unfoldable pub is_open_blocker : String → Bool
  is_open_blocker id = elim (node_of nodes id) [
    | none ↦ true
    | some n ↦ not (is_closed (state_of n))
  ]

  -- `statusOf`, of the node that `effective` has for its id.
  abbrev pub status_in : IssueLifecycleState → TriageLabel → List String → TicketStatus
  status_in IssueLifecycleState.closed label blockers = TicketStatus.completed
  status_in IssueLifecycleState.still_open TriageLabel.ready_for_human blockers =
      TicketStatus.ready_for_human
  status_in IssueLifecycleState.still_open TriageLabel.ready_for_agent blockers =
      if exists is_open_blocker blockers then TicketStatus.blocked else TicketStatus.ready_for_agent

  -- `statuses.get(id)`
  unfoldable pub status_of : String → Option TicketStatus
  status_of id = elim (node_of nodes id) [
    | none ↦ none
    | some n ↦ some (status_in (state_of n) (label_of n) n.blocked_by)
  ]

  abbrev pub or_blocked : Option TicketStatus → TicketStatus
  or_blocked none = TicketStatus.blocked
  or_blocked (some s) = s

  abbrev pub is_not_completed : Option TicketStatus → Bool
  is_not_completed none = true
  is_not_completed (some s) = not (is_completed s)

  abbrev shown_label : TicketNode → TriageLabel
  shown_label node = elim (node_of nodes node.id) [ none ↦ node.triage_label | some n ↦ label_of n ]

  abbrev pub ticket_of : TicketNode → ClassifiedTicket
  ticket_of node = record {
    id = node.id;
    issue_number = node.issue_number;
    title = node.title;
    triage_label = shown_label node;
    status = or_blocked (status_of node.id);
    open_blockers = select (λ b. is_not_completed (status_of b)) node.blocked_by;
    url = node.url;
  }

  unfoldable pub tickets : List ClassifiedTicket
  tickets = map ticket_of nodes

-- `sort((left, right) => left.issueNumber - right.issueNumber)`
abbrev pub insert_by_issue : ClassifiedTicket → List ClassifiedTicket → List ClassifiedTicket
insert_by_issue t [] = t ∷ []
insert_by_issue t (u ∷ us) =
    if leb t.issue_number u.issue_number then t ∷ u ∷ us else u ∷ insert_by_issue t us

abbrev pub by_issue : List ClassifiedTicket → List ClassifiedTicket
by_issue [] = []
by_issue (t ∷ ts) = insert_by_issue t (by_issue ts)

abbrev pub first_of : List ClassifiedTicket → Option ClassifiedTicket
first_of [] = none
first_of (t ∷ ts) = some t

unfoldable pub next_ticket : List ClassifiedTicket → Option ClassifiedTicket
next_ticket ts = first_of (by_issue (select (λ t. is_ready t.status) ts))

abbrev is_none : Option ClassifiedTicket → Bool
is_none none = true
is_none (some t) = false

unfoldable pub only_human_work_remains : List ClassifiedTicket → Bool
only_human_work_remains ts =
    is_none (next_ticket ts) && exists (λ t. not (is_completed t.status)) ts
