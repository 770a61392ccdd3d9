-- ===== src/Examples/Graphs.antt =====
-- The theorems on the ticket graph, at a graph whose only way on is a ticket for a human.
use real_ming.Base.{◌≤◌, some, ◌↔◌, ◌≡◌, refl, true, false, none, List, [], ◌∷◌, String, ℕ}
use mathlib.Core.List.{Memᴰ}
use real_ming.Tickets.Next.{next_ticket-least}
use real_ming.Tickets.{
  is_ready, ticket_of, ClassifiedTicket, TriageLabel, IssueLifecycleState, TicketNode,
  LiveIssueState, is_human, tickets, is_open_blocker, status_of, next_ticket,
  only_human_work_remains,
}
use real_ming.Tickets.Acyclic.{settled, cycle, walk, assert_acyclic}
use real_ming.Tickets.Ranks.{Ranked, assert_acyclic-Ranked}
use real_ming.Tickets.Depth.{is_spent, assert_acyclic-is_spent}
use real_ming.Tickets.Progress.{only_human_work_remains-has_human}

abbrev node : String → ℕ → TriageLabel → List String → TicketNode
node id number label blockers = record {
  id = id;
  issue_number = number;
  title = "A ticket";
  state = IssueLifecycleState.still_open;
  triage_label = label;
  blocked_by = blockers;
  url = "https://example.org";
}

-- A ticket for a human, two for agents that wait for it in turn, and one that is closed by now.
abbrev graph : List TicketNode
graph =
    node "RM-03" 13 TriageLabel.ready_for_agent ("RM-02" ∷ "RM-04" ∷ [])
    ∷ node "RM-02" 12 TriageLabel.ready_for_agent ("RM-01" ∷ [])
    ∷ node "RM-01" 11 TriageLabel.ready_for_human []
    ∷ node "RM-04" 14 TriageLabel.ready_for_agent []
    ∷ []

abbrev live : List LiveIssueState
live = record { issue_number = 14; state = IssueLifecycleState.closed; triage_label = none } ∷ []

abbrev ring : List TicketNode
ring =
    node "RM-01" 11 TriageLabel.ready_for_agent ("RM-02" ∷ [])
    ∷ node "RM-02" 12 TriageLabel.ready_for_agent ("RM-01" ∷ [])
    ∷ []

graph-settled : assert_acyclic graph ≡ settled ("RM-03" ∷ "RM-04" ∷ "RM-02" ∷ "RM-01" ∷ [])
unfolding assert_acyclic walk
graph-settled = refl

ring-cycle : assert_acyclic ring ≡ cycle
unfolding assert_acyclic walk
ring-cycle = refl

only_human_left : only_human_work_remains (tickets graph live) ≡ true
unfolding only_human_work_remains next_ticket tickets is_open_blocker status_of
only_human_left = refl

only_human_work_remains-has_human_example :
    (t : ClassifiedTicket) × (Memᴰ t (tickets graph live)
      × ((is_human t.status ≡ true) × (t.open_blockers ≡ [])))
only_human_work_remains-has_human_example =
    only_human_work_remains-has_human graph live ("RM-03" ∷ "RM-04" ∷ "RM-02" ∷ "RM-01" ∷ [])
      graph-settled refl only_human_left

assert_acyclic-is_spent_example : is_spent (assert_acyclic ring) ≡ false
assert_acyclic-is_spent_example = assert_acyclic-is_spent ring

assert_acyclic-Ranked_example :
    ((s : List String) × (assert_acyclic graph ≡ settled s))
    ↔ ((rank : String → ℕ) × Ranked graph rank)
assert_acyclic-Ranked_example = assert_acyclic-Ranked graph

-- Two tickets that an agent may work on.
abbrev open_work : List TicketNode
open_work =
    node "RM-02" 12 TriageLabel.ready_for_agent []
    ∷ node "RM-01" 11 TriageLabel.ready_for_agent []
    ∷ []

abbrev first_ticket : ClassifiedTicket
first_ticket = ticket_of open_work [] (node "RM-01" 11 TriageLabel.ready_for_agent [])

first_is_next : next_ticket (tickets open_work []) ≡ some first_ticket
unfolding next_ticket tickets is_open_blocker status_of
first_is_next = refl

next_ticket-least_example :
    Memᴰ first_ticket (tickets open_work [])
    × ((is_ready first_ticket.status ≡ true)
        × ((u : ClassifiedTicket)
            → Memᴰ u (tickets open_work [])
            → is_ready u.status ≡ true
            → first_ticket.issue_number ≤ u.issue_number))
next_ticket-least_example = next_ticket-least (tickets open_work []) first_ticket first_is_next
