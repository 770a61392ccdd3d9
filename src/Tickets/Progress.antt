-- ===== src/Tickets/Progress.antt =====
-- src/phase3/ticket-graph.ts: a graph without a cycle in which work is left always has somebody to work.
use mathlib.Core.List.{Memᴰ}
use mathlib.Core.Bool.{true≢false as true-ne-false}
use real_ming.Base.{
  String, String_eq, Bool, true, false, not, ◌==◌, ◌≡◌, refl, sym, ◌∙◌, ap, none, some, List, [],
  All-Mem, all, all_Mem, exists, exists_witness, Option-cases, inl, inr,
}
use real_ming.Tickets.{
  TicketNode, LiveIssueState, ClassifiedTicket, node_of, is_completed, is_ready, is_human, tickets,
  next_ticket, only_human_work_remains,
}
use real_ming.Tickets.Next.{next_ticket-none}
use real_ming.Tickets.Acyclic.{settled, has, ids_of, assert_acyclic, assert_acyclic-Ordered}
use real_ming.Tickets.Waiting.{
  ids_of-Mem, is_known, blockers_known, last_found, last_Mem, status_at, human_below, ticket_at,
  found_ticket,
}

untrue : (b : Bool) → not b ≡ true → b ≡ false
untrue true e = absurd (true-ne-false (sym e))
untrue false e = refl

only_human :
    (ts : List ClassifiedTicket)
    → only_human_work_remains ts ≡ true
    → (next_ticket ts ≡ none) × (exists (λ t. not (is_completed t.status)) ts ≡ true)
unfolding only_human_work_remains
only_human ts h = elim (Option-cases (next_ticket ts)) [
  | inl n ↦ (n, rw n at h)
  | inr (t, e) ↦ absurd (true-ne-false (sym (rw e at h)))
]

no_ready :
    (nodes : List TicketNode) (live_issues : List LiveIssueState)
    → next_ticket (tickets nodes live_issues) ≡ none
    → (y : String) (m : TicketNode) → node_of nodes y ≡ some m
    → is_ready (status_at nodes live_issues m) ≡ false
no_ready nodes live_issues e y m found =
    let (here, (its, _)) = ticket_at nodes live_issues y m found in
    ap is_ready (sym its) ∙ next_ticket-none (tickets nodes live_issues) _ e here

blockers_found :
    (nodes : List TicketNode)
    → blockers_known nodes ≡ true
    → (y b : String) (m : TicketNode) → node_of nodes y ≡ some m
    → Memᴰ b m.blocked_by
    → (k : TicketNode) × (node_of nodes b ≡ some k)
blockers_found nodes known y b m found there =
    let (here, t) = last_Mem (λ n. n.id == y) nodes m found in
    last_found (λ n. n.id == b) nodes
      (all_Mem (is_known nodes) m.blocked_by
        (all_Mem (λ n. all (is_known nodes) n.blocked_by) nodes known here) there)

-- A graph whose blockers are all known and which has no cycle cannot get stuck: if tickets are left and
-- none is ready for an agent, then one of the tickets is ready for a human and has no open blockers.
pub only_human_work_remains-has_human :
    (nodes : List TicketNode) (live_issues : List LiveIssueState) (s : List String)
    → assert_acyclic nodes ≡ settled s
    → blockers_known nodes ≡ true
    → only_human_work_remains (tickets nodes live_issues) ≡ true
    → (t : ClassifiedTicket) × (Memᴰ t (tickets nodes live_issues)
        × ((is_human t.status ≡ true) × (t.open_blockers ≡ [])))
unfolding only_human_work_remains
only_human_work_remains-has_human nodes live_issues s acyclic known h =
    let (none_next, left) = only_human (tickets nodes live_issues) h in
    let (o, all_settled) = assert_acyclic-Ordered nodes s acyclic in
    let (t, (here, not_done)) =
      exists_witness (λ t. not (is_completed t.status)) (tickets nodes live_issues) left in
    let (n, (there, (m, (found, same)))) = found_ticket nodes live_issues t here in
    let (y, (k, (at_y, (human, unblocked)))) =
      human_below nodes live_issues (no_ready nodes live_issues none_next)
        (blockers_found nodes known) s n.id m o
        (All-Mem (λ id. has id s ≡ true) (ids_of nodes) all_settled (ids_of-Mem nodes there)) found
        (ap is_completed (sym same) ∙ untrue _ not_done) in
    let (in_tickets, (its, nothing_open)) = ticket_at nodes live_issues y k at_y in
    (_, (in_tickets, (ap is_human its ∙ human, nothing_open unblocked)))
