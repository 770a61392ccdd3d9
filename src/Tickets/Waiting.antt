-- ===== src/Tickets/Waiting.antt =====
-- src/phase3/ticket-graph.ts: what a ticket that is not completed waits for, and where the waiting ends.
use mathlib.Core.List.{Memᴰ}
use mathlib.Core.List.Memᴰ
use mathlib.Core.Bool.{true≢false as true-ne-false}
use real_ming.Base.{
  String, String_eq, Bool, true, false, not, ◌==◌, ◌≡◌, ◌⊎◌, refl, sym, ◌∙◌, ap, subst, none, some,
  some-injective, none-ne-some, List, [], ◌∷◌, All, All-Mem, all, select, exists, exists_witness,
  exists_of_Mem, Bool-cases, Option-cases, inl, inr, eq_test, test_self,
}
use real_ming.Tickets.{
  TicketNode, LiveIssueState, IssueLifecycleState, TriageLabel, TicketStatus, ClassifiedTicket,
  last_with, node_of, is_closed, is_completed, is_ready, is_human, state_of, label_of,
  is_open_blocker, status_in, status_of, or_blocked, is_not_completed, ticket_of, tickets,
}
use real_ming.Tickets.Acyclic.{ids_of, has, blockers_of, Ordered}

-- `byId.has(id)`
abbrev pub is_known : List TicketNode → String → Bool
is_known nodes id = exists (λ n. n.id == id) nodes

-- Each blocker of each ticket is a ticket, as `parseTicketGraph` checks.
abbrev pub blockers_known : List TicketNode → Bool
blockers_known nodes = all (λ n. all (is_known nodes) n.blocked_by) nodes

module _ {A : Type 0} (p : A → Bool) where
  pub last_found : (xs : List A) → exists p xs ≡ true → (a : A) × (last_with p xs ≡ some a)
  last_found [] e = absurd (true-ne-false (sym e))
  last_found (x ∷ xs) e = elim (Option-cases (last_with p xs)) [
    | inr (a, l) ↦ (a, rw l refl)
    | inl n ↦ elim (Bool-cases (p x)) [
      | inl s ↦ (x, rw (n, s) refl)
      | inr f ↦ let (a, l) = last_found xs (rw f at e) in absurd (none-ne-some _ (sym n ∙ l))
    ]
  ]

  pub last_Mem : (xs : List A) (a : A) → last_with p xs ≡ some a → Memᴰ a xs × (p a ≡ true)
  last_Mem [] a e = absurd (none-ne-some _ e)
  last_Mem (x ∷ xs) a e = elim (Option-cases (last_with p xs)) [
    | inr (b, l) ↦
        let same : b ≡ a = some-injective _ _ (rw l at e) in
        let (m, t) = last_Mem xs b l in
        subst (λ c. Memᴰ c (x ∷ xs) × (p c ≡ true)) same (Memᴰ.tail m, t)
    | inl n ↦ elim (Bool-cases (p x)) [
      | inl s ↦
          let same : x ≡ a = some-injective _ _ (rw (n, s) at e) in
          subst (λ c. Memᴰ c (x ∷ xs) × (p c ≡ true)) same (Memᴰ.head refl, s)
      | inr f ↦ absurd (none-ne-some _ (rw (n, f) at e))
    ]
  ]

module _ (nodes : List TicketNode) (live_issues : List LiveIssueState) where
  abbrev pub status_at : TicketNode → TicketStatus
  status_at m =
      status_in nodes live_issues (state_of nodes live_issues m) (label_of nodes live_issues m)
        m.blocked_by

  -- Some ticket is ready for a human and has no open blocker.
  abbrev Human : Type 0
  Human =
      (y : String) × ((m : TicketNode) × ((node_of nodes y ≡ some m)
          × ((is_human (status_at m) ≡ true)
              × (exists (is_open_blocker nodes live_issues) m.blocked_by ≡ false))))

  -- A ticket that is not completed and not for an agent to work on is for a human, or has an open blocker.
  waits_for :
      (s : IssueLifecycleState) (l : TriageLabel) (bs : List String)
      → is_completed (status_in nodes live_issues s l bs) ≡ false
      → is_ready (status_in nodes live_issues s l bs) ≡ false
      → ((is_human (status_in nodes live_issues s l bs) ≡ true)
          × (exists (is_open_blocker nodes live_issues) bs ≡ false))
        ⊎ (exists (is_open_blocker nodes live_issues) bs ≡ true)
  waits_for IssueLifecycleState.closed l bs c r = absurd (true-ne-false c)
  waits_for IssueLifecycleState.still_open TriageLabel.ready_for_human bs c r =
      elim (Bool-cases (exists (is_open_blocker nodes live_issues) bs)) [
        | inl s ↦ inr s
        | inr f ↦ inl (refl, f)
      ]
  waits_for IssueLifecycleState.still_open TriageLabel.ready_for_agent bs c r =
      elim (Bool-cases (exists (is_open_blocker nodes live_issues) bs)) [
        | inl s ↦ inr s
        | inr f ↦ absurd (true-ne-false (rw f at r))
      ]

  open_left :
      (s : IssueLifecycleState) (l : TriageLabel) (bs : List String)
      → not (is_closed s) ≡ true
      → is_completed (status_in nodes live_issues s l bs) ≡ false
  open_left IssueLifecycleState.closed l bs h = absurd (true-ne-false (sym h))
  open_left IssueLifecycleState.still_open TriageLabel.ready_for_human bs h = refl
  open_left IssueLifecycleState.still_open TriageLabel.ready_for_agent bs h =
      elim (Bool-cases (exists (is_open_blocker nodes live_issues) bs)) [
        | inl s ↦ rw s refl
        | inr f ↦ rw f refl
      ]

  not_completed :
      (s : IssueLifecycleState) (l : TriageLabel) (bs : List String)
      → not (is_completed (status_in nodes live_issues s l bs)) ≡ not (is_closed s)
  not_completed IssueLifecycleState.closed l bs = refl
  not_completed IssueLifecycleState.still_open l bs =
      ap not (open_left IssueLifecycleState.still_open l bs refl)

  still_open_blocker :
      (b : String) (k : TicketNode)
      → node_of nodes b ≡ some k
      → is_open_blocker nodes live_issues b ≡ true
      → is_completed (status_at k) ≡ false
  unfolding is_open_blocker
  still_open_blocker b k e h =
      open_left (state_of nodes live_issues k) (label_of nodes live_issues k) k.blocked_by
        (rw (is_open_blocker, e) at h)

  module _
      (no_ready : (y : String) (m : TicketNode)
        → node_of nodes y ≡ some m
        → is_ready (status_at m) ≡ false)
      (known : (y b : String) (m : TicketNode)
        → node_of nodes y ≡ some m
        → Memᴰ b m.blocked_by
        → (k : TicketNode) × (node_of nodes b ≡ some k)) where
    -- Below a ticket that is not completed is one for a human, by the order of the graph.
    pub human_below :
        (s : List String) (x : String) (m : TicketNode)
        → Ordered nodes s
        → has x s ≡ true
        → node_of nodes x ≡ some m
        → is_completed (status_at m) ≡ false
        → Human
    human_below [] x m o h e c = absurd (true-ne-false (sym h))
    human_below (y ∷ s) x m (below, o) h e c = elim (Bool-cases (y == x)) [
      | inr f ↦ human_below s x m o (rw f at h) e c
      | inl t ↦
          let same : y ≡ x = eq_test _ _ t in
          let its : blockers_of nodes y ≡ m.blocked_by =
            ap (blockers_of nodes) same
            ∙ ap (λ o. elim o [ none ↦ [] | some n ↦ n.blocked_by ]) e in
          let below_x = subst (λ bs. All (λ b. has b s ≡ true) bs) its below in
          elim (waits_for (state_of nodes live_issues m) (label_of nodes live_issues m) m.blocked_by
            c (no_ready x m e)) [
              | inl w ↦ (x, (m, (e, w)))
              | inr ex ↦
                  let (b, (there, open_there)) =
                    exists_witness (is_open_blocker nodes live_issues) m.blocked_by ex in
                  let (k, found) = known x b m e there in
                  human_below s b k o (All-Mem (λ z. has z s ≡ true) m.blocked_by below_x there)
                    found (still_open_blocker b k found open_there)
            ]
    ]

  -- `openBlockers` and `statusOf` agree on which blockers are open.
  open_is_left :
      (b : String)
      → is_not_completed nodes live_issues (status_of nodes live_issues b)
        ≡ is_open_blocker nodes live_issues b
  unfolding status_of is_open_blocker
  open_is_left b = elim (Option-cases (node_of nodes b)) [
    | inl n ↦
        ap
          (λ o.
            is_not_completed nodes live_issues
              (elim o [ none ↦ none | some k ↦ some (status_at k) ]))
          n
        ∙ sym (
            ap
              (λ o. elim o [
                | none ↦ true
                | some k ↦ not (is_closed (state_of nodes live_issues k))
              ])
              n)
    | inr (k, e) ↦
        ap
          (λ o.
            is_not_completed nodes live_issues
              (elim o [ none ↦ none | some k ↦ some (status_at k) ]))
          e
        ∙ not_completed (state_of nodes live_issues k) (label_of nodes live_issues k) k.blocked_by
        ∙ sym (
            ap
              (λ o. elim o [
                | none ↦ true
                | some k ↦ not (is_closed (state_of nodes live_issues k))
              ])
              e)
  ]

  none_left :
      (bs : List String)
      → exists (is_open_blocker nodes live_issues) bs ≡ false
      → select (λ b. is_not_completed nodes live_issues (status_of nodes live_issues b)) bs ≡ []
  none_left [] h = refl
  none_left (b ∷ bs) h = elim (Bool-cases (is_open_blocker nodes live_issues b)) [
    | inl t ↦ absurd (true-ne-false (rw t at h))
    | inr f ↦ rw (open_is_left b, f) (none_left bs (rw f at h))
  ]

  status_known :
      (n m : TicketNode)
      → node_of nodes n.id ≡ some m
      → (ticket_of nodes live_issues n).status ≡ status_at m
  unfolding status_of
  status_known n m e =
      ap (λ o. or_blocked nodes live_issues (elim o [ none ↦ none | some k ↦ some (status_at k) ]))
        e

  pub ticket_at :
      (y : String) (m : TicketNode)
      → node_of nodes y ≡ some m
      → Memᴰ (ticket_of nodes live_issues m) (tickets nodes live_issues)
        × (((ticket_of nodes live_issues m).status ≡ status_at m)
            × (exists (is_open_blocker nodes live_issues) m.blocked_by ≡ false
                → (ticket_of nodes live_issues m).open_blockers ≡ []))
  unfolding tickets status_of
  ticket_at y m e =
      let (here, t) = last_Mem (λ n. n.id == y) nodes m e in
      let same : m.id ≡ y = eq_test _ _ t in
      (
        Memᴰ.map (ticket_of nodes live_issues) here,
        (
          status_known m m (subst (λ z. node_of nodes z ≡ some m) (sym same) e),
          none_left m.blocked_by,
        ),
      )

  -- A ticket of the list that is not completed is the one that its id finds, or has its status.
  pub found_ticket :
      (t : ClassifiedTicket)
      → Memᴰ t (tickets nodes live_issues)
      → (n : TicketNode) × (Memᴰ n nodes
          × ((m : TicketNode) × ((node_of nodes n.id ≡ some m) × (t.status ≡ status_at m))))
  unfolding tickets status_of
  found_ticket t here =
      let (n, there, same) = Memᴰ.of_map (ticket_of nodes live_issues) nodes here in
      let (m, found) =
        last_found (λ k. k.id == n.id) nodes
          (exists_of_Mem (λ k. k.id == n.id) nodes there (test_self n.id)) in
      (n, (there, (m, (found, ap (λ u. u.status) (sym same) ∙ status_known n m found))))

pub ids_of-Mem :
    (nodes : List TicketNode) {n : TicketNode} → Memᴰ n nodes → Memᴰ n.id (ids_of nodes)
ids_of-Mem [] m = elim m [ ]
ids_of-Mem (k ∷ ks) m = elim (Memᴰ.cases_cons m) [
  | inl e ↦ Memᴰ.head (ap (λ z. z.id) e)
  | inr later ↦ Memᴰ.tail (ids_of-Mem ks later)
]
