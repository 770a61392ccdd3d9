-- ===== src/Tickets/Next.antt =====
-- src/phase3/ticket-graph.ts: the next ticket, and what it means that there is none.
use mathlib.Core.List.{Memᴰ}
use real_ming.Base.{
  ◌≤◌, String_eq, true, false, if◌then◌else◌, leb, ◌≡◌, refl, sym, ◌∙◌, subst, Option, none, some,
  some-injective, none-ne-some, All-Mem, List, [], ◌∷◌, All, All-weaken, select, select-Mem,
  Mem-select, Bool-cases, inl, inr, arith,
}
use real_ming.Tickets.{ClassifiedTicket, is_ready, insert_by_issue, by_issue, first_of, next_ticket}

abbrev smaller : ClassifiedTicket → Option ClassifiedTicket → ClassifiedTicket
smaller t none = t
smaller t (some u) = if leb t.issue_number u.issue_number then t else u

first_of-insert :
    (t : ClassifiedTicket) (us : List ClassifiedTicket)
    → first_of (insert_by_issue t us) ≡ some (smaller t (first_of us))
first_of-insert t [] = refl
first_of-insert t (u ∷ us) = elim (Bool-cases (leb t.issue_number u.issue_number)) [
  | inl s ↦ rw s refl
  | inr f ↦ rw f refl
]

-- A ticket of the list with the smallest issue number.
abbrev Least : ClassifiedTicket → List ClassifiedTicket → Type 0
Least t ts = Memᴰ t ts × All (λ u. t.issue_number ≤ u.issue_number) ts

smaller-Least :
    (t : ClassifiedTicket) (us : List ClassifiedTicket) (o : Option ClassifiedTicket)
    → ((u : ClassifiedTicket) → o ≡ some u → Least u us)
    → (o ≡ none → us ≡ [])
    → Least (smaller t o) (t ∷ us)
smaller-Least t us none h k = rw (k refl) (Memᴰ.head refl, (omega arith, tt))
smaller-Least t us (some u) h k =
    let (there, below) = h u refl in
    elim (Bool-cases (leb t.issue_number u.issue_number)) [
      | inl s ↦
          let mine : smaller t (some u) ≡ t = rw s refl in
          subst (λ v. Least v (t ∷ us)) (sym mine)
            (
              Memᴰ.head refl,
              (
                omega arith,
                All-weaken (λ v. u.issue_number ≤ v.issue_number)
                    (λ v. t.issue_number ≤ v.issue_number) (λ v b. ground arith) us below,
              ),
            )
      | inr f ↦
          let other : smaller t (some u) ≡ u = rw f refl in
          subst (λ v. Least v (t ∷ us)) (sym other) (Memᴰ.tail there, (ground arith, below))
    ]

by_issue-Least :
    (ts : List ClassifiedTicket)
    → ((t : ClassifiedTicket) → first_of (by_issue ts) ≡ some t → Least t ts)
      × (first_of (by_issue ts) ≡ none → ts ≡ [])
by_issue-Least [] = (λ t e. cc, λ e. refl)
by_issue-Least (t ∷ ts) =
    let (h, k) = by_issue-Least ts in
    (
      λ u e.
          subst (λ v. Least v (t ∷ ts))
            (some-injective _ _ (sym (first_of-insert t (by_issue ts)) ∙ e))
            (smaller-Least t ts (first_of (by_issue ts)) h k),
      λ e. absurd (none-ne-some _ (sym e ∙ first_of-insert t (by_issue ts))),
    )

-- The next ticket is one of the tickets, is ready for an agent, and has the smallest issue number of
-- those that are.
pub next_ticket-least :
    (ts : List ClassifiedTicket) (t : ClassifiedTicket)
    → next_ticket ts ≡ some t
    → Memᴰ t ts
      × ((is_ready t.status ≡ true)
          × ((u : ClassifiedTicket)
              → Memᴰ u ts
              → is_ready u.status ≡ true
              → t.issue_number ≤ u.issue_number))
unfolding next_ticket
next_ticket-least ts t e =
    let (there, below) = (by_issue-Least (select (λ u. is_ready u.status) ts)).0 t e in
    let (here, ready) = select-Mem (λ u. is_ready u.status) ts there in
    (
      here,
      (
        ready,
        λ u m r.
            All-Mem (λ v. t.issue_number ≤ v.issue_number) (select (λ v. is_ready v.status) ts)
              below (Mem-select (λ v. is_ready v.status) ts m r),
      ),
    )

-- Where there is no next ticket, no ticket is ready for an agent.
pub next_ticket-none :
    (ts : List ClassifiedTicket) (t : ClassifiedTicket)
    → next_ticket ts ≡ none
    → Memᴰ t ts
    → is_ready t.status ≡ false
unfolding next_ticket
next_ticket-none ts t e m = elim (Bool-cases (is_ready t.status)) [
  | inr f ↦ f
  | inl r ↦
      let none_ready = (by_issue-Least (select (λ u. is_ready u.status) ts)).1 e in
      elim (subst (λ us. Memᴰ t us) none_ready (Mem-select (λ v. is_ready v.status) ts m r)) [ ]
]
