-- ===== src/Tickets/Ranks.antt =====
-- src/phase3/ticket-graph.ts: the search for a cycle refuses the graphs that have one, and no others. A graph
-- has no cycle if its tickets have ranks such that each blocker is below what it blocks.

use mathlib.Core.Bool.{true≢false as true-ne-false}
use real_ming.Base.{
  ℕ, zero, suc, ◌≤◌, ◌<◌, String, String_eq, Bool, true, false, ◌==◌, if◌then◌else◌, ◌≡◌, ◌↔◌, refl,
  sym, ◌∙◌, ap, subst, none, some, List, [], ◌∷◌, All, All-Mem, All-weaken, All-both, length,
  Bool-cases, Option-cases, inl, inr, eq_test, arith,
}
use real_ming.Tickets.{TicketNode, node_of}
use real_ming.Tickets.Acyclic.{
  Walk, settled, cycle, spent, has, and_then, marked, each, blockers_of, walk, ids_of,
  assert_acyclic, Ordered, assert_acyclic-Ordered,
}
use real_ming.Tickets.Depth.{is_spent, assert_acyclic-is_spent}
use real_ming.Tickets.Waiting.{last_Mem, ids_of-Mem}

abbrev is_cycle : Walk → Bool
is_cycle cycle = true
is_cycle _ = false

and_then-is_cycle :
    (r : Walk) (f : List String → Walk)
    → is_cycle r ≡ false
    → ((s : List String) → is_cycle (f s) ≡ false)
    → is_cycle (and_then r f) ≡ false
and_then-is_cycle (settled s) f e h = h s
and_then-is_cycle cycle f e h = e
and_then-is_cycle spent f e h = refl

each-is_cycle :
    (w : String → List String → Walk) (P : String → Type 0)
    → ((id : String) → P id → (s : List String) → is_cycle (w id s) ≡ false)
    → (bs s : List String) → All P bs
    → is_cycle (each w bs s) ≡ false
each-is_cycle w P h [] s k = refl
each-is_cycle w P h (b ∷ bs) s (p, k) =
    and_then-is_cycle (w b s) (each w bs) (h b p s) (λ u. each-is_cycle w P h bs u k)

outcome : (r : Walk) → is_cycle r ≡ false → is_spent r ≡ false → (s : List String) × (r ≡ settled s)
outcome (settled s) c d = (s, refl)
outcome cycle c d = absurd (true-ne-false c)
outcome spent c d = absurd (true-ne-false d)

-- The rank of a text in an order: how many stand before its first place, and it.
abbrev rank_in : List String → String → ℕ
rank_in [] x = 0
rank_in (y ∷ s) x = if has x s then rank_in s x else if y == x then suc (length s) else 0

rank_in-length : (s : List String) (x : String) → rank_in s x ≤ length s
rank_in-length [] x = omega arith
rank_in-length (y ∷ s) x =
    let below = rank_in-length s x in
    elim (Bool-cases (has x s)) [
      | inl h ↦ rw h (omega (arith, below))
      | inr h ↦ elim (Bool-cases (y == x)) [
        | inl t ↦ rw (h, t) (omega arith)
        | inr f ↦ rw (h, f) (omega arith)
      ]
    ]

module _ (nodes : List TicketNode) where
  -- Each blocker of a ticket is of a lower rank.
  abbrev pub Ranked : (String → ℕ) → Type 0
  Ranked rank = (id : String) → All (λ b. rank b < rank id) (blockers_of nodes id)

  -- On a path to a ticket all others are of higher rank, so none is met again.
  above :
      (rank : String → ℕ) (id : String) (active : List String)
      → All (λ a. rank id < rank a) active
      → has id active ≡ false
  above rank id [] h = refl
  above rank id (a ∷ active) (p, h) = elim (Bool-cases (a == id)) [
    | inl t ↦
        let same : rank a ≡ rank id = ap rank (eq_test _ _ t) in absurd (omega (arith, p, same))
    | inr f ↦ rw f (above rank id active h)
  ]

  lower :
      (rank : String → ℕ) (id b : String) (active : List String)
      → rank b < rank id
      → All (λ a. rank id < rank a) active
      → All (λ a. rank b < rank a) (id ∷ active)
  lower rank id b active l h = (
    l,
    All-weaken (λ a. rank id < rank a) (λ a. rank b < rank a) (λ a m. omega (arith, l, m)) active h,
  )

  walk-is_cycle :
      (rank : String → ℕ)
      → Ranked rank
      → (fuel : ℕ) (active : List String) (id : String) → All (λ a. rank id < rank a) active
      → (s : List String) → is_cycle (walk nodes fuel active id s) ≡ false
  unfolding walk
  walk-is_cycle rank ranked zero active id h s = refl
  walk-is_cycle rank ranked (suc fuel) active id h s = elim (Bool-cases (has id s)) [
    | inl t ↦ rw t refl
    | inr f ↦
        rw (f, above rank id active h)
          (and_then-is_cycle (each (walk nodes fuel (id ∷ active)) (blockers_of nodes id) s)
            (marked id)
            (each-is_cycle (walk nodes fuel (id ∷ active)) (λ b. rank b < rank id)
              (λ b l u.
                walk-is_cycle rank ranked fuel (id ∷ active) b (lower rank id b active l h) u)
              (blockers_of nodes id) s (ranked id))
            (λ u. refl))
  ]

  trivially : (P : String → Type 0) (ids : List String) → ((id : String) → P id) → All P ids
  trivially P [] h = tt
  trivially P (id ∷ ids) h = (h id, trivially P ids h)

  accepted :
      (rank : String → ℕ) → Ranked rank → (s : List String) × (assert_acyclic nodes ≡ settled s)
  unfolding assert_acyclic
  accepted rank ranked =
      outcome (assert_acyclic nodes)
        (each-is_cycle (walk nodes (suc (length nodes)) []) (λ id. Unit)
          (λ id u s. walk-is_cycle rank ranked (suc (length nodes)) [] id tt s) (ids_of nodes) []
          (trivially (λ id. Unit) (ids_of nodes) (λ id. tt)))
        (assert_acyclic-is_spent nodes)

  below_has :
      (s : List String) (x : String)
      → Ordered nodes s
      → has x s ≡ true
      → All (λ b. has b s ≡ true) (blockers_of nodes x)
  below_has [] x o h = absurd (true-ne-false (sym h))
  below_has (y ∷ s) x (below, o) h =
      let later = λ (bs : List String) (k : All (λ b. has b s ≡ true) bs).
        All-weaken (λ b. has b s ≡ true) (λ b. has b (y ∷ s) ≡ true) (λ b m. ground arith) bs k in
      elim (Bool-cases (y == x)) [
        | inl t ↦
            later (blockers_of nodes x)
              (subst (λ z. All (λ b. has b s ≡ true) (blockers_of nodes z)) (eq_test _ _ t) below)
        | inr f ↦ later (blockers_of nodes x) (below_has s x o (rw f at h))
      ]

  order_ranks :
      (s : List String) (x : String)
      → Ordered nodes s
      → has x s ≡ true
      → All (λ b. rank_in s b < rank_in s x) (blockers_of nodes x)
  order_ranks [] x o h = absurd (true-ne-false (sym h))
  order_ranks (y ∷ s) x (below, o) h = elim (Bool-cases (has x s)) [
    | inl here ↦
        All-both (λ b. has b s ≡ true) (λ b. rank_in s b < rank_in s x)
          (λ b. rank_in (y ∷ s) b < rank_in (y ∷ s) x) (λ b k l. rw (k, here) l)
          (blockers_of nodes x) (below_has s x o here) (order_ranks s x o here)
    | inr new ↦ elim (Bool-cases (y == x)) [
      | inr f ↦ absurd (true-ne-false (sym h ∙ rw (f, new) refl))
      | inl t ↦
          All-weaken (λ b. has b s ≡ true) (λ b. rank_in (y ∷ s) b < rank_in (y ∷ s) x)
            (λ b k. let bound = rank_in-length s b in rw (k, new, t) (omega (arith, bound)))
            (blockers_of nodes x)
            (subst (λ z. All (λ b. has b s ≡ true) (blockers_of nodes z)) (eq_test _ _ t) below)
    ]
  ]

  settled_ranks : (s : List String) → assert_acyclic nodes ≡ settled s → Ranked (rank_in s)
  settled_ranks s e id =
      let (o, all_settled) = assert_acyclic-Ordered nodes s e in
      elim (Option-cases (node_of nodes id)) [
        | inl n ↦
            subst (All (λ b. rank_in s b < rank_in s id))
              (sym (ap (λ r. elim r [ none ↦ [] | some k ↦ k.blocked_by ]) n)) tt
        | inr (m, found) ↦
            let (there, t) = last_Mem (λ n. n.id == id) nodes m found in
            let here =
              All-Mem (λ z. has z s ≡ true) (ids_of nodes) all_settled (ids_of-Mem nodes there) in
            order_ranks s id o (subst (λ z. has z s ≡ true) (eq_test _ _ t) here)
      ]

  -- The search accepts a graph if and only if its tickets can be ranked so that every blocker is of a
  -- lower rank than the ticket it blocks.
  pub assert_acyclic-Ranked :
      ((s : List String) × (assert_acyclic nodes ≡ settled s)) ↔ ((rank : String → ℕ) × Ranked rank)
  assert_acyclic-Ranked = (
    λ p. let (s, e) = p in (rank_in s, settled_ranks s e),
    λ p. let (rank, ranked) = p in accepted rank ranked,
  )
