-- ===== src/Tickets/Acyclic.antt =====
-- src/phase3/ticket-graph.ts: the search for a dependency cycle. The depth of its recursion is bounded by
-- fuel, one unit for each node and one more: each call of `walk` on the stack is for another node.
use real_ming.Base.{
  ℕ, zero, suc, String, String_eq, Bool, true, ◌==◌, if◌then◌else◌, ◌≡◌, refl, ap, subst, none,
  some, List, [], ◌∷◌, All, exists, length, Bool-cases, inl, inr, test_self, arith,
}
use real_ming.Tickets.{TicketNode, node_of}

pub data Walk : Type 0 where
  settled : List String → Walk
  cycle : Walk
  spent : Walk

abbrev pub has : String → List String → Bool
has id ids = exists (λ x. x == id) ids

abbrev pub and_then : Walk → (List String → Walk) → Walk
and_then (settled s) f = f s
and_then cycle f = cycle
and_then spent f = spent

abbrev pub marked : String → List String → Walk
marked id s = settled (id ∷ s)

abbrev pub each : (String → List String → Walk) → List String → List String → Walk
each walk [] s = settled s
each walk (b ∷ bs) s = and_then (walk b s) (each walk bs)

abbrev pub ids_of : List TicketNode → List String
ids_of [] = []
ids_of (n ∷ ns) = n.id ∷ ids_of ns

settled-injective : (s t : List String) → settled s ≡ settled t → s ≡ t
settled-injective s t e = ap (λ r. elim r [ settled u ↦ u | _ ↦ [] ]) e

cycle-ne-settled : (t : List String) → cycle ≡ settled t → ⊥
cycle-ne-settled t e = cc

and_then-settled :
    (r : Walk) (f : List String → Walk) (t : List String)
    → and_then r f ≡ settled t
    → (u : List String) × ((r ≡ settled u) × (f u ≡ settled t))
and_then-settled (settled u) f t e = (u, (refl, e))
and_then-settled cycle f t e = cc
and_then-settled spent f t e = cc

module _ (nodes : List TicketNode) where
  abbrev pub blockers_of : String → List String
  blockers_of id = elim (node_of nodes id) [ none ↦ [] | some n ↦ n.blocked_by ]

  -- `walk`: `active` is the path to here, `s` what is settled so far, the latest first.
  unfoldable pub walk : ℕ → List String → String → List String → Walk
  walk zero active id s = spent
  walk (suc fuel) active id s =
      let deeper = and_then (each (walk fuel (id ∷ active)) (blockers_of id) s) (marked id) in
      if has id s then settled s else if has id active then cycle else deeper

  unfoldable pub assert_acyclic : Walk
  assert_acyclic = each (walk (suc (length nodes)) []) (ids_of nodes) []

  -- Each settled ticket has its blockers settled before it.
  abbrev pub Ordered : List String → Type 0
  Ordered [] = Unit
  Ordered (x ∷ s) = All (λ b. has b s ≡ true) (blockers_of x) × Ordered s

  -- What is settled stays so, in an order that respects the blockers.
  record Grows (s t : List String) : Type 0 where
    ordered : Ordered t
    keeps : (x : String) → has x s ≡ true → has x t ≡ true

  Sound : (String → List String → Walk) → Type 0
  Sound w =
      (id : String) (s t : List String)
      → Ordered s
      → w id s ≡ settled t
      → Grows s t × (has id t ≡ true)

  each-Sound :
      (w : String → List String → Walk)
      → Sound w
      → (bs s t : List String) → Ordered s
      → each w bs s ≡ settled t
      → Grows s t × All (λ b. has b t ≡ true) bs
  unfolding Sound
  each-Sound w sound [] s t o e =
      let same = settled-injective s t e in
      (
        record {
          ordered = subst Ordered same o;
          keeps = λ x h. subst (λ u. has x u ≡ true) same h;
        },
        tt,
      )
  each-Sound w sound (b ∷ bs) s t o e =
      let (u, (first, rest)) = and_then-settled (w b s) (each w bs) t e in
      let (g, here) = sound b s u o first in
      let (h, all_here) = each-Sound w sound bs u t g.ordered rest in
      (
        record { ordered = h.ordered; keeps = λ x k. h.keeps x (g.keeps x k) },
        (h.keeps b here, all_here),
      )

  entered :
      (id : String) (s u t : List String)
      → Grows s u
      → All (λ b. has b u ≡ true) (blockers_of id)
      → marked id u ≡ settled t
      → Grows s t × (has id t ≡ true)
  entered id s u t g below e =
      subst (λ v. Grows s v × (has id v ≡ true)) (settled-injective (id ∷ u) t e)
        (
          record {
            ordered = (below, g.ordered);
            keeps = λ x h. let k : has x u ≡ true = g.keeps x h in ground arith;
          },
          rw (test_self id) refl,
        )

  walk-Sound : (fuel : ℕ) (active : List String) → Sound (walk fuel active)
  unfolding walk Sound
  walk-Sound zero active id s t o e = cc
  walk-Sound (suc fuel) active id s t o e = elim (Bool-cases (has id s)) [
    | inl h ↦
        let same = settled-injective s t (rw h at e) in
        subst (λ u. Grows s u × (has id u ≡ true)) same
          (record { ordered = o; keeps = λ x k. k }, h)
    | inr h ↦ elim (Bool-cases (has id active)) [
      | inl a ↦ absurd (cycle-ne-settled t (rw (h, a) at e))
      | inr a ↦
          let (u, (below, last_step)) =
            and_then-settled (each (walk fuel (id ∷ active)) (blockers_of id) s) (marked id) t
              (rw (h, a) at e) in
          let (g, all_below) =
            each-Sound (walk fuel (id ∷ active)) (walk-Sound fuel (id ∷ active)) (blockers_of id) s
              u o below in
          entered id s u t g all_below last_step
    ]
  ]

  -- A graph that passes the search has an order in which each ticket's blockers stand before it.
  pub assert_acyclic-Ordered :
      (t : List String)
      → assert_acyclic ≡ settled t
      → Ordered t × All (λ id. has id t ≡ true) (ids_of nodes)
  unfolding assert_acyclic
  assert_acyclic-Ordered t e =
      let (g, all_here) =
        each-Sound (walk (suc (length nodes)) []) (walk-Sound (suc (length nodes)) [])
          (ids_of nodes) [] t tt e in
      (g.ordered, all_here)
