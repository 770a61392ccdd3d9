-- ===== src/Tickets/Depth.antt =====
-- src/phase3/ticket-graph.ts: the search for a cycle ends, since each step down its stack is to another node.
use real_ming.Base.{
  ℕ, zero, suc, ◌≤◌, ◌<◌, String, String_eq, Bool, true, false, not, ◌==◌, ◌≡◌, refl, ◌∙◌, some,
  List, [], ◌∷◌, exists, count, length, Bool-cases, Option-cases, inl, inr, eq_test, test_sym,
  arith,
}
use real_ming.Tickets.{TicketNode, node_of, last_with}
use real_ming.Tickets.Acyclic.{
  Walk, settled, cycle, spent, has, and_then, marked, each, blockers_of, walk, ids_of,
  assert_acyclic,
}

abbrev pub is_spent : Walk → Bool
is_spent spent = true
is_spent _ = false

and_then-is_spent :
    (r : Walk) (f : List String → Walk)
    → is_spent r ≡ false
    → ((s : List String) → is_spent (f s) ≡ false)
    → is_spent (and_then r f) ≡ false
and_then-is_spent (settled s) f e h = h s
and_then-is_spent cycle f e h = refl
and_then-is_spent spent f e h = e

each-is_spent :
    (w : String → List String → Walk)
    → ((id : String) (s : List String) → is_spent (w id s) ≡ false)
    → (bs s : List String) → is_spent (each w bs s) ≡ false
each-is_spent w h [] s = refl
each-is_spent w h (b ∷ bs) s = and_then-is_spent (w b s) (each w bs) (h b s) (each-is_spent w h bs)

exists_of_last :
    {A : Type 0} (p : A → Bool) (xs : List A) (a : A) → last_with p xs ≡ some a → exists p xs ≡ true
exists_of_last p [] a e = cc
exists_of_last p (x ∷ xs) a e = elim (Bool-cases (p x)) [
  | inl s ↦ rw s refl
  | inr f ↦ elim (Option-cases (last_with p xs)) [
    | inl n ↦ cc
    | inr (b, l) ↦ rw (f, exists_of_last p xs b l) refl
  ]
]

-- How many nodes are not on the path.
abbrev free : List String → List TicketNode → ℕ
free active nodes = count (λ n. not (has n.id active)) nodes

free_le :
    (id : String) (active : List String) (ns : List TicketNode)
    → free (id ∷ active) ns ≤ free active ns
free_le id active [] = omega arith
free_le id active (n ∷ ns) = elim (Bool-cases (id == n.id)) [
  | inl s ↦ rw s (omega (arith, free_le id active ns))
  | inr f ↦ rw f (omega (arith, free_le id active ns))
]

free_lt :
    (id : String) (active : List String) (ns : List TicketNode)
    → exists (λ n. n.id == id) ns ≡ true
    → has id active ≡ false
    → free (id ∷ active) ns < free active ns
free_lt id active [] e new = cc
free_lt id active (n ∷ ns) e new = elim (Bool-cases (n.id == id)) [
  | inl s ↦
      let it : n.id ≡ id = eq_test n.id id s in
      let fresh : has n.id active ≡ false = rw it new in
      let here : (id == n.id) ≡ true = test_sym id n.id ∙ s in
      rw (here, fresh) (omega (arith, free_le id active ns))
  | inr f ↦
      let apart : (id == n.id) ≡ false = test_sym id n.id ∙ f in
      rw apart (omega (arith, free_lt id active ns (rw f at e) new))
]

module _ (nodes : List TicketNode) where
  walk-is_spent :
      (fuel : ℕ) (active : List String)
      → free active nodes < fuel
      → (id : String) (s : List String) → is_spent (walk nodes fuel active id s) ≡ false
  unfolding walk
  walk-is_spent zero active h id s = absurd (omega (arith, h))
  walk-is_spent (suc fuel) active h id s = elim (Bool-cases (has id s)) [
    | inl t ↦ rw t refl
    | inr f ↦ elim (Bool-cases (has id active)) [
      | inl a ↦ rw (f, a) refl
      | inr a ↦ elim (Option-cases (node_of nodes id)) [
        | inl e ↦ rw (f, a, blockers_of, e) refl
        | inr (n, e) ↦
            let room = free_lt id active nodes (exists_of_last (λ n. n.id == id) nodes n e) a in
            rw (f, a)
              (and_then-is_spent (each (walk nodes fuel (id ∷ active)) (blockers_of nodes id) s)
                (marked id)
                (each-is_spent (walk nodes fuel (id ∷ active))
                  (walk-is_spent fuel (id ∷ active) (omega (arith, room, h))) (blockers_of nodes id)
                  s)
                (λ u. refl))
      ]
    ]
  ]

  free_all : (ns : List TicketNode) → free [] ns ≤ length ns
  free_all [] = omega arith
  free_all (n ∷ ns) = omega (arith, free_all ns)

  -- The search for a cycle ends: its fuel is enough for every graph.
  pub assert_acyclic-is_spent : is_spent (assert_acyclic nodes) ≡ false
  unfolding assert_acyclic
  assert_acyclic-is_spent =
      each-is_spent (walk nodes (suc (length nodes)) [])
        (walk-is_spent (suc (length nodes)) [] (omega (arith, free_all nodes))) (ids_of nodes) []
