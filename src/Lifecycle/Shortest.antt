-- ===== src/Lifecycle/Shortest.antt =====
-- src/operations/work-item-lifecycle.ts: the search finds a way where there is one, and a shortest.
use real_ming.Base.{
  subst, ◌∙◌, leb→le, test_ne, ℕ, suc, ◌≤◌, Bool, true, false, ◌||◌, ◌==◌, if◌then◌else◌, leb, ◌≡◌,
  refl, ◌≢◌, Option, none, some, List, length, exists, arith, test_self,
}
use real_ming.Contracts.Kinds.{
  WorkItemState, ready_for_ceo_review, WorkItemState_eq, AuditEventType,
}
use real_ming.Lifecycle.{
  lifecycle_event_for, lifecycle_path_to, search_path, explored, advanceable_states,
}
use real_ming.Lifecycle.Paths.{Route, arrived, via}
use real_ming.Lifecycle.States.{every, every_sound}

abbrev measured : Option (List WorkItemState) → Option ℕ
measured none = none
measured (some steps) = some (length steps)

-- The number of steps that the search needs.
hops : WorkItemState → WorkItemState → Option ℕ
hops s u = if s == u then some 0 else measured (explored (search_path s u))

abbrev within : Option ℕ → ℕ → Bool
within none n = false
within (some d) n = leb d n

abbrev no_farther : Option ℕ → Option ℕ → Bool
no_farther here none = true
no_farther here (some d) = within here (suc d)

abbrev step_ok : WorkItemState → WorkItemState → WorkItemState → Option AuditEventType → Bool
step_ok s t u none = true
step_ok s t u (some _) = t == ready_for_ceo_review || no_farther (hops s u) (hops t u)

step_ok_all : every (λ s. every (λ t. every (λ u. step_ok s t u (lifecycle_event_for s t)))) ≡ true
unfolding every hops search_path lifecycle_event_for
step_ok_all = refl

-- One step through the table brings the end closer by one step at most.
hops-step :
    (s t u : WorkItemState) (n : ℕ) {event : AuditEventType}
    → lifecycle_event_for s t ≡ some event
    → t ≢ ready_for_ceo_review
    → within (hops t u) n ≡ true
    → within (hops s u) (suc n) ≡ true
hops-step s t u n e r h =
    let all_u =
      every_sound (λ x. every (λ y. step_ok s x y (lifecycle_event_for s x))) t
        (every_sound (λ w. every (λ x. every (λ y. step_ok w x y (lifecycle_event_for w x)))) s
          step_ok_all) in
    let ok : step_ok s t u (lifecycle_event_for s t) ≡ true =
      every_sound (λ y. step_ok s t y (lifecycle_event_for s t)) u all_u in
    ground arith

hops-Route :
    {s u : WorkItemState} {steps : List WorkItemState}
    → Route s steps u
    → within (hops s u) (length steps) ≡ true
unfolding hops
hops-Route (arrived {s}) = rw (test_self s)
hops-Route {u} (via {s} {t} {steps} event e r route) =
    hops-step s t u (length steps) e r (hops-Route route)

measured-within :
    (o : Option (List WorkItemState)) (n : ℕ)
    → within (measured o) n ≡ true
    → (found : List WorkItemState) × (o ≡ some found) × (length found ≤ n)
measured-within none n h = cc
measured-within (some steps) n h = (steps, refl, leb→le _ _ h)

hops_ne : (s u : WorkItemState) → s ≢ u → hops s u ≡ measured (explored (search_path s u))
unfolding hops
hops_ne s u ne = rw (test_ne s u ne)

lifecycle_path_to_advanceable :
    (s u : WorkItemState)
    → s ≢ u
    → exists (λ v. v == s) advanceable_states ≡ true
    → lifecycle_path_to s u ≡ explored (search_path s u)
unfolding lifecycle_path_to
lifecycle_path_to_advanceable s u ne adv = rw (test_ne s u ne, adv)

-- If a walk leads from an advanceable state to another state and avoids `Ready for CEO Review`, then
-- the search returns a path, and no such walk is shorter than it.
pub lifecycle_path_to_shortest :
    (s u : WorkItemState) (steps : List WorkItemState)
    → s ≢ u
    → exists (λ v. v == s) advanceable_states ≡ true
    → Route s steps u
    → (found : List WorkItemState) × (lifecycle_path_to s u ≡ some found)
      × (length found ≤ length steps)
lifecycle_path_to_shortest s u steps ne adv route =
    let close = subst (λ o. within o (length steps) ≡ true) (hops_ne s u ne) (hops-Route route) in
    let (found, e, short) = measured-within (explored (search_path s u)) (length steps) close in
    (found, lifecycle_path_to_advanceable s u ne adv ∙ e, short)
