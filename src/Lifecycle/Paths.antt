-- ===== src/Lifecycle/Paths.antt =====
-- src/operations/work-item-lifecycle.ts: the paths that the search returns are routes of the table.
use real_ming.Base.{
  Bool, true, false, not, ◌&&◌, ◌==◌, ◌≡◌, refl, subst, ◌≢◌, Option, none, some, List, [], ◌∷◌,
  arith, eq_test,
}
use real_ming.Contracts.Kinds.{
  WorkItemState, ready_for_ceo_review, WorkItemState_eq, AuditEventType,
}
use real_ming.Lifecycle.{lifecycle_event_for, lifecycle_path_to, search_path, Exploration, spent}
use real_ming.Lifecycle.States.{every, every_sound}

-- A walk through the table, step by step, that never enters `Ready for CEO Review`.
pub data Route : WorkItemState → List WorkItemState → WorkItemState → Type 0 where
  arrived : {s : WorkItemState} → Route s [] s
  via :
      {s t u : WorkItemState} {steps : List WorkItemState} (event : AuditEventType)
      → lifecycle_event_for s t ≡ some event
      → t ≢ ready_for_ceo_review
      → Route t steps u
      → Route s (t ∷ steps) u

abbrev is_some {ℓ} : {A : Type ℓ} → Option A → Bool
is_some none = false
is_some (some _) = true

is_route : WorkItemState → List WorkItemState → WorkItemState → Bool
is_route s [] u = s == u
is_route s (t ∷ steps) u =
    is_some (lifecycle_event_for s t) && not (t == ready_for_ceo_review) && is_route t steps u

is_some_value {ℓ} : {A : Type ℓ} (o : Option A) → is_some o ≡ true → (a : A) × (o ≡ some a)
is_some_value none h = cc
is_some_value (some a) h = (a, refl)

is_route-Route :
    (s : WorkItemState) (steps : List WorkItemState) (u : WorkItemState)
    → is_route s steps u ≡ true
    → Route s steps u
unfolding is_route
is_route-Route s [] u h = subst (λ v. Route s [] v) (eq_test s u h) arrived
is_route-Route s (t ∷ steps) u h =
    let (event, e) = is_some_value (lifecycle_event_for s t) (ground arith) in
    via event e (λ r. ground arith) (is_route-Route t steps u (ground arith))

abbrev returned_ok : WorkItemState → Option (List WorkItemState) → WorkItemState → Bool
returned_ok s none u = true
returned_ok s (some steps) u = is_route s steps u

returned_ok_all : every (λ s. every (λ u. returned_ok s (lifecycle_path_to s u) u)) ≡ true
unfolding lifecycle_path_to search_path is_route lifecycle_event_for every
returned_ok_all = refl

-- Each path that the search returns is a walk through the table from the first state to the second,
-- and never enters `Ready for CEO Review`.
pub lifecycle_path_to-Route :
    (s u : WorkItemState) (steps : List WorkItemState)
    → lifecycle_path_to s u ≡ some steps
    → Route s steps u
lifecycle_path_to-Route s u steps e = is_route-Route s steps u (
    subst (λ o. returned_ok s o u ≡ true) e
      (every_sound (λ v. returned_ok s (lifecycle_path_to s v) v) u
        (every_sound (λ v. every (λ w. returned_ok v (lifecycle_path_to v w) w)) s
          returned_ok_all)))

abbrev ended : Exploration → Bool
ended spent = false
ended _ = true

ended_all : every (λ s. every (λ u. ended (search_path s u))) ≡ true
unfolding search_path every
ended_all = refl

-- The search ends by itself: for no two states does the fuel run out.
pub search_path-ne-spent : (s u : WorkItemState) → search_path s u ≢ spent
search_path-ne-spent s u e =
    let h : ended (search_path s u) ≡ true =
      every_sound (λ v. ended (search_path s v)) u
        (every_sound (λ v. every (λ w. ended (search_path v w))) s ended_all) in
    cc
