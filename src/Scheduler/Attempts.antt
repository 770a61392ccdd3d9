-- ===== src/Scheduler/Attempts.antt =====
-- src/operations/operations-state.ts: how often an occurrence with a bounded retry policy is claimed.
use mathlib.Core.Bool.{true≢false as true-ne-false}
use real_ming.Base.{
  ℕ, suc, ◌+◌, ◌≤◌, String, String_eq, true, false, ◌≡◌, refl, sym, ◌⊎◌, subst, Option, none, some,
  exists, find-update_where, find-update_elsewhere, find-insert, find-test, find-eq-none,
  exists-none, exists_of_find, Bool-cases, Option-cases, inl, inr, eq_test, test_self, test_sym,
  or_row-miss, arith,
}
use real_ming.Scheduler.Calls.{is_claim_of, allows, is_claimed, is_granted, more_if}
use real_ming.Scheduler.{
  Outcome, succeeded, failed, SchedulerRun, Schedule, ClaimRequest, is_run_of, run_of, failures_of,
  taken, reclaim, claim_scheduler_run, is_fresh, is_used_up, stale_after, restarted, new_run,
}

abbrev pub slack : Option Outcome → ℕ
slack (some failed) = 0
slack o = 1

-- At most `n` claims of an occurrence whose row this is and which has failed `f` times: one for
-- each failure, and one for the attempt that has not failed.
pub data Used (m n f : ℕ) : Option SchedulerRun → Type 0 where
  untouched : n ≡ 0 → Used m n f none
  known : {r : SchedulerRun} → n ≤ f + slack r.outcome → n ≤ m → Used m n f (some r)

pub same_occurrence :
    (job date : String) (x : SchedulerRun)
    → is_run_of job date x ≡ true
    → (x.job ≡ job) × (x.occurrence_date ≡ date)
same_occurrence job date x h =
    (eq_test x.job job (ground arith), eq_test x.occurrence_date date (ground arith))

module _ (request : ClaimRequest) (s : Schedule) where
  -- A claim that succeeds leaves the occurrence running.
  pub taken_own :
      (x : SchedulerRun) × ((run_of request.job request.occurrence_date (taken request s) ≡ some x)
        × ((x.outcome ≡ none) × (x.started_at ≡ request.started_at)))
  unfolding taken
  taken_own = elim (Option-cases (run_of request.job request.occurrence_date s)) [
    | inl e ↦
        let mine = is_run_of request.job request.occurrence_date in
        let fresh = exists-none mine s.runs (find-eq-none mine s.runs e) in
        (
          new_run request,
          (
            rw
                (
                  fresh,
                  find-insert mine s.runs (new_run request),
                  e,
                  test_self request.job,
                  test_self request.occurrence_date,
                )
                refl,
            (refl, refl),
          ),
        )
    | inr (r, e) ↦
        let mine = is_run_of request.job request.occurrence_date in
        let there = exists_of_find mine s.runs e in
        (
          restarted request r,
          (
            rw
                (
                  there,
                  find-update_where mine mine (restarted request) (λ x. refl) s.runs,
                  e,
                  find-test mine s.runs e,
                )
                refl,
            (refl, refl),
          ),
        )
  ]

  pub taken_other :
      (job date : String)
      → is_claim_of job date request ≡ false
      → run_of job date (taken request s) ≡ run_of job date s
  unfolding taken
  taken_other job date apart =
      let mine = is_run_of request.job request.occurrence_date in
      elim (Bool-cases (exists mine s.runs)) [
        | inl e ↦ rw e (
            find-update_elsewhere (is_run_of job date) mine (restarted request) (λ x. refl)
              (λ x here.
                let (j, d) = same_occurrence job date x here in
                rw (j, d, test_sym job request.job, test_sym date request.occurrence_date) apart)
              s.runs)
        | inr e ↦
            rw (e, find-insert (is_run_of job date) s.runs (new_run request))
              (or_row-miss (is_run_of job date) (new_run request) (run_of job date s) apart)
      ]

-- A claim takes the occurrence, or changes nothing.
module _ (parse_date : String → Option ℕ) (request : ClaimRequest) (s : Schedule) where
  reclaim_either :
      (r : SchedulerRun) (o : Option Outcome)
      → ((is_granted (reclaim parse_date request r o s).0 ≡ false)
          × ((reclaim parse_date request r o s).1 ≡ s))
        ⊎ ((reclaim parse_date request r o s).1 ≡ taken request s)
  reclaim_either r (some succeeded) = inl (refl, refl)
  reclaim_either r (some failed) =
      elim (Bool-cases
        (is_used_up request.max_attempts (failures_of request.job request.occurrence_date s))) [
          | inl u ↦ rw u (inl (refl, refl))
          | inr u ↦ rw u (inr refl)
        ]
  reclaim_either r none =
      elim (Bool-cases (
        is_fresh (parse_date request.started_at) (parse_date r.started_at)
          (stale_after request.stale_after_ms))) [
            | inl u ↦ rw u (inl (refl, refl))
            | inr u ↦ rw u (inr refl)
          ]

  pub claim_either :
      ((is_granted (claim_scheduler_run parse_date request s).0 ≡ false)
        × ((claim_scheduler_run parse_date request s).1 ≡ s))
      ⊎ ((claim_scheduler_run parse_date request s).1 ≡ taken request s)
  unfolding claim_scheduler_run
  claim_either = elim (Option-cases (run_of request.job request.occurrence_date s)) [
    | inl e ↦ rw e (inr refl)
    | inr (r, e) ↦ rw e (reclaim_either r r.outcome)
  ]

abbrev pub Fits : ℕ → String → String → ℕ → Schedule → Type 0
Fits m job date n s = Used m n (failures_of job date s) (run_of job date s)

module _ (m : ℕ) (parse_date : String → Option ℕ) (request : ClaimRequest) (s : Schedule) where
  abbrev failures : ℕ
  failures = failures_of request.job request.occurrence_date s

  abbrev pub FitsHere : ℕ → Schedule → Type 0
  FitsHere = Fits m request.job request.occurrence_date

  pub taken_failures :
      (job date : String) → failures_of job date (taken request s) ≡ failures_of job date s
  unfolding taken
  taken_failures job date =
      elim (Bool-cases (exists (is_run_of request.job request.occurrence_date) s.runs)) [
        | inl e ↦ rw e refl
        | inr e ↦ rw e refl
      ]

  taken-Fits : (n : ℕ) → n ≤ failures + 1 → n ≤ m → FitsHere n (taken request s)
  taken-Fits n few bound =
      let (x, (here, (running, _))) = taken_own request s in
      rw (here, taken_failures request.job request.occurrence_date) (known (rw running few) bound)

  -- The answer to a claim where the occurrence has a row.
  reclaim-Fits :
      (r : SchedulerRun) (o : Option Outcome) (n : ℕ)
      → allows m request.max_attempts ≡ true
      → r.outcome ≡ o
      → n ≤ failures + slack o
      → n ≤ m
      → FitsHere n s
      → FitsHere
          (more_if (is_claimed (reclaim parse_date request r o s).0) n)
          (reclaim parse_date request r o s).1
  reclaim-Fits r (some succeeded) n allowed e few bound h = h
  reclaim-Fits r (some failed) n allowed e few bound h =
      elim (Bool-cases (is_used_up request.max_attempts failures)) [
        | inl u ↦ rw u h
        | inr u ↦
            rw u (taken-Fits (suc n) (omega (arith, few)) (room request.max_attempts allowed u))
      ]
    where
      room : (k : Option ℕ) → allows m k ≡ true → is_used_up k failures ≡ false → suc n ≤ m
      room none a u = absurd (true-ne-false (sym a))
      room (some k) a u = ground arith
  reclaim-Fits r none n allowed e few bound h =
      elim (Bool-cases (
        is_fresh (parse_date request.started_at) (parse_date r.started_at)
          (stale_after request.stale_after_ms))) [
            | inl u ↦ rw u h
            | inr u ↦ rw u (taken-Fits n few bound)
          ]

  pub claim-Fits :
      (n : ℕ)
      → 1 ≤ m
      → allows m request.max_attempts ≡ true
      → FitsHere n s
      → FitsHere
          (more_if (is_claimed (claim_scheduler_run parse_date request s).0) n)
          (claim_scheduler_run parse_date request s).1
  unfolding claim_scheduler_run
  claim-Fits n some_left allowed h =
      elim (Option-cases (run_of request.job request.occurrence_date s)) [
        | inl e ↦ rw e (first (subst (Used m n failures) e h))
        | inr (r, e) ↦ rw e (later r (subst (Used m n failures) e h))
      ]
    where
      first : Used m n failures none → FitsHere (suc n) (taken request s)
      first (untouched z) = taken-Fits (suc n) (omega (arith, z)) (omega (arith, z, some_left))

      later :
          (r : SchedulerRun)
          → Used m n failures (some r)
          → FitsHere
              (more_if (is_claimed (reclaim parse_date request r r.outcome s).0) n)
              (reclaim parse_date request r r.outcome s).1
      later r (known few bound) = reclaim-Fits r r.outcome n allowed refl few bound h
