-- ===== src/Scheduler/Exclusion.antt =====
-- src/operations/operations-state.ts: an occurrence that runs is nobody else's.
use mathlib.Core.Bool.{true≢false as true-ne-false}
use real_ming.Base.{
  ℕ, String, String_eq, Bool, true, false, not, ◌&&◌, ◌==◌, if◌then◌else◌, ◌≡◌, refl, sym, ap,
  subst, ◌∙◌, find, Option, none, some, List, [], ◌∷◌, all, exists, find-update_elsewhere,
  Bool-cases, inl, inr, eq_test, test_sym, arith,
}
use real_ming.Scheduler.{
  Outcome, succeeded, failed, SchedulerRun, Schedule, ClaimRequest, already_running, is_run_of,
  run_of, taken, reclaim, claim_scheduler_run, is_fresh, stale_after, RunOutput, with_failure,
  with_output, is_same_output, finished, complete_scheduler_run,
}
use real_ming.Scheduler.Calls.{
  Call, claiming, completing, is_claim_of, called, is_won, won, is_granted,
}
use real_ming.Scheduler.Attempts.{same_occurrence, claim_either, taken_own, taken_other}

module _ (parse_date : String → Option ℕ) (digest : String → String) (job date start : String) where
  -- A call that does not complete the occurrence, and claims it, if at all, before a run that began
  -- at `start` is stale.
  abbrev pub is_meanwhile : Call → Bool
  is_meanwhile (claiming request) =
      if is_claim_of job date request
      then is_fresh (parse_date request.started_at) (parse_date start)
          (stale_after request.stale_after_ms)
      else true
  is_meanwhile (completing j d at outcome output) = not (j == job && d == date)

  abbrev Running : Schedule → Type 0
  Running s =
      (r : SchedulerRun) × ((run_of job date s ≡ some r)
        × ((r.outcome ≡ none) × (r.started_at ≡ start)))

  reclaim_fresh :
      (request : ClaimRequest) (s : Schedule) (r : SchedulerRun) (o : Option Outcome)
      → o ≡ none
      → is_fresh
          (parse_date request.started_at)
          (parse_date r.started_at)
          (stale_after request.stale_after_ms)
        ≡ true
      → reclaim parse_date request r o s ≡ (already_running, s)
  reclaim_fresh request s r none e fresh = rw fresh refl
  reclaim_fresh request s r (some o) e fresh = cc

  -- A claim of the running occurrence is refused, and changes nothing.
  refused :
      (request : ClaimRequest) (s : Schedule)
      → is_claim_of job date request ≡ true
      → is_meanwhile (claiming request) ≡ true
      → Running s
      → (is_granted (claim_scheduler_run parse_date request s).0 ≡ false)
        × ((claim_scheduler_run parse_date request s).1 ≡ s)
  unfolding claim_scheduler_run
  refused request s mine early (r, (here, (runs, began))) =
      let owned =
        subst (λ p. run_of p request.occurrence_date s ≡ some r)
          (sym (eq_test request.job job (ground arith)))
          (subst (λ q. run_of job q s ≡ some r)
            (sym (eq_test request.occurrence_date date (ground arith))) here) in
      rw (owned, reclaim_fresh request s r r.outcome runs (rw began (rw mine at early)))
        (refl, refl)

  taken_elsewhere :
      (request : ClaimRequest) (s : Schedule)
      → is_claim_of job date request ≡ false
      → run_of job date (claim_scheduler_run parse_date request s).1 ≡ run_of job date s
  unfolding claim_scheduler_run
  taken_elsewhere request s apart = elim (claim_either parse_date request s) [
    | inl (refusal, e) ↦ ap (λ t. run_of job date t) e
    | inr e ↦ ap (λ t. run_of job date t) e ∙ taken_other request s job date apart
  ]

  output_elsewhere :
      (j d at : String) (o : Outcome) (output : Option RunOutput) (s : Schedule)
      → (with_output digest j d at o output s).runs ≡ s.runs
  output_elsewhere j d at failed output s = refl
  output_elsewhere j d at succeeded none s = refl
  output_elsewhere j d at succeeded (some output) s =
      elim (Bool-cases (exists (is_same_output j d (digest output.payload_text)) s.outputs)) [
        | inl e ↦ rw e refl
        | inr e ↦ rw e refl
      ]

  failure_elsewhere :
      (j d at : String) (o : Outcome) (s : Schedule) → (with_failure j d at o s).runs ≡ s.runs
  failure_elsewhere j d at succeeded s = refl
  failure_elsewhere j d at failed s = refl

  completed_elsewhere :
      (j d at : String) (o : Outcome) (output : Option RunOutput) (s : Schedule)
      → (j == job && d == date) ≡ false
      → run_of job date (complete_scheduler_run digest j d at o output s) ≡ run_of job date s
  unfolding complete_scheduler_run
  completed_elsewhere j d at o output s apart =
      ap (λ rs. find (is_run_of job date) rs) (output_elsewhere j d at o output _)
      ∙ find-update_elsewhere (is_run_of job date) (is_run_of j d) (finished at o) (λ x. refl)
          (λ x here.
            let (a, b) = same_occurrence job date x here in
            rw (a, b, test_sym job j, test_sym date d) apart)
          (with_failure j d at o s).runs
      ∙ ap (λ rs. find (is_run_of job date) rs) (failure_elsewhere j d at o s)

  called-Running :
      (c : Call) (s : Schedule)
      → is_meanwhile c ≡ true
      → Running s
      → (is_won parse_date digest is_granted job date c s ≡ false)
        × Running (called parse_date digest c s)
  called-Running (claiming request) s early running =
      elim (Bool-cases (is_claim_of job date request)) [
        | inl mine ↦
            let (no_grant, same) = refused request s mine early running in
            (rw (mine, no_grant) refl, rw same running)
        | inr apart ↦ (rw apart refl, rw (taken_elsewhere request s apart) running)
      ]
  called-Running (completing j d at o output) s early running =
      let apart : (j == job && d == date) ≡ false = ground arith in
      (refl, rw (completed_elsewhere j d at o output s apart) running)

  none_granted :
      (cs : List Call) (s : Schedule)
      → all is_meanwhile cs ≡ true
      → Running s
      → won parse_date digest is_granted job date cs s ≡ 0
  none_granted [] s early running = refl
  none_granted (c ∷ cs) s early running =
      let (no_grant, still) = called-Running c s (ground arith) running in
      rw no_grant (none_granted cs (called parse_date digest c s) (ground arith) still)

module _ (parse_date : String → Option ℕ) (digest : String → String) where
  -- Once a claim is answered `claimed` or `stale-reclaimed`, no further claim of the occurrence is
  -- answered so, as long as the occurrence is not completed and is claimed only before the run is
  -- stale, whatever is claimed and completed of other occurrences meanwhile.
  pub won-granted :
      (request : ClaimRequest) (s : Schedule) (cs : List Call)
      → is_granted (claim_scheduler_run parse_date request s).0 ≡ true
      → all
          (is_meanwhile parse_date digest request.job request.occurrence_date request.started_at)
          cs
        ≡ true
      → won parse_date digest is_granted request.job request.occurrence_date cs
          (claim_scheduler_run parse_date request s).1
        ≡ 0
  won-granted request s cs granted meanwhile = elim (claim_either parse_date request s) [
    | inl (refusal, e) ↦ absurd (true-ne-false (sym granted ∙ refusal))
    | inr e ↦ rw e (
        none_granted parse_date digest request.job request.occurrence_date request.started_at cs
          (taken request s) meanwhile (taken_own request s))
  ]
