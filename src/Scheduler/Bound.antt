-- ===== src/Scheduler/Bound.antt =====
-- src/operations/operations-state.ts: a bounded retry policy bounds the attempts of an occurrence.
use real_ming.Base.{
  ℕ, ◌+◌, ◌≤◌, String, String_eq, Bool, true, false, ◌&&◌, ◌==◌, ◌≡◌, refl, sym, subst, ◌∙◌, Option,
  none, some, List, [], ◌∷◌, exists, update, count-append, find-update_where, find-update_elsewhere,
  updated, all, Bool-cases, inl, inr, eq_test, test_sym, test_self, arith, find-test,
}
use real_ming.Scheduler.{
  Outcome, succeeded, failed, SchedulerRun, Schedule, ClaimRequest, is_run_of, is_failure_of,
  run_of, failures_of, taken, claim_scheduler_run, RunOutput, with_failure, with_output,
  is_same_output, finished, complete_scheduler_run,
}
use real_ming.Scheduler.Calls.{
  Call, claiming, completing, is_claim_of, is_claimed, is_bounded, called, is_won, won, more_if,
  allows,
}
use real_ming.Scheduler.Attempts.{
  slack, Used, untouched, known, same_occurrence, claim_either, taken_other, taken_failures, Fits,
  claim-Fits,
}

-- What a completion leaves of the runs and the failures, whatever the output.
module _ (digest : String → String) (j d at : String) where
  abbrev completed : Outcome → Schedule → Schedule
  completed o s =
      let noted = with_failure j d at o s in
      record noted { runs = update (is_run_of j d) (finished at o) noted.runs }

  with_output-Fits :
      (m : ℕ) (job date : String) (n : ℕ) (o : Outcome) (output : Option RunOutput) (s : Schedule)
      → Fits m job date n s
      → Fits m job date n (with_output digest j d at o output s)
  with_output-Fits m job date n failed output s h = h
  with_output-Fits m job date n succeeded none s h = h
  with_output-Fits m job date n succeeded (some output) s h =
      elim (Bool-cases (exists (is_same_output j d (digest output.payload_text)) s.outputs)) [
        | inl e ↦ rw e h
        | inr e ↦ rw e h
      ]

module _ (m : ℕ) (job date at : String) (s : Schedule) where
  -- A completed row of an occurrence.
  finishes :
      (o : Outcome) (n g : ℕ) (row : Option SchedulerRun)
      → ((r : SchedulerRun) → row ≡ some r → is_run_of job date r ≡ true)
      → Used m n (failures_of job date s) row
      → failures_of job date s + 1 ≤ g + slack (some o)
      → Used m n g (updated (is_run_of job date) (finished at o) row)
  finishes o n g none mine (untouched z) more = untouched z
  finishes o n g (some r) mine (known few bound) more =
      rw (mine r refl) (known (le_slack r.outcome few) bound)
    where
      le_slack :
          (w : Option Outcome) → n ≤ failures_of job date s + slack w → n ≤ g + slack (some o)
      le_slack none few = omega (arith, few, more)
      le_slack (some succeeded) few = omega (arith, few, more)
      le_slack (some failed) few = omega (arith, few, more)

  one_more : failures_of job date (with_failure job date at failed s) ≡ failures_of job date s + 1
  one_more =
      count-append (is_failure_of job date) s.failures _
      ∙ rw (test_self job, test_self date) (omega arith)

  own-Fits :
      (digest : String → String) (o : Outcome) (n : ℕ)
      → Fits m job date n s
      → Fits m job date n (completed digest job date at o s)
  own-Fits digest succeeded n h =
      rw
        (find-update_where (is_run_of job date) (is_run_of job date) (finished at succeeded)
          (λ x. refl) s.runs)
        (finishes succeeded n _ (run_of job date s) (λ r e. find-test (is_run_of job date) s.runs e)
          h (omega arith))
  own-Fits digest failed n h =
      rw
        (find-update_where (is_run_of job date) (is_run_of job date) (finished at failed)
          (λ x. refl) s.runs)
        (finishes failed n _ (run_of job date s) (λ r e. find-test (is_run_of job date) s.runs e) h
          (omega (arith, one_more)))

  -- A completion of another occurrence changes neither the row nor the failures.
  other-Fits :
      (digest : String → String) (j d : String) (o : Outcome) (n : ℕ)
      → (j == job && d == date) ≡ false
      → Fits m job date n s
      → Fits m job date n (completed digest j d at o s)
  other-Fits digest j d o n apart h =
      rw
        (find-update_elsewhere (is_run_of job date) (is_run_of j d) (finished at o) (λ x. refl)
          (elsewhere) (with_failure j d at o s).runs)
        (other o)
    where
      elsewhere : (x : SchedulerRun) → is_run_of job date x ≡ true → is_run_of j d x ≡ false
      elsewhere x here =
          let (a, b) = same_occurrence job date x here in
          rw (a, b, test_sym job j, test_sym date d) apart

      other :
          (o : Outcome)
          → Used m n
              (failures_of job date (with_failure j d at o s))
              (run_of job date (with_failure j d at o s))
      other succeeded = h
      other failed =
          subst (λ f. Used m n f (run_of job date s))
            (sym (count-append (is_failure_of job date) s.failures _ ∙ rw apart (omega arith))) h

module _ (parse_date : String → Option ℕ) (digest : String → String) (m : ℕ) (job date : String)
    (some_left : 1 ≤ m) where
  own_claim :
      (request : ClaimRequest) (n : ℕ) (s : Schedule)
      → is_claim_of job date request ≡ true
      → allows m request.max_attempts ≡ true
      → Fits m job date n s
      → Fits m job date
          (more_if (is_claimed (claim_scheduler_run parse_date request s).0) n)
          (claim_scheduler_run parse_date request s).1
  own_claim request n s mine allowed =
      subst (λ p. Fits m p date n s → Fits m p date next_count next_schedule)
        (eq_test request.job job (ground arith))
        (subst (λ q. Fits m request.job q n s → Fits m request.job q next_count next_schedule)
          (eq_test request.occurrence_date date (ground arith))
          (claim-Fits m parse_date request s n some_left allowed))
    where
      next_count : ℕ
      next_count = more_if (is_claimed (claim_scheduler_run parse_date request s).0) n

      next_schedule : Schedule
      next_schedule = (claim_scheduler_run parse_date request s).1

  taken_elsewhere :
      (request : ClaimRequest) (n : ℕ) (s : Schedule)
      → is_claim_of job date request ≡ false
      → Fits m job date n s
      → Fits m job date n (taken request s)
  taken_elsewhere request n s apart h =
      rw (taken_other request s job date apart, taken_failures m parse_date request s job date) h

  other_claim :
      (request : ClaimRequest) (n : ℕ) (s : Schedule)
      → is_claim_of job date request ≡ false
      → Fits m job date n s
      → Fits m job date n (claim_scheduler_run parse_date request s).1
  other_claim request n s apart h = elim (claim_either parse_date request s) [
    | inl (refusal, e) ↦ rw e h
    | inr e ↦ rw e (taken_elsewhere request n s apart h)
  ]

  called-Fits :
      (c : Call) (n : ℕ) (s : Schedule)
      → is_bounded job date m c ≡ true
      → Fits m job date n s
      → Fits m job date
          (more_if (is_won parse_date digest is_claimed job date c s) n)
          (called parse_date digest c s)
  unfolding complete_scheduler_run
  called-Fits (claiming request) n s bound h = elim (Bool-cases (is_claim_of job date request)) [
    | inl mine ↦
        let allowed : allows m request.max_attempts ≡ true = rw mine at bound in
        rw mine (own_claim request n s mine allowed h)
    | inr apart ↦ rw apart (other_claim request n s apart h)
  ]
  called-Fits (completing j d at o output) n s bound h =
      with_output-Fits digest j d at m job date n o output (completed digest j d at o s)
        (elim (Bool-cases (j == job && d == date)) [
          | inl mine ↦
              let a : j ≡ job = eq_test j job (ground arith) in
              let b : d ≡ date = eq_test d date (ground arith) in
              rw (a, b) (own-Fits m job date at s digest o n h)
          | inr apart ↦ other-Fits m job date at s digest j d o n apart h
        ])

  more-won : (b : Bool) (n k : ℕ) → more_if b n + k ≡ n + more_if b k
  more-won true n k = omega arith
  more-won false n k = refl

  won-bounded :
      (cs : List Call) (n : ℕ) (s : Schedule)
      → all (is_bounded job date m) cs ≡ true
      → Fits m job date n s
      → n + won parse_date digest is_claimed job date cs s ≤ m
  won-bounded [] n s bounds h = omega (arith, fits_bound (run_of job date s) h)
    where
      fits_bound : (row : Option SchedulerRun) → Used m n (failures_of job date s) row → n ≤ m
      fits_bound none (untouched z) = omega (arith, z, some_left)
      fits_bound (some r) (known few bound) = bound
  won-bounded (c ∷ cs) n s bounds h =
      let b = is_won parse_date digest is_claimed job date c s in
      let rest =
        won-bounded cs (more_if b n) (called parse_date digest c s) (ground arith)
          (called-Fits c n s (ground arith) h) in
      subst (λ x. x ≤ m) (more-won b n _) rest

  -- From a schedule without a row of an occurrence, however its claims and completions, in any
  -- order and among those of other occurrences, succeed, fail or go stale: if each claim of it
  -- bounds the attempts by `m` or less, where `m` is at least one, then `m` claims at most are
  -- answered `claimed`.
  pub won-claimed :
      (cs : List Call) (s : Schedule)
      → all (is_bounded job date m) cs ≡ true
      → run_of job date s ≡ none
      → won parse_date digest is_claimed job date cs s ≤ m
  won-claimed cs s bounds fresh = omega (
    arith,
    won-bounded cs 0 s bounds
        (subst (Used m 0 (failures_of job date s)) (sym fresh) (untouched refl)),
  )
