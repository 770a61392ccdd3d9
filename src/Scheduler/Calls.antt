-- ===== src/Scheduler/Calls.antt =====
-- src/operations/operations-state.ts: the claims and completions of occurrences, in any order.
use real_ming.Base.{
  ℕ, suc, String, String_eq, Bool, true, false, ◌&&◌, ◌==◌, if◌then◌else◌, leb, Option, none, some,
  List, [], ◌∷◌,
}
use real_ming.Scheduler.{
  Outcome, Schedule, ClaimRequest, ClaimKind, claimed, stale_reclaimed, claim_scheduler_run,
  RunOutput, complete_scheduler_run,
}

pub data Call : Type 0 where
  claiming : ClaimRequest → Call
  completing : (job date at : String) → Outcome → Option RunOutput → Call

-- A claim or completion of the occurrence.
abbrev pub is_claim_of : String → String → ClaimRequest → Bool
is_claim_of job date request = request.job == job && request.occurrence_date == date

abbrev pub is_claimed : ClaimKind → Bool
is_claimed claimed = true
is_claimed _ = false

abbrev pub is_granted : ClaimKind → Bool
is_granted claimed = true
is_granted stale_reclaimed = true
is_granted _ = false

abbrev pub allows : ℕ → Option ℕ → Bool
allows m none = false
allows m (some n) = leb n m

-- Each claim of the occurrence carries a bound of at most `m` attempts.
abbrev pub is_bounded : String → String → ℕ → Call → Bool
is_bounded job date m (claiming request) =
    if is_claim_of job date request then allows m request.max_attempts else true
is_bounded job date m (completing _ _ _ _ _) = true

abbrev pub more_if : Bool → ℕ → ℕ
more_if true n = suc n
more_if false n = n

module _ (parse_date : String → Option ℕ) (digest : String → String) where
  abbrev pub called : Call → Schedule → Schedule
  called (claiming request) s = (claim_scheduler_run parse_date request s).1
  called (completing job date at outcome output) s =
      complete_scheduler_run digest job date at outcome output s

  -- Whether a call is a claim of the occurrence with an answer that passes the test.
  abbrev pub is_won : (ClaimKind → Bool) → String → String → Call → Schedule → Bool
  is_won wins job date (claiming request) s =
      is_claim_of job date request && wins (claim_scheduler_run parse_date request s).0
  is_won wins job date (completing _ _ _ _ _) s = false

  -- How many of a sequence of calls are such claims.
  abbrev pub won : (ClaimKind → Bool) → String → String → List Call → Schedule → ℕ
  won wins job date [] s = 0
  won wins job date (c ∷ cs) s =
      let rest = won wins job date cs (called c s) in more_if (is_won wins job date c s) rest
