-- ===== src/Examples/Schedules.antt =====
-- The theorems on scheduled occurrences at a brief that fails, and at one that runs.
use real_ming.Base.{◌≤◌, ◌≡◌, refl, none, some, List, [], ◌∷◌, arith}
use real_ming.Scheduler.{failed, Schedule, ClaimRequest, claim_scheduler_run}
use real_ming.Scheduler.Calls.{Call, claiming, completing, is_claimed, is_granted, won}
use real_ming.Scheduler.Bound.{won-claimed}
use real_ming.Scheduler.Exclusion.{won-granted}

abbrev brief_request : ClaimRequest
brief_request = record {
  job = "morning-brief";
  occurrence_date = "2026-01-01";
  scheduled_at = "2026-01-01T00:00:00.000Z";
  started_at = "2026-01-01T00:00:01.000Z";
  stale_after_ms = none;
  max_attempts = some 2;
  owner = none;
  run_id = none;
}

abbrev empty_schedule : Schedule
empty_schedule = record { runs = []; failures = []; outputs = [] }

abbrev failing_calls : List Call
failing_calls =
    claiming brief_request
    ∷ completing "morning-brief" "2026-01-01" "2026-01-01T00:00:02.000Z" failed none
    ∷ claiming brief_request
    ∷ completing "morning-brief" "2026-01-01" "2026-01-01T00:00:03.000Z" failed none
    ∷ claiming brief_request
    ∷ []

won-claimed_example :
    won
      (λ s. some 1000)
      (λ s. s)
      is_claimed
      "morning-brief"
      "2026-01-01"
      failing_calls
      empty_schedule
    ≤ 2
won-claimed_example =
    won-claimed (λ s. some 1000) (λ s. s) 2 "morning-brief" "2026-01-01" (omega arith) failing_calls
      empty_schedule refl refl

won-granted_example :
    won
      (λ s. some 1000)
      (λ s. s)
      is_granted
      "morning-brief"
      "2026-01-01"
      (claiming brief_request
        ∷ completing "evening-roll-up" "2026-01-01" "2026-01-01T00:00:02.000Z" failed none
        ∷ claiming brief_request
        ∷ [])
      (claim_scheduler_run (λ s. some 1000) brief_request empty_schedule).1
    ≡ 0
unfolding claim_scheduler_run
won-granted_example =
    won-granted (λ s. some 1000) (λ s. s) brief_request empty_schedule
      (claiming brief_request
        ∷ completing "evening-roll-up" "2026-01-01" "2026-01-01T00:00:02.000Z" failed none
        ∷ claiming brief_request
        ∷ [])
      refl refl
