-- ===== src/Scheduler.antt =====
-- src/operations/operations-state.ts: the claims of scheduled occurrences, their completions, failures and
-- outputs. `Date.parse` and SHA-256 are parameters; the moments of `parse_date` count
-- milliseconds from the earliest that a JavaScript date can hold, and NaN is `none`.
pub mod Calls
pub mod Attempts
pub mod Bound
pub mod Exclusion
use real_ming.Base.{
  ℕ, suc, ◌+◌, ◌-◌, String, String_eq, Bool, true, false, not, ◌&&◌, ◌||◌, ◌==◌, if◌then◌else◌, ltb,
  leb, text_leb, Option, none, some, List, [], ◌∷◌, ◌++◌, find, exists, update, select, count, map,
}

pub data Outcome : Type 0 where
  succeeded failed : Outcome

-- A row of `scheduler_runs`.
pub record SchedulerRun : Type 0 where
  pub job : String
  pub occurrence_date : String
  pub scheduled_at : String
  pub started_at : String
  pub completed_at : Option String
  pub outcome : Option Outcome
  pub owner : String
  pub run_id : Option String

-- A row of `scheduler_run_failures`.
pub record SchedulerFailure : Type 0 where
  pub job : String
  pub occurrence_date : String
  pub attempt : ℕ
  pub completed_at : String

-- A row of `scheduler_run_outputs`.
pub record SchedulerOutput : Type 0 where
  pub job : String
  pub occurrence_date : String
  pub owner : String
  pub run_id : String
  pub payload_digest : String
  pub payload_text : String
  pub created_at : String

pub record Schedule : Type 0 where
  pub runs : List SchedulerRun
  pub failures : List SchedulerFailure
  pub outputs : List SchedulerOutput

pub record ClaimRequest : Type 0 where
  pub job : String
  pub occurrence_date : String
  pub scheduled_at : String
  pub started_at : String
  pub stale_after_ms : Option ℕ
  pub max_attempts : Option ℕ
  pub owner : Option String
  pub run_id : Option String

pub data ClaimKind : Type 0 where
  claimed already_succeeded already_running stale_reclaimed terminal_failure : ClaimKind

abbrev pub is_run_of : String → String → SchedulerRun → Bool
is_run_of job date run = run.job == job && run.occurrence_date == date

abbrev pub is_failure_of : String → String → SchedulerFailure → Bool
is_failure_of job date failure = failure.job == job && failure.occurrence_date == date

abbrev pub run_of : String → String → Schedule → Option SchedulerRun
run_of job date s = find (is_run_of job date) s.runs

-- `SELECT COUNT(*) … FROM scheduler_run_failures`
abbrev pub failures_of : String → String → Schedule → ℕ
failures_of job date s = count (is_failure_of job date) s.failures

abbrev or_text : Option String → String → String
or_text none t = t
or_text (some s) t = s

abbrev pub stale_after : Option ℕ → ℕ
stale_after none = 300000
stale_after (some ms) = ms

-- `Number.isFinite(elapsed) && elapsed >= 0 && elapsed < staleAfterMs`
abbrev pub is_fresh : Option ℕ → Option ℕ → ℕ → Bool
is_fresh (some now) (some start) limit = leb start now && ltb (now - start) limit
is_fresh _ _ limit = false

abbrev pub restarted : ClaimRequest → SchedulerRun → SchedulerRun
restarted request run = record run {
  started_at = request.started_at;
  completed_at = none;
  outcome = none;
  owner = or_text request.owner "real-ming";
  run_id = request.run_id;
}

abbrev pub new_run : ClaimRequest → SchedulerRun
new_run request = record {
  job = request.job;
  occurrence_date = request.occurrence_date;
  scheduled_at = request.scheduled_at;
  started_at = request.started_at;
  completed_at = none;
  outcome = none;
  owner = or_text request.owner "real-ming";
  run_id = request.run_id;
}

-- `INSERT … ON CONFLICT(job, occurrence_date) DO UPDATE`
unfoldable pub taken : ClaimRequest → Schedule → Schedule
taken request s =
    if exists (is_run_of request.job request.occurrence_date) s.runs
    then record s {
      runs = update (is_run_of request.job request.occurrence_date) (restarted request) s.runs;
    }
    else record s { runs = s.runs ++ (new_run request ∷ []) }

abbrev pub is_used_up : Option ℕ → ℕ → Bool
is_used_up none n = false
is_used_up (some m) n = leb m n

-- A claim where the occurrence has a row.
abbrev pub reclaim :
    (String → Option ℕ)
    → ClaimRequest
    → SchedulerRun
    → Option Outcome
    → Schedule
    → ClaimKind × Schedule
reclaim parse_date request run (some succeeded) s = (already_succeeded, s)
reclaim parse_date request run (some failed) s =
    if is_used_up request.max_attempts (failures_of request.job request.occurrence_date s)
    then (terminal_failure, s)
    else (claimed, taken request s)
reclaim parse_date request run none s =
    if is_fresh (parse_date request.started_at) (parse_date run.started_at)
      (stale_after request.stale_after_ms)
    then (already_running, s)
    else (stale_reclaimed, taken request s)

abbrev pub claim_row :
    (String → Option ℕ) → ClaimRequest → Option SchedulerRun → Schedule → ClaimKind × Schedule
claim_row parse_date request none s = (claimed, taken request s)
claim_row parse_date request (some run) s = reclaim parse_date request run run.outcome s

unfoldable pub claim_scheduler_run :
    (String → Option ℕ) → ClaimRequest → Schedule → ClaimKind × Schedule
claim_scheduler_run parse_date request s =
    claim_row parse_date request (run_of request.job request.occurrence_date s) s

-- `COALESCE((SELECT MAX(attempt) + 1 …), 1)`
abbrev next_attempt : String → String → List SchedulerFailure → ℕ
next_attempt job date [] = 1
next_attempt job date (f ∷ fs) =
    let later = next_attempt job date fs in
    if is_failure_of job date f && leb later f.attempt then suc f.attempt else later

abbrev pub with_failure : String → String → String → Outcome → Schedule → Schedule
with_failure job date at succeeded s = s
with_failure job date at failed s = record s {
  failures =
      s.failures
      ++ (record {
        job = job;
        occurrence_date = date;
        attempt = next_attempt job date s.failures;
        completed_at = at;
      }
          ∷ []);
}

abbrev pub finished : String → Outcome → SchedulerRun → SchedulerRun
finished at outcome run = record run { completed_at = some at; outcome = some outcome }

pub record RunOutput : Type 0 where
  pub owner : String
  pub run_id : String
  pub payload_text : String

abbrev is_same_output : String → String → String → SchedulerOutput → Bool
is_same_output job date digest o =
    o.job == job && o.occurrence_date == date && o.payload_digest == digest

-- `INSERT OR IGNORE INTO scheduler_run_outputs`
abbrev pub with_output :
    (String → String) → String → String → String → Outcome → Option RunOutput → Schedule → Schedule
with_output digest job date at succeeded (some output) s =
    if exists (is_same_output job date (digest output.payload_text)) s.outputs
    then s
    else record s {
      outputs =
          s.outputs
          ++ (record {
            job = job;
            occurrence_date = date;
            owner = output.owner;
            run_id = output.run_id;
            payload_digest = digest output.payload_text;
            payload_text = output.payload_text;
            created_at = at;
          }
              ∷ []);
    }
with_output digest job date at outcome output s = s

unfoldable pub complete_scheduler_run :
    (String → String) → String → String → String → Outcome → Option RunOutput → Schedule → Schedule
complete_scheduler_run digest job date at outcome output s =
    let noted = with_failure job date at outcome s in
    with_output digest job date at outcome output
      (record noted { runs = update (is_run_of job date) (finished at outcome) noted.runs })

abbrev latest : Option SchedulerOutput → SchedulerOutput → Option SchedulerOutput
latest none o = some o
latest (some p) o = if text_leb p.created_at o.created_at then some o else some p

-- `ORDER BY created_at DESC, rowid DESC LIMIT 1`
abbrev latest_of : Option SchedulerOutput → List SchedulerOutput → Option SchedulerOutput
latest_of best [] = best
latest_of best (o ∷ os) = latest_of (latest best o) os

unfoldable pub scheduler_run_output : String → String → Schedule → Option SchedulerOutput
scheduler_run_output job date s =
    latest_of none (select (λ o. o.job == job && o.occurrence_date == date) s.outputs)
