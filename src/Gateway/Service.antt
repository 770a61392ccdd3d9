-- ===== src/Gateway/Service.antt =====
-- src/operations/operations-gateway.ts: the gateway over a sequence of calls of its methods, in any order.
use real_ming.Base.{ℕ, String, List, [], ◌∷◌}
use real_ming.Contracts.Records.{
  NormalizedCeoAction, CeoCommand, RequestedAction, GrantApprovalRequest,
  GrantStandingAuthorityRequest, CeoReviewRequest, RecordWorkItemCommitmentRequest,
  RecordWorkItemPriorityRequest, ImportMigratedWorkItemRequest, AuditEvent,
}
use real_ming.Store.Database.{empty_database}
use real_ming.Store.Steps.{Steps, here, Steps-trans}
use real_ming.Store.Replay.{Replays, Steps-Replays}
use real_ming.Store.Backing.{Backs, Steps-Backs}
use real_ming.Store.Keys.{Keyed, Steps-Keyed}
use real_ming.Store.Trail.{Appended, Steps-Appended}
use real_ming.Gateway.World.{Environment, World, after}
use real_ming.Gateway.Commands.{
  execute_work_item, rework_work_item, acknowledge_ceo_action, submit_ceo_action,
}
use real_ming.Gateway.Decisions.{
  request_action, grant, grant_standing_authority, stage_work_item_for_approval,
}
use real_ming.Gateway.Reviews.{
  review_work_item, record_work_item_commitment, record_work_item_priority, import_work_item,
  submit_ceo_command,
}
use real_ming.Gateway.Commands.Steps.{
  execute_work_item-Runs, rework_work_item-Runs, acknowledge_ceo_action-Runs,
  submit_ceo_action-Runs,
}
use real_ming.Gateway.Decisions.Steps.{
  request_action-Runs, grant-Runs, grant_standing_authority-Runs, stage_work_item_for_approval-Runs,
}
use real_ming.Gateway.Reviews.Steps.{
  review_work_item-Runs, record_work_item_commitment-Runs, record_work_item_priority-Runs,
  import_work_item-Runs, submit_ceo_command-Runs,
}

-- A call of a method of the gateway.
pub data Call : Type 0 where
  submitting_command : CeoCommand → Call
  submitting_action : NormalizedCeoAction → Call
  acknowledging : NormalizedCeoAction → Call
  executing_item : String → Call
  reworking : String → Call
  requesting : RequestedAction → Call
  granting : GrantApprovalRequest → Call
  granting_authority : GrantStandingAuthorityRequest → Call
  staging : String → Call
  reviewing : CeoReviewRequest → Call
  committing : RecordWorkItemCommitmentRequest → Call
  prioritizing : RecordWorkItemPriorityRequest → Call
  importing : ImportMigratedWorkItemRequest → Call

-- The world after a gateway's start on an empty database, whose audit rows get their numbers from `row_id`.
abbrev pub started : (List AuditEvent → ℕ) → World
started row_id = record {
  database = empty_database row_id;
  ticks = 0;
  draws = 0;
  calls = 0;
  told = [];
}

module _ (env : Environment) where
  -- The world once a call has returned or thrown.
  abbrev pub called : Call → World → World
  called (submitting_command command) w = after (submit_ceo_command env command w)
  called (submitting_action action) w = after (submit_ceo_action env action w)
  called (acknowledging action) w = after (acknowledge_ceo_action env action w)
  called (executing_item id) w = after (execute_work_item env id w)
  called (reworking id) w = after (rework_work_item env id w)
  called (requesting action) w = after (request_action env action w)
  called (granting request) w = after (grant env request w)
  called (granting_authority request) w = after (grant_standing_authority env request w)
  called (staging id) w = after (stage_work_item_for_approval env id w)
  called (reviewing request) w = after (review_work_item env request w)
  called (committing request) w = after (record_work_item_commitment env request w)
  called (prioritizing request) w = after (record_work_item_priority env request w)
  called (importing request) w = after (import_work_item env request w)

  unfoldable pub served : List Call → World → World
  served [] w = w
  served (c ∷ cs) w = served cs (called c w)

  called-Steps : (c : Call) (w : World) → Steps w.database (called c w).database
  called-Steps (submitting_command command) = (submit_ceo_command-Runs env command).path
  called-Steps (submitting_action action) = (submit_ceo_action-Runs env action).path
  called-Steps (acknowledging action) = (acknowledge_ceo_action-Runs env action).path
  called-Steps (executing_item id) = (execute_work_item-Runs env id).path
  called-Steps (reworking id) = (rework_work_item-Runs env id).path
  called-Steps (requesting action) = (request_action-Runs env action).path
  called-Steps (granting request) = (grant-Runs env request).path
  called-Steps (granting_authority request) = (grant_standing_authority-Runs env request).path
  called-Steps (staging id) = (stage_work_item_for_approval-Runs env id).path
  called-Steps (reviewing request) = (review_work_item-Runs env request).path
  called-Steps (committing request) = (record_work_item_commitment-Runs env request).path
  called-Steps (prioritizing request) = (record_work_item_priority-Runs env request).path
  called-Steps (importing request) = (import_work_item-Runs env request).path

  served-Steps : (calls : List Call) (w : World) → Steps w.database (served calls w).database
  unfolding served
  served-Steps [] w = here
  served-Steps (c ∷ cs) w = Steps-trans (called-Steps c w) (served-Steps cs (called c w))

  -- After any sequence of calls, whatever the worker, the verifier and the projector reply and whichever
  -- calls throw, each Work Item's state is the one that its audit trail alone tells.
  pub served-Replays :
      (row_id : List AuditEvent → ℕ) (calls : List Call)
      → Replays (served calls (started row_id)).database
  served-Replays row_id calls = Steps-Replays (served-Steps calls (started row_id)) tt

  -- After any sequence of calls, each Work Item that is ready for the CEO's review or completed has an
  -- Outcome Report.
  pub served-Backs :
      (row_id : List AuditEvent → ℕ) (calls : List Call)
      → Backs (served calls (started row_id)).database
  served-Backs row_id calls = Steps-Backs (served-Steps calls (started row_id)) tt

  -- After any sequence of calls, no two Work Items have one id or one workspace and idempotency
  -- key, and no two revisions of a Work Item's Outcome Report have one number.
  pub served-Keyed :
      (row_id : List AuditEvent → ℕ) (calls : List Call)
      → Keyed (served calls (started row_id)).database
  served-Keyed row_id calls =
      Steps-Keyed (served-Steps calls (started row_id))
        (record { ids = tt; commands = tt; revisions = tt })

  -- From any world, a sequence of calls leaves the audit rows and the report revisions that were
  -- there as they were, and writes new ones after them.
  pub served-Appended :
      (calls : List Call) (w : World) → Appended w.database (served calls w).database
  served-Appended calls w = Steps-Appended (served-Steps calls w)
