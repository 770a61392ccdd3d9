-- ===== src/Examples.antt =====
-- Work Items, requests and a gateway's surroundings to run the theorems on.
pub mod Service
pub mod Methods
pub mod Decisions
pub mod Rules
pub mod Deliveries
pub mod Schedules
pub mod Incidents
pub mod Graphs
use Prim.Native.String.{◌++◌ as joined}
use real_ming.Base.{ℕ, suc, length, String, true, false, none, some, List, [], ◌∷◌, decimal}
use real_ming.Contracts.Kinds.{
  WorkItemState, coo, cto, ming_creatives, write, reversible, RiskClass, code_promotion, granted,
  complete, accountable,
}
use real_ming.Contracts.Records.{
  action, RequestedAction, Approval, StandingAuthority, NormalizedCeoAction, ceo_set, WorkItem,
  CeoReviewRequest, AuditEvent, WorkerEffect, OutcomeReport,
}
use real_ming.Store.Database.{empty_database, ok}
use real_ming.Gateway.World.{Environment, World, receipt, broken}

-- A gateway whose worker and verifier do what they are asked, and whose payloads carry no secret.
abbrev pub surroundings : Environment
surroundings = record {
  clock = λ n. joined "2026-01-01T00:00:" (decimal n);
  uuid = λ n. joined "id-" (decimal n);
  carries_secret = λ j. false;
  sensitive_fields = λ p. [];
  classify = λ c. action;
  answer = λ n c. ok "an answer";
  execute = λ n effect. receipt (record { effect = effect; evidence = [] });
  verify = λ n r expected effect. true;
  project = none;
}

-- The same, with a worker that always fails.
abbrev pub idle_surroundings : Environment
idle_surroundings = record surroundings { execute = λ n effect. broken }

-- Audit rows with the numbers 1, 2, 3, ...
abbrev pub numbered : List AuditEvent → ℕ
numbered events = suc (length events)

abbrev pub ceo_action : NormalizedCeoAction
ceo_action = record {
  actor_id = "ceo:ming";
  workspace_id = "workspace";
  idempotency_key = "command-1";
  intent = "Ship the release";
  expected_effect = record { kind = "release"; value = "1.0" };
  accountable_executive = none;
  workstream = none;
  collaborating_executives = [];
}

abbrev pub item_in : WorkItemState → WorkItem
item_in state = record {
  id = "id-0";
  actor_id = "ceo:ming";
  workspace_id = "workspace";
  idempotency_key = "command-1";
  intent = "Ship the release";
  expected_effect = record { kind = "release"; value = "1.0" };
  accountable_executive = coo;
  workstream = none;
  collaborating_executives = [];
  confirmed_commitment = some (ceo_set "by Friday" "ceo:ming" "2026-01-01");
  proposed_commitment = none;
  priority = none;
  state = state;
  created_at = "2026-01-01";
  updated_at = "2026-01-01";
}

abbrev pub effect_of_item : WorkerEffect
effect_of_item = record {
  work_item_id = "id-0";
  executive = coo;
  authority = accountable;
  idempotency_key = "workspace:command-1:effect";
  kind = "release";
  value = "1.0";
}

abbrev pub report_of_item : OutcomeReport
report_of_item = record {
  id = "report-1";
  work_item_id = "id-0";
  revision = 1;
  requested_intent = "Ship the release";
  completed_effect = effect_of_item;
  verification = record { reference = "workspace:command-1:effect" };
  remaining_risks = [];
  required_decisions = [];
  created_at = "2026-01-01";
}

-- A world with the Work Item in a state, and with these Outcome Reports.
abbrev pub world_with : WorkItemState → List OutcomeReport → World
world_with state reports = record {
  database = record (empty_database numbered) {
    work_items = item_in state ∷ [];
    outcome_reports = reports;
  };
  ticks = 0;
  draws = 0;
  calls = 0;
  told = [];
}

abbrev pub review_by : String → CeoReviewRequest
review_by actor = record {
  work_item_id = "id-0";
  actor_id = actor;
  decision = complete;
  reason = "";
}

abbrev pub promotion : RequestedAction
promotion = record {
  work_item_id = "id-0";
  executive = cto;
  trust_domain = ming_creatives;
  operation = write;
  reversibility = reversible;
  risk_class = RiskClass.low;
  scope = some code_promotion;
  capability = none;
  target = some (record { kind = "branch"; identity = "main"; version = "1.0" });
  payload = none;
}

abbrev pub approval_of_promotion : Approval
approval_of_promotion = record {
  id = "approval-1";
  work_item_id = "id-0";
  actor_id = some "ceo:ming";
  scope = code_promotion;
  target_type = "branch";
  target_identity = "main";
  target_version = "1.0";
  risk_class = RiskClass.low;
  requested_at = "2026-01-01";
  decided_at = some "2026-01-02";
  expires_at = some "2026-02-01";
  state = granted;
}

abbrev pub authority_over_branches : StandingAuthority
authority_over_branches = record {
  id = "authority-1";
  granted_by_actor_id = "ceo:ming";
  executive = cto;
  trust_domain = ming_creatives;
  target_type = "branch";
  expires_at = "2026-02-01";
  granted_at = "2026-01-01";
}
