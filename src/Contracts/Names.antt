-- ===== src/Contracts/Names.antt =====
-- src/operations/contracts.ts: the strings that the vocabularies stand for.
use real_ming.Base.{String}
use real_ming.Contracts.Kinds.{
  WorkItemState, ExecutiveRole, Workstream, RiskClass, WorkItemPriority, ActionOperation,
  ApprovalScope, ProhibitedCapability, ApprovalRequiredReason, ApprovalState,
  MigratedCommitmentProvenance, ReviewDecision, WorkerAuthority, UnavailableReason,
}

pub state_text : WorkItemState → String
state_text WorkItemState.captured = "Captured"
state_text WorkItemState.triaged = "Triaged"
state_text WorkItemState.planned = "Planned"
state_text WorkItemState.awaiting_approval = "Awaiting Approval"
state_text WorkItemState.executing = "Executing"
state_text WorkItemState.verifying = "Verifying"
state_text WorkItemState.waiting_blocked = "Waiting/Blocked"
state_text WorkItemState.ready_for_ceo_review = "Ready for CEO Review"
state_text WorkItemState.changes_requested = "Changes Requested"
state_text WorkItemState.cancelled = "Cancelled"
state_text WorkItemState.completed = "Completed"

pub executive_text : ExecutiveRole → String
executive_text ExecutiveRole.coo = "COO"
executive_text ExecutiveRole.cto = "CTO"
executive_text ExecutiveRole.personal_cfo = "Personal CFO"
executive_text ExecutiveRole.cao = "CAO"
executive_text ExecutiveRole.cmo = "CMO"

pub workstream_text : Workstream → String
workstream_text Workstream.personal_life = "Personal Life"
workstream_text Workstream.career_job = "Career Job"
workstream_text Workstream.finance = "Finance"
workstream_text Workstream.academic = "Academic"
workstream_text Workstream.micro_saas = "MicroSaaS"
workstream_text Workstream.content_creation = "Content Creation"

pub risk_class_text : RiskClass → String
risk_class_text RiskClass.low = "low"
risk_class_text RiskClass.medium = "medium"
risk_class_text RiskClass.high = "high"

unfoldable pub priority_text : WorkItemPriority → String
priority_text WorkItemPriority.low = "Low"
priority_text WorkItemPriority.medium = "Medium"
priority_text WorkItemPriority.high = "High"
priority_text WorkItemPriority.critical = "Critical"

pub operation_text : ActionOperation → String
operation_text ActionOperation.read = "read"
operation_text ActionOperation.monitor = "monitor"
operation_text ActionOperation.classify = "classify"
operation_text ActionOperation.summarize = "summarize"
operation_text ActionOperation.draft = "draft"
operation_text ActionOperation.write = "write"

pub scope_text : ApprovalScope → String
scope_text ApprovalScope.code_promotion = "code-promotion"
scope_text ApprovalScope.database_migration = "database-migration"
scope_text ApprovalScope.production_data_change = "production-data-change"
scope_text ApprovalScope.external_communication = "external-communication"
scope_text ApprovalScope.destructive_action = "destructive-action"
scope_text ApprovalScope.permission_change = "permission-change"
scope_text ApprovalScope.purchase = "purchase"
scope_text ApprovalScope.financial_record_change = "financial-record-change"

pub capability_text : ProhibitedCapability → String
capability_text ProhibitedCapability.money_movement = "money-movement"
capability_text ProhibitedCapability.brokerage_trading = "brokerage-trading"

pub reason_text : ApprovalRequiredReason → String
reason_text ApprovalRequiredReason.approval_required = "approval-required"
reason_text ApprovalRequiredReason.approval_expired = "approval-expired"
reason_text ApprovalRequiredReason.standing_authority_required = "standing-authority-required"
reason_text ApprovalRequiredReason.standing_authority_expired = "standing-authority-expired"
reason_text ApprovalRequiredReason.target_changed = "target-changed"

pub approval_state_text : ApprovalState → String
approval_state_text ApprovalState.requested = "requested"
approval_state_text ApprovalState.granted = "granted"
approval_state_text ApprovalState.invalidated = "invalidated"
approval_state_text ApprovalState.expired = "expired"

pub provenance_text : MigratedCommitmentProvenance → String
provenance_text MigratedCommitmentProvenance.none_in_source = "none-in-source"
provenance_text MigratedCommitmentProvenance.source_date = "source-date"
provenance_text MigratedCommitmentProvenance.ceo_set_date = "ceo-set-date"

pub decision_text : ReviewDecision → String
decision_text ReviewDecision.complete = "complete"
decision_text ReviewDecision.request_changes = "request-changes"
decision_text ReviewDecision.reject = "reject"
decision_text ReviewDecision.cancel = "cancel"

pub authority_text : WorkerAuthority → String
authority_text WorkerAuthority.accountable = "accountable"
authority_text WorkerAuthority.contribute_only = "contribute-only"

pub unavailable_text : UnavailableReason → String
unavailable_text UnavailableReason.private_worker_offline = "private-worker-offline"
unavailable_text UnavailableReason.unsupported_capability = "unsupported-capability"
unavailable_text UnavailableReason.lease_held = "lease-held"
unavailable_text UnavailableReason.deadline_expired = "deadline-expired"
unavailable_text UnavailableReason.retry_exhausted = "retry-exhausted"
unavailable_text UnavailableReason.retry_deferred = "retry-deferred"
