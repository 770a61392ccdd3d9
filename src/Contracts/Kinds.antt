-- ===== src/Contracts/Kinds.antt =====
-- src/operations/contracts.ts: the closed vocabularies, each string union as a data type, with the
-- source's `===` on those that the code compares.
use real_ming.Base.{Eq, holds, holds_iff}

pub data WorkItemState : Type 0 where
  captured triaged planned awaiting_approval executing verifying waiting_blocked : WorkItemState
  ready_for_ceo_review changes_requested cancelled completed : WorkItemState

abbrev pub WorkItemState-discrete : Discrete WorkItemState
WorkItemState-discrete = hlevel

instance abbrev pub WorkItemState_eq : Eq WorkItemState
WorkItemState_eq = record {
  test = λ a b. holds (WorkItemState-discrete a b);
  test_iff = λ a b. holds_iff (WorkItemState-discrete a b);
}

pub data ExecutiveRole : Type 0 where
  coo cto personal_cfo cao cmo : ExecutiveRole

abbrev pub ExecutiveRole-discrete : Discrete ExecutiveRole
ExecutiveRole-discrete = hlevel

instance abbrev pub ExecutiveRole_eq : Eq ExecutiveRole
ExecutiveRole_eq = record {
  test = λ a b. holds (ExecutiveRole-discrete a b);
  test_iff = λ a b. holds_iff (ExecutiveRole-discrete a b);
}

pub data Workstream : Type 0 where
  personal_life career_job finance academic micro_saas content_creation : Workstream

pub data TrustDomain : Type 0 where
  personal ming_creatives academic entertainment finance : TrustDomain

abbrev pub TrustDomain-discrete : Discrete TrustDomain
TrustDomain-discrete = hlevel

instance abbrev pub TrustDomain_eq : Eq TrustDomain
TrustDomain_eq = record {
  test = λ a b. holds (TrustDomain-discrete a b);
  test_iff = λ a b. holds_iff (TrustDomain-discrete a b);
}

pub data RiskClass : Type 0 where
  low medium high : RiskClass

abbrev pub RiskClass-discrete : Discrete RiskClass
RiskClass-discrete = hlevel

instance abbrev pub RiskClass_eq : Eq RiskClass
RiskClass_eq = record {
  test = λ a b. holds (RiskClass-discrete a b);
  test_iff = λ a b. holds_iff (RiskClass-discrete a b);
}

pub data WorkItemPriority : Type 0 where
  low medium high critical : WorkItemPriority

abbrev pub WorkItemPriority-discrete : Discrete WorkItemPriority
WorkItemPriority-discrete = hlevel

instance abbrev pub WorkItemPriority_eq : Eq WorkItemPriority
WorkItemPriority_eq = record {
  test = λ a b. holds (WorkItemPriority-discrete a b);
  test_iff = λ a b. holds_iff (WorkItemPriority-discrete a b);
}

pub data ActionOperation : Type 0 where
  read monitor classify summarize draft write : ActionOperation

abbrev pub ActionOperation-discrete : Discrete ActionOperation
ActionOperation-discrete = hlevel

instance abbrev pub ActionOperation_eq : Eq ActionOperation
ActionOperation_eq = record {
  test = λ a b. holds (ActionOperation-discrete a b);
  test_iff = λ a b. holds_iff (ActionOperation-discrete a b);
}

pub data ApprovalScope : Type 0 where
  code_promotion database_migration production_data_change external_communication : ApprovalScope
  destructive_action permission_change purchase financial_record_change : ApprovalScope

abbrev pub ApprovalScope-discrete : Discrete ApprovalScope
ApprovalScope-discrete = hlevel

instance abbrev pub ApprovalScope_eq : Eq ApprovalScope
ApprovalScope_eq = record {
  test = λ a b. holds (ApprovalScope-discrete a b);
  test_iff = λ a b. holds_iff (ApprovalScope-discrete a b);
}

pub data ProhibitedCapability : Type 0 where
  money_movement brokerage_trading : ProhibitedCapability

abbrev pub ProhibitedCapability-discrete : Discrete ProhibitedCapability
ProhibitedCapability-discrete = hlevel

instance abbrev pub ProhibitedCapability_eq : Eq ProhibitedCapability
ProhibitedCapability_eq = record {
  test = λ a b. holds (ProhibitedCapability-discrete a b);
  test_iff = λ a b. holds_iff (ProhibitedCapability-discrete a b);
}

-- The field `reversibility` of `RequestedAction`.
pub data Reversibility : Type 0 where
  reversible irreversible : Reversibility

abbrev pub Reversibility-discrete : Discrete Reversibility
Reversibility-discrete = hlevel

instance abbrev pub Reversibility_eq : Eq Reversibility
Reversibility_eq = record {
  test = λ a b. holds (Reversibility-discrete a b);
  test_iff = λ a b. holds_iff (Reversibility-discrete a b);
}

pub data ApprovalRequiredReason : Type 0 where
  approval_required approval_expired standing_authority_required : ApprovalRequiredReason
  standing_authority_expired target_changed : ApprovalRequiredReason

abbrev pub ApprovalRequiredReason-discrete : Discrete ApprovalRequiredReason
ApprovalRequiredReason-discrete = hlevel

instance abbrev pub ApprovalRequiredReason_eq : Eq ApprovalRequiredReason
ApprovalRequiredReason_eq = record {
  test = λ a b. holds (ApprovalRequiredReason-discrete a b);
  test_iff = λ a b. holds_iff (ApprovalRequiredReason-discrete a b);
}

pub data ApprovalState : Type 0 where
  requested granted invalidated expired : ApprovalState

abbrev pub ApprovalState-discrete : Discrete ApprovalState
ApprovalState-discrete = hlevel

instance abbrev pub ApprovalState_eq : Eq ApprovalState
ApprovalState_eq = record {
  test = λ a b. holds (ApprovalState-discrete a b);
  test_iff = λ a b. holds_iff (ApprovalState-discrete a b);
}

pub data MigratedWorkItemState : Type 0 where
  captured planned waiting_blocked ready_for_ceo_review : MigratedWorkItemState

pub data MigratedCommitmentProvenance : Type 0 where
  none_in_source source_date ceo_set_date : MigratedCommitmentProvenance

-- The field `decision` of `CeoReviewRequest`.
pub data ReviewDecision : Type 0 where
  complete request_changes reject cancel : ReviewDecision

abbrev pub ReviewDecision-discrete : Discrete ReviewDecision
ReviewDecision-discrete = hlevel

instance abbrev pub ReviewDecision_eq : Eq ReviewDecision
ReviewDecision_eq = record {
  test = λ a b. holds (ReviewDecision-discrete a b);
  test_iff = λ a b. holds_iff (ReviewDecision-discrete a b);
}

-- The field `authority` of `WorkerEffect`.
pub data WorkerAuthority : Type 0 where
  accountable contribute_only : WorkerAuthority

-- The field `reason` of `WorkerUnavailableError`.
pub data UnavailableReason : Type 0 where
  private_worker_offline unsupported_capability lease_held deadline_expired : UnavailableReason
  retry_exhausted retry_deferred : UnavailableReason

-- The field `type` of `AuditEvent`.
pub data AuditEventType : Type 0 where
  work_item_captured work_item_triaged work_item_planned : AuditEventType
  work_item_awaiting_approval work_item_executing worker_effect_recorded : AuditEventType
  worker_effect_failed worker_effect_verification_failed work_item_verifying : AuditEventType
  work_item_waiting_blocked worker_effect_verified outcome_report_recorded : AuditEventType
  outcome_report_superseded work_item_ready_for_ceo_review work_item_completed : AuditEventType
  work_item_changes_requested work_item_cancelled work_item_transition_rejected : AuditEventType
  work_item_commitment_recorded work_item_commitment_rejected : AuditEventType
  work_item_priority_recorded policy_permitted policy_denied approval_requested : AuditEventType
  approval_granted approval_invalidated standing_authority_granted : AuditEventType
  provider_observed provider_recovered project_evidence_bound : AuditEventType
  project_evidence_served project_evidence_candidate_captured : AuditEventType
  personal_context_projection_served personal_context_raw_drilldown : AuditEventType
