-- ===== src/Contracts/Records.antt =====
-- src/operations/contracts.ts: the records. An optional or nullable field is an `Option`.
use real_ming.Base.{ℕ, String, List, Option}
use real_ming.Contracts.Kinds.{
  WorkItemState, ExecutiveRole, Workstream, TrustDomain, RiskClass, WorkItemPriority,
  ActionOperation, ApprovalScope, ProhibitedCapability, Reversibility, ApprovalState,
  MigratedWorkItemState, MigratedCommitmentProvenance, ReviewDecision, WorkerAuthority,
  AuditEventType,
}
use real_ming.Contracts.Json.{Details}

pub record ActionTarget : Type 0 where
  pub kind : String  -- `type`
  pub identity : String
  pub version : String

pub record RequestedAction : Type 0 where
  pub work_item_id : String
  pub executive : ExecutiveRole
  pub trust_domain : TrustDomain
  pub operation : ActionOperation
  pub reversibility : Reversibility
  pub risk_class : RiskClass
  pub scope : Option ApprovalScope
  pub capability : Option ProhibitedCapability
  pub target : Option ActionTarget
  pub payload : Option (List (String × String))

pub record Approval : Type 0 where
  pub id : String
  pub work_item_id : String
  pub actor_id : Option String
  pub scope : ApprovalScope
  pub target_type : String
  pub target_identity : String
  pub target_version : String
  pub risk_class : RiskClass
  pub requested_at : String
  pub decided_at : Option String
  pub expires_at : Option String
  pub state : ApprovalState

pub record GrantApprovalRequest : Type 0 where
  pub approval_id : String
  pub actor_id : String
  pub expires_at : String

pub record StandingAuthority : Type 0 where
  pub id : String
  pub granted_by_actor_id : String
  pub executive : ExecutiveRole
  pub trust_domain : TrustDomain
  pub target_type : String
  pub expires_at : String
  pub granted_at : String

pub record GrantStandingAuthorityRequest : Type 0 where
  pub actor_id : String
  pub executive : ExecutiveRole
  pub trust_domain : TrustDomain
  pub target_type : String
  pub expires_at : String

pub record CollaboratingExecutiveRequest : Type 0 where
  pub executive : ExecutiveRole
  pub contribution : String

-- The assignment's literal fields `contribute-only`, `false` and `false` have one value each.
pub record CollaboratingExecutiveAssignment : Type 0 where
  pub executive : ExecutiveRole
  pub contribution : String

pub record ExpectedEffect : Type 0 where
  pub kind : String
  pub value : String

pub record NormalizedCeoAction : Type 0 where
  pub actor_id : String
  pub workspace_id : String
  pub idempotency_key : String
  pub intent : String
  pub expected_effect : ExpectedEffect
  pub accountable_executive : Option ExecutiveRole
  pub workstream : Option Workstream
  pub collaborating_executives : List CollaboratingExecutiveRequest

pub record CeoCommand : Type 0 where
  pub actor_id : String
  pub workspace_id : String
  pub idempotency_key : String
  pub text : String
  pub expected_effect : Option ExpectedEffect
  pub addressed_executive : Option ExecutiveRole
  pub workstream : Option Workstream
  pub collaborating_executives : List CollaboratingExecutiveRequest

pub data CommandClassification : Type 0 where
  information_question action ambiguous : CommandClassification

-- `ConfirmedCommitment`: CEO-set, or sourced externally.
pub data ConfirmedCommitment : Type 0 where
  ceo_set : (value actor_id recorded_at : String) → ConfirmedCommitment
  externally_sourced :
      (value source_identity source_reference as_of recorded_at : String) → ConfirmedCommitment

pub record ProposedCommitment : Type 0 where
  pub value : String
  pub proposed_by : ExecutiveRole
  pub proposed_at : String

-- The parameter `ConfirmedCommitment | ProposedCommitment` of `recordCommitment`.
pub data Commitment : Type 0 where
  confirmed : ConfirmedCommitment → Commitment
  proposed : ProposedCommitment → Commitment

pub data CommitmentActor : Type 0 where
  ceo : (actor_id : String) → CommitmentActor
  external_source : (source_identity source_reference as_of : String) → CommitmentActor
  executive_role : ExecutiveRole → CommitmentActor

pub record RecordWorkItemCommitmentRequest : Type 0 where
  pub work_item_id : String
  pub value : String
  pub actor : CommitmentActor

pub record RecordWorkItemPriorityRequest : Type 0 where
  pub work_item_id : String
  pub priority : Option WorkItemPriority
  pub idempotency_key : String

pub record WorkItem : Type 0 where
  pub id : String
  pub actor_id : String
  pub workspace_id : String
  pub idempotency_key : String
  pub intent : String
  pub expected_effect : ExpectedEffect
  pub accountable_executive : ExecutiveRole
  pub workstream : Option Workstream
  pub collaborating_executives : List CollaboratingExecutiveAssignment
  pub confirmed_commitment : Option ConfirmedCommitment
  pub proposed_commitment : Option ProposedCommitment
  pub priority : Option WorkItemPriority
  pub state : WorkItemState
  pub created_at : String
  pub updated_at : String

pub record ImportMigratedWorkItemRequest : Type 0 where
  pub actor_id : String
  pub workspace_id : String
  pub source_reference : String
  pub intent : String
  pub lifecycle : MigratedWorkItemState
  pub workstream : Workstream
  pub accountable_executive : ExecutiveRole
  pub legacy_status : String
  pub commitment_provenance : MigratedCommitmentProvenance
  pub approval_reference : String

-- `reason` is not read when the decision is `complete`.
pub record CeoReviewRequest : Type 0 where
  pub work_item_id : String
  pub actor_id : String
  pub decision : ReviewDecision
  pub reason : String

pub record WorkerEffect : Type 0 where
  pub work_item_id : String
  pub executive : ExecutiveRole
  pub authority : WorkerAuthority
  pub idempotency_key : String
  pub kind : String
  pub value : String

pub record WorkerReceipt : Type 0 where
  pub effect : WorkerEffect
  pub evidence : List (String × String)

-- `status` is the literal "verified", and so is `evidence.kind`.
pub record EffectVerification : Type 0 where
  pub reference : String

pub record OutcomeReport : Type 0 where
  pub id : String
  pub work_item_id : String
  pub revision : ℕ
  pub requested_intent : String
  pub completed_effect : WorkerEffect
  pub verification : EffectVerification
  pub remaining_risks : List String
  pub required_decisions : List String
  pub created_at : String

pub record AuditEvent : Type 0 where
  pub sequence : ℕ
  pub work_item_id : String
  pub kind : AuditEventType  -- `type`
  pub occurred_at : String
  pub details : Details

pub record OperationsResult : Type 0 where
  pub work_item : WorkItem
  pub outcome_report : OutcomeReport
