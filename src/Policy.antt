-- ===== src/Policy.antt =====
-- src/operations/policy-engine.ts: what decides whether a requested action may run.
pub mod Rules
pub mod Complete
pub mod Permits
use real_ming.Base.{
  String, Bool, false, not, ◌&&◌, ◌||◌, ◌==◌, if◌then◌else◌, text_leb, text_gtb, Option, none, some,
  List, [], ◌∷◌, find, select, exists, last, String_eq,
}
use real_ming.Contracts.Kinds.{
  ActionOperation, ActionOperation_eq, read, monitor, classify, summarize, draft,
  ProhibitedCapability, ProhibitedCapability_eq, money_movement, brokerage_trading,
  Reversibility_eq, reversible, RiskClass_eq, low, ExecutiveRole_eq, TrustDomain_eq, ApprovalScope,
  ApprovalScope_eq, ApprovalState_eq, granted, ApprovalRequiredReason, approval_required,
  approval_expired, standing_authority_required, standing_authority_expired, target_changed,
}
use real_ming.Contracts.Records.{ActionTarget, RequestedAction, Approval, StandingAuthority}

abbrev automatic_baseline_operations : List ActionOperation
automatic_baseline_operations = read ∷ monitor ∷ classify ∷ summarize ∷ draft ∷ []

abbrev prohibited_capabilities : List ProhibitedCapability
prohibited_capabilities = money_movement ∷ brokerage_trading ∷ []

pub data PolicyOutcome : Type 0 where
  automatic_baseline : PolicyOutcome
  capability_not_grantable : ProhibitedCapability → PolicyOutcome
  standing_authority : StandingAuthority → PolicyOutcome
  approval : Approval → PolicyOutcome
  -- the reason, and the approval that has become invalid
  approval_needed : ApprovalRequiredReason → Option Approval → PolicyOutcome

unfoldable pub is_automatic_baseline : ActionOperation → Bool
is_automatic_baseline operation = exists (λ o. o == operation) automatic_baseline_operations

unfoldable pub is_prohibited_capability : Option ProhibitedCapability → Bool
is_prohibited_capability none = false
is_prohibited_capability (some capability) = exists (λ c. c == capability) prohibited_capabilities

unfoldable pub requires_standing_authority : RequestedAction → Bool
requires_standing_authority action = action.reversibility == reversible && action.risk_class == low

-- `expected === action.target?.type`: false where there is no target.
abbrev pub is_target_type : String → Option ActionTarget → Bool
is_target_type expected none = false
is_target_type expected (some target) = expected == target.kind

abbrev pub is_target : String → String → Option ActionTarget → Bool
is_target kind identity none = false
is_target kind identity (some target) = kind == target.kind && identity == target.identity

abbrev pub is_scope : ApprovalScope → Option ApprovalScope → Bool
is_scope expected none = false
is_scope expected (some scope) = expected == scope

-- `expected === action.target?.version`
abbrev pub is_version : String → Option ActionTarget → Bool
is_version expected none = false
is_version expected (some target) = expected == target.version

-- `expiresAt !== null && expiresAt <= now`
abbrev pub is_past : Option String → String → Bool
is_past none now = false
is_past (some expires_at) now = text_leb expires_at now

unfoldable pub matches_standing_authority : RequestedAction → StandingAuthority → Bool
matches_standing_authority action authority =
    authority.executive == action.executive
    && authority.trust_domain == action.trust_domain
    && is_target_type authority.target_type action.target

unfoldable pub matches_approval_target : RequestedAction → Approval → Bool
matches_approval_target action a =
    is_scope a.scope action.scope && is_target a.target_type a.target_identity action.target

effective : String → Option Approval → Option Approval
effective now none = none
effective now (some standing) =
    if not (standing.state == granted) || is_past standing.expires_at now
    then none
    else some standing

unfoldable pub find_effective_approval : List Approval → String → Option Approval
unfolding effective
find_effective_approval approvals now = effective now (last approvals)

-- The branch of `evaluateAction` where a granted approval matches the target.
judge_approval : RequestedAction → String → Approval → PolicyOutcome
judge_approval action now found =
    if not (is_version found.target_version action.target)
    then approval_needed target_changed (some found)
    else if is_past found.expires_at now
    then approval_needed approval_expired (some found)
    else approval found

abbrev expired_or_missing : List StandingAuthority → ApprovalRequiredReason
expired_or_missing [] = standing_authority_required
expired_or_missing (_ ∷ _) = standing_authority_expired

-- The branch for a reversible action of low risk.
judge_standing : RequestedAction → List StandingAuthority → String → PolicyOutcome
judge_standing action authorities now =
    let matching = select (matches_standing_authority action) authorities in
    elim (find (λ authority. text_gtb authority.expires_at now) matching) [
      | some unexpired ↦ standing_authority unexpired
      | none ↦ approval_needed (expired_or_missing matching) none
    ]

-- The type guard `isProhibitedCapability`: the capability, where the guard holds.
prohibited : Option ProhibitedCapability → Option ProhibitedCapability
prohibited capability = if is_prohibited_capability capability then capability else none

unfoldable pub evaluate_action :
    RequestedAction → List StandingAuthority → List Approval → String → PolicyOutcome
unfolding is_automatic_baseline is_prohibited_capability requires_standing_authority judge_approval
    judge_standing prohibited
evaluate_action action authorities approvals now = elim (prohibited action.capability) [
  | some capability ↦ capability_not_grantable capability
  | none ↦
      if is_automatic_baseline action.operation
      then automatic_baseline
      else elim (find (λ a. a.state == granted && matches_approval_target action a) approvals) [
        | some found ↦ judge_approval action now found
        | none ↦
            if requires_standing_authority action
            then judge_standing action authorities now
            else approval_needed approval_required none
      ]
]
