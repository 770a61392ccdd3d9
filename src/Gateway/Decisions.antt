-- ===== src/Gateway/Decisions.antt =====
-- src/operations/operations-gateway.ts: the methods that decide on requested actions, and the CEO's
-- grants.
pub mod Steps
pub mod Grants
pub mod Grounds
use real_ming.Base.{
  String, Bool, true, false, ◌==◌, if◌then◌else◌, starts_with, Option, none, some, List, [], ◌∷◌,
}
use real_ming.Contracts.Kinds.{
  awaiting_approval, WorkItemState_eq, ApprovalScope, ProhibitedCapability, RiskClass,
  ApprovalRequiredReason, ApprovalRequiredReason_eq, approval_expired, invalidated, expired,
  ApprovalState, ApprovalState_eq, requested,
}
use real_ming.Contracts.Names.{operation_text, capability_text, scope_text, reason_text}
use real_ming.Contracts.Json.{Json, text, array, items, Details}
use real_ming.Contracts.Records.{
  ActionTarget, RequestedAction, Approval, StandingAuthority, GrantApprovalRequest,
  GrantStandingAuthorityRequest, WorkItem,
}
use real_ming.Policy.{
  PolicyOutcome, automatic_baseline, capability_not_grantable, standing_authority, approval,
  approval_needed, evaluate_action,
}
use real_ming.Store.Database.{ceo_only, approval_unknown, only_requested_approval}
use real_ming.Store.Sql
use real_ming.Store.Notes.{record_policy_decision}
use real_ming.Store.Approvals.{
  approvals_of, standing_authorities, request_approval, grant_approval, invalidate_approval,
  record_standing_authority,
}
use real_ming.Gateway.World.{
  Environment, M, pure, throw, ◌>>=◌, ◌>>◌, transaction, read, now, random_uuid,
}
use real_ming.Gateway.Publish.{require_work_item, publish, advance_work_item}

-- src/operations/actor-identity.ts
unfoldable pub is_ceo_actor : String → Bool
is_ceo_actor actor = starts_with actor "ceo:"

-- `PolicyDecision`
pub data PolicyDecision : Type 0 where
  permitted_by_baseline : PolicyDecision
  permitted_by_standing_authority : (id : String) → PolicyDecision
  permitted_by_approval : (id : String) → PolicyDecision
  approval_asked :
      (id : String)
      → ApprovalScope
      → ActionTarget
      → RiskClass
      → ApprovalRequiredReason
      → PolicyDecision
  denied_capability : ProhibitedCapability → PolicyDecision
  denied_secret : List String → PolicyDecision
  denied_target : PolicyDecision

abbrev operation : RequestedAction → String × Json
operation action = ("operation", text (operation_text action.operation))

field_texts : List String → List Json
field_texts [] = []
field_texts (s ∷ ss) = text s ∷ field_texts ss

-- Whether the approval that no longer serves has expired, or its target has changed.
abbrev invalid_state : ApprovalRequiredReason → ApprovalState
invalid_state reason = if reason == approval_expired then expired else invalidated

abbrev invalid_reason : ApprovalRequiredReason → String
invalid_reason reason = if reason == approval_expired then "approval-expired" else "target-changed"

module _ (env : Environment) where
  -- The decision is recorded, and returned.
  record_decision : String → Bool → Details → PolicyDecision → M PolicyDecision
  record_decision id permitted details decision = do
    at ← now env
    transaction (record_policy_decision env.carries_secret id permitted details at)
    pure decision

  invalidate : Option Approval → ApprovalRequiredReason → ActionTarget → M (Unit {0})
  invalidate none reason target = pure tt
  invalidate (some old) reason target = do
    at ← now env
    transaction (
        invalidate_approval env.carries_secret old.id (invalid_state reason)
          (("reason", text (invalid_reason reason))
            ∷ ("approvedVersion", text old.target_version)
            ∷ ("requestedVersion", text target.version)
            ∷ [])
          at)

  stage : WorkItem → M WorkItem
  stage item =
      if item.state == awaiting_approval
      then pure item
      else advance_work_item env item awaiting_approval "approval-staging-not-permitted"

  -- The end of `requestAction`: the Approval is asked for.
  ask_approval :
      RequestedAction
      → WorkItem
      → ApprovalRequiredReason
      → Option Approval
      → ApprovalScope
      → ActionTarget
      → M PolicyDecision
  ask_approval action item reason old scope target = do
    invalidate old reason target
    stage item
    id ← random_uuid env
    at ← now env
    asked ← transaction (
        request_approval env.carries_secret id
          (record {
            work_item_id = item.id;
            scope = scope;
            target_type = target.kind;
            target_identity = target.identity;
            target_version = target.version;
            risk_class = action.risk_class;
            reason = reason_text reason;
          })
          at)
    staged ← require_work_item item.id
    publish env staged
    pure (approval_asked asked.id scope target action.risk_class reason)

  need_approval :
      RequestedAction
      → WorkItem
      → ApprovalRequiredReason
      → Option Approval
      → Option ApprovalScope
      → Option ActionTarget
      → M PolicyDecision
  need_approval action item reason old (some scope) (some target) =
      ask_approval action item reason old scope target
  need_approval action item reason old _ _ =
      record_decision item.id false
        (("reason", text "approval-target-required") ∷ operation action ∷ []) denied_target

  -- What follows from the policy's outcome.
  decide : RequestedAction → WorkItem → PolicyOutcome → M PolicyDecision
  decide action item (capability_not_grantable capability) =
      record_decision item.id false
        (("reason", text "capability-not-grantable")
          ∷ ("capability", text (capability_text capability))
          ∷ operation action
          ∷ [])
        (denied_capability capability)
  decide action item automatic_baseline =
      record_decision item.id true (("basis", text "automatic-baseline") ∷ operation action ∷ [])
        permitted_by_baseline
  decide action item (standing_authority s) =
      record_decision item.id true
        (("basis", text "standing-authority")
          ∷ operation action
          ∷ ("standingAuthorityId", text s.id)
          ∷ [])
        (permitted_by_standing_authority s.id)
  decide action item (approval a) =
      record_decision item.id true
        (("basis", text "approval")
          ∷ operation action
          ∷ ("approvalId", text a.id)
          ∷ ("scope", text (scope_text a.scope))
          ∷ ("targetType", text a.target_type)
          ∷ ("targetIdentity", text a.target_identity)
          ∷ ("targetVersion", text a.target_version)
          ∷ [])
        (permitted_by_approval a.id)
  decide action item (approval_needed reason old) =
      need_approval action item reason old action.scope action.target

  -- The branch of `requestAction` where the payload has sensitive fields, and the other one.
  inspected : RequestedAction → WorkItem → List String → M PolicyDecision
  inspected action item (name ∷ names) =
      record_decision item.id false
        (("reason", text "sensitive-secret-rejected")
          ∷ operation action
          ∷ ("sensitiveFields", array (items (field_texts (name ∷ names))))
          ∷ [])
        (denied_secret (name ∷ names))
  inspected action item [] = do
    authorities ← read standing_authorities
    approvals ← read (approvals_of item.id)
    at ← now env
    decide action item (evaluate_action action authorities approvals at)

  unfoldable pub request_action : RequestedAction → M PolicyDecision
  unfolding inspected decide need_approval ask_approval stage invalidate record_decision field_texts
  request_action action = do
    item ← require_work_item action.work_item_id
    inspected action item (env.sensitive_fields action.payload)

  grant_found : GrantApprovalRequest → Option Approval → M Approval
  grant_found request none = throw approval_unknown
  grant_found request (some a) =
      if a.state == requested
      then (do
        at ← now env
        transaction (
            grant_approval env.carries_secret request.approval_id request.actor_id
              request.expires_at at))
      else throw only_requested_approval

  -- The method `grantApproval`.
  unfoldable pub grant : GrantApprovalRequest → M Approval
  unfolding grant_found
  grant request =
      if is_ceo_actor request.actor_id
      then (do a ← read (Sql.approval request.approval_id); grant_found request a)
      else throw ceo_only

  unfoldable pub grant_standing_authority : GrantStandingAuthorityRequest → M StandingAuthority
  grant_standing_authority request =
      if is_ceo_actor request.actor_id
      then (do
        at ← now env
        id ← random_uuid env
        transaction (record_standing_authority id request at))
      else throw ceo_only

  -- `stageWorkItemForApproval`, published.
  unfoldable pub stage_work_item_for_approval : String → M WorkItem
  stage_work_item_for_approval id = do
    item ← require_work_item id
    staged ← advance_work_item env item awaiting_approval "approval-staging-not-permitted"
    publish env staged
