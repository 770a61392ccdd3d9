-- ===== src/Gateway/Decisions/Steps.antt =====
-- src/operations/operations-gateway.ts: what a decision on a requested action, and a grant, commit.
use real_ming.Base.{
  String, Bool, true, false, if◌then◌else◌, ◌≡◌, ◌==◌, Option, none, some, List, [], ◌∷◌, refl,
}
use real_ming.Contracts.Kinds.{
  ApprovalScope, ApprovalRequiredReason, WorkItemState_eq, ApprovalState_eq, awaiting_approval,
  requested, policy_permitted, policy_denied,
}
use real_ming.Contracts.Json.{Details}
use real_ming.Contracts.Records.{
  ActionTarget, RequestedAction, Approval, GrantApprovalRequest, GrantStandingAuthorityRequest,
  WorkItem,
}
use real_ming.Policy.{
  PolicyOutcome, automatic_baseline, capability_not_grantable, standing_authority, approval,
  approval_needed,
}
use real_ming.Store.Notes.{record_policy_decision}
use real_ming.Store.Steps.{state_after}
use real_ming.Store.Steps.Rules.{Reaches-noted}
use real_ming.Store.Steps.Approvals.{
  request_approval-Reaches, grant_approval-Reaches, invalidate_approval-Reaches,
  record_standing_authority-Reaches,
}
use real_ming.Gateway.World.{Environment}
use real_ming.Gateway.Rules.{
  Runs, Runs-pure, Runs-throw, Runs-read, Runs-now, Runs-random_uuid, Runs-bind, Runs-transaction,
  Runs-if,
}
use real_ming.Gateway.Publish.Steps.{require_work_item-Runs, publish-Runs, advance_work_item-Runs}
use real_ming.Gateway.Decisions.{
  PolicyDecision, is_ceo_actor, record_decision, invalidate, stage, ask_approval, need_approval,
  decide, inspected, request_action, grant_found, grant, grant_standing_authority,
  stage_work_item_for_approval,
}

decision_silent :
    (permitted : Bool) → state_after (if permitted then policy_permitted else policy_denied) ≡ none
decision_silent true = refl
decision_silent false = refl

module _ (env : Environment) where
  record_decision-Runs :
      (id : String) (permitted : Bool) (details : Details) (decision : PolicyDecision)
      → Runs (record_decision env id permitted details decision)
  unfolding record_decision record_policy_decision
  record_decision-Runs id permitted details decision = Runs-bind (Runs-now env) λ at.
      Runs-bind (Runs-transaction λ t. Reaches-noted t _ _ _ at _ (decision_silent permitted))
        λ u. Runs-pure decision

  invalidate-Runs :
      (old : Option Approval) (reason : ApprovalRequiredReason) (target : ActionTarget)
      → Runs (invalidate env old reason target)
  unfolding invalidate
  invalidate-Runs none reason target = Runs-pure tt
  invalidate-Runs (some old) reason target =
      Runs-bind (Runs-now env)
        λ at. Runs-transaction λ t. invalidate_approval-Reaches env.carries_secret t old.id _ _ at

  stage-Runs : (item : WorkItem) → Runs (stage env item)
  unfolding stage
  stage-Runs item =
      Runs-if (item.state == awaiting_approval) (Runs-pure item)
        (advance_work_item-Runs env item awaiting_approval _)

  ask_approval-Runs :
      (action : RequestedAction) (item : WorkItem) (reason : ApprovalRequiredReason)
      (old : Option Approval) (scope : ApprovalScope) (target : ActionTarget)
      → Runs (ask_approval env action item reason old scope target)
  unfolding ask_approval
  ask_approval-Runs action item reason old scope target =
      Runs-bind (invalidate-Runs old reason target) λ u. Runs-bind (stage-Runs item) λ v.
        Runs-bind (Runs-random_uuid env) λ id. Runs-bind (Runs-now env) λ at.
          Runs-bind (Runs-transaction λ t. request_approval-Reaches env.carries_secret t id _ at)
            λ asked.
              Runs-bind (require_work_item-Runs item.id)
                λ staged. Runs-bind (publish-Runs env staged) λ x. Runs-pure _

  need_approval-Runs :
      (action : RequestedAction) (item : WorkItem) (reason : ApprovalRequiredReason)
      (old : Option Approval) (scope : Option ApprovalScope) (target : Option ActionTarget)
      → Runs (need_approval env action item reason old scope target)
  unfolding need_approval
  need_approval-Runs action item reason old (some scope) (some target) =
      ask_approval-Runs action item reason old scope target
  need_approval-Runs action item reason old none target = record_decision-Runs item.id _ _ _
  need_approval-Runs action item reason old (some scope) none = record_decision-Runs item.id _ _ _

  decide-Runs :
      (action : RequestedAction) (item : WorkItem) (outcome : PolicyOutcome)
      → Runs (decide env action item outcome)
  unfolding decide
  decide-Runs action item (capability_not_grantable c) = record_decision-Runs item.id _ _ _
  decide-Runs action item automatic_baseline = record_decision-Runs item.id _ _ _
  decide-Runs action item (standing_authority s) = record_decision-Runs item.id _ _ _
  decide-Runs action item (approval a) = record_decision-Runs item.id _ _ _
  decide-Runs action item (approval_needed reason old) =
      need_approval-Runs action item reason old action.scope action.target

  inspected-Runs :
      (action : RequestedAction) (item : WorkItem) (names : List String)
      → Runs (inspected env action item names)
  unfolding inspected
  inspected-Runs action item (name ∷ names) = record_decision-Runs item.id _ _ _
  inspected-Runs action item [] = Runs-bind (Runs-read _) λ authorities.
      Runs-bind (Runs-read _) λ approvals. Runs-bind (Runs-now env) λ at. decide-Runs action item _

  pub request_action-Runs : (action : RequestedAction) → Runs (request_action env action)
  unfolding request_action
  request_action-Runs action =
      Runs-bind (require_work_item-Runs action.work_item_id) λ item. inspected-Runs action item _

  grant_found-Runs :
      (request : GrantApprovalRequest) (found : Option Approval)
      → Runs (grant_found env request found)
  unfolding grant_found
  grant_found-Runs request none = Runs-throw _
  grant_found-Runs request (some a) =
      Runs-if (a.state == requested)
        (Runs-bind (Runs-now env)
          λ at. Runs-transaction λ t. grant_approval-Reaches env.carries_secret t _ _ _ at)
        (Runs-throw _)

  pub grant-Runs : (request : GrantApprovalRequest) → Runs (grant env request)
  unfolding grant
  grant-Runs request =
      Runs-if (is_ceo_actor request.actor_id) (Runs-bind (Runs-read _) (grant_found-Runs request))
        (Runs-throw _)

  pub grant_standing_authority-Runs :
      (request : GrantStandingAuthorityRequest) → Runs (grant_standing_authority env request)
  unfolding grant_standing_authority
  grant_standing_authority-Runs request =
      Runs-if (is_ceo_actor request.actor_id)
        (Runs-bind (Runs-now env) λ at.
          Runs-bind (Runs-random_uuid env)
            λ id. Runs-transaction λ t. record_standing_authority-Reaches t id request at)
        (Runs-throw _)

  pub stage_work_item_for_approval-Runs : (id : String) → Runs (stage_work_item_for_approval env id)
  unfolding stage_work_item_for_approval
  stage_work_item_for_approval-Runs id =
      Runs-bind (require_work_item-Runs id)
        λ item. Runs-bind (advance_work_item-Runs env item awaiting_approval _) (publish-Runs env)
