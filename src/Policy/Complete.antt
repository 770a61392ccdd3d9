-- ===== src/Policy/Complete.antt =====
-- src/operations/policy-engine.ts: what is enough for the policy to permit an action, and what it
-- answers where nothing permits it.
use real_ming.Base.{
  String, String_eq, true, ◌&&◌, ◌==◌, ◌≡◌, ◌≢◌, text_gtb, none, some, List, find, find_of_Mem,
  select, Mem-select, arith, test_self,
}
use mathlib.Core.List.{Memᴰ}
use real_ming.Contracts.Kinds.{
  write, reversible, low, granted, ApprovalState_eq, ExecutiveRole_eq, TrustDomain_eq,
}
use real_ming.Contracts.Records.{RequestedAction, Approval, StandingAuthority}
use real_ming.Policy.{
  automatic_baseline, standing_authority, matches_standing_authority, matches_approval_target,
  evaluate_action,
}
use real_ming.Policy.Rules.{Authorizes}

-- An operation other than a write is permitted at once, if no prohibited capability is asked for.
pub evaluate_action-baseline :
    (action : RequestedAction) (authorities : List StandingAuthority) (approvals : List Approval)
    (now : String)
    → action.capability ≡ none
    → action.operation ≢ write
    → evaluate_action action authorities approvals now ≡ automatic_baseline
unfolding evaluate_action
evaluate_action-baseline action authorities approvals now c w = ground arith

Authorizes-matches_standing_authority :
    (action : RequestedAction) (now : String) (s : StandingAuthority)
    → Authorizes action now s
    → matches_standing_authority action s ≡ true
unfolding matches_standing_authority
Authorizes-matches_standing_authority action now s h =
    let (target, given, kind) = h.same_type in
    rw (
      h.same_executive,
      h.same_domain,
      given,
      kind,
      test_self action.executive,
      test_self action.trust_domain,
      test_self target.kind,
    )

-- The scan of `evaluateAction` for a granted Approval of the action's target finds none.
abbrev pub LacksApproval : RequestedAction → List Approval → Type 0
LacksApproval action approvals =
    find (λ a. a.state == granted && matches_approval_target action a) approvals ≡ none

judged_standing :
    (action : RequestedAction) (authorities : List StandingAuthority) (approvals : List Approval)
    (now : String) (s : StandingAuthority)
    → action.capability ≡ none
    → action.operation ≡ write
    → action.reversibility ≡ reversible
    → action.risk_class ≡ low
    → LacksApproval action approvals
    → find (λ t. text_gtb t.expires_at now) (select (matches_standing_authority action) authorities)
      ≡ some s
    → evaluate_action action authorities approvals now ≡ standing_authority s
unfolding evaluate_action
judged_standing action authorities approvals now s c w r l n f = ground arith

-- A reversible write of low risk that asks for no prohibited capability, and for which there is no granted
-- Approval of its scope and target, is permitted, by Standing Authority, as soon as one of the
-- authorities given authorizes it.
pub evaluate_action_authorized :
    (action : RequestedAction) (authorities : List StandingAuthority) (approvals : List Approval)
    (now : String) (s : StandingAuthority)
    → action.capability ≡ none
    → action.operation ≡ write
    → action.reversibility ≡ reversible
    → action.risk_class ≡ low
    → LacksApproval action approvals
    → Memᴰ s authorities
    → Authorizes action now s
    → (t : StandingAuthority) × (evaluate_action action authorities approvals now
        ≡ standing_authority t)
evaluate_action_authorized action authorities approvals now s c w r l n m h =
    let matching = matches_standing_authority action in
    let later = λ (t : StandingAuthority). text_gtb t.expires_at now in
    let among =
      Mem-select matching authorities m (Authorizes-matches_standing_authority action now s h) in
    let (t, found) = find_of_Mem later (select matching authorities) among (ground arith) in
    (t, judged_standing action authorities approvals now t c w r l n found)
