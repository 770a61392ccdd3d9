-- ===== src/Policy/Permits.antt =====
-- src/operations/policy-engine.ts: an action may run if and only if there is a ground for it.
use real_ming.Base.{
  String, String_eq, Bool, true, false, ◌&&◌, ◌==◌, ◌≡◌, ◌≢◌, ◌↔◌, refl, ap, ◌∙◌, none, some, List,
  find, arith, test_self, eq_test, Bool-cases, inl, inr,
}
use mathlib.Core.List.{Memᴰ}
use real_ming.Contracts.Kinds.{
  write, reversible, low, granted, ActionOperation_eq, ApprovalState_eq,
}
use real_ming.Contracts.Records.{RequestedAction, Approval, StandingAuthority}
use real_ming.Policy.{
  PolicyOutcome, automatic_baseline, capability_not_grantable, standing_authority, approval,
  approval_needed, is_version, is_past, matches_approval_target, evaluate_action,
}
use real_ming.Policy.Rules.{
  Covers, Authorizes, evaluate_action-approval, evaluate_action-standing_authority,
}
use real_ming.Policy.Complete.{LacksApproval, evaluate_action-baseline, evaluate_action_authorized}

-- The answers that let an action run.
abbrev pub permits : PolicyOutcome → Bool
permits automatic_baseline = true
permits (standing_authority s) = true
permits (approval a) = true
permits _ = false

-- What may justify an action: that it is no write; that the first granted Approval of its scope and
-- target covers it; or, for a reversible write of low risk without a granted Approval, a Standing Authority.
pub data Ground (action : RequestedAction) (authorities : List StandingAuthority)
    (approvals : List Approval) (now : String) : Type 0 where
  no_write : action.operation ≢ write → Ground action authorities approvals now
  covered :
      (a : Approval)
      → find (λ b. b.state == granted && matches_approval_target action b) approvals ≡ some a
      → Covers action now a
      → Ground action authorities approvals now
  authorized :
      (s : StandingAuthority)
      → action.reversibility ≡ reversible
      → action.risk_class ≡ low
      → LacksApproval action approvals
      → Memᴰ s authorities
      → Authorizes action now s
      → Ground action authorities approvals now

module _ (action : RequestedAction) (authorities : List StandingAuthority)
    (approvals : List Approval) (now : String) where
  baseline_facts :
      evaluate_action action authorities approvals now ≡ automatic_baseline
      → (action.capability ≡ none) × (action.operation ≢ write)
  unfolding evaluate_action
  baseline_facts e = ground arith

  first_of_approval :
      (a : Approval)
      → evaluate_action action authorities approvals now ≡ approval a
      → find (λ b. b.state == granted && matches_approval_target action b) approvals ≡ some a
  unfolding evaluate_action
  first_of_approval a e = ground arith

  standing_lacks :
      (s : StandingAuthority)
      → evaluate_action action authorities approvals now ≡ standing_authority s
      → LacksApproval action approvals
  unfolding evaluate_action
  standing_lacks s e = ground arith

  justified :
      (o : PolicyOutcome)
      → evaluate_action action authorities approvals now ≡ o
      → permits o ≡ true
      → (action.capability ≡ none) × Ground action authorities approvals now
  justified automatic_baseline e p = let (free, other) = baseline_facts e in (free, no_write other)
  justified (approval a) e p =
      let (free, writes, there, covers) =
        evaluate_action-approval action authorities approvals now a e in
      (free, covered a (first_of_approval a e) covers)
  justified (standing_authority s) e p =
      let (free, writes, undone, harmless, there, h) =
        evaluate_action-standing_authority action authorities approvals now s e in
      (free, authorized s undone harmless (standing_lacks s e) there h)
  justified (capability_not_grantable c) e p = cc
  justified (approval_needed r o) e p = cc

  covered_runs :
      (a : Approval)
      → action.capability ≡ none
      → find (λ b. b.state == granted && matches_approval_target action b) approvals ≡ some a
      → is_version a.target_version action.target ≡ true
      → is_past a.expires_at now ≡ false
      → permits (evaluate_action action authorities approvals now) ≡ true
  unfolding evaluate_action
  covered_runs a free found version fresh = ground arith

  runs :
      action.capability ≡ none
      → Ground action authorities approvals now
      → permits (evaluate_action action authorities approvals now) ≡ true
  runs free (no_write other) =
      ap permits (evaluate_action-baseline action authorities approvals now free other)
  runs free (covered a found h) =
      let version : is_version a.target_version action.target ≡ true =
        ap (is_version a.target_version) h.same_target ∙ test_self a.target_version in
      covered_runs a free found version h.unexpired
  runs free (authorized s undone harmless lacks there h) =
      elim (Bool-cases (action.operation == write)) [
        | inl t ↦
            let (by_s, e) =
              evaluate_action_authorized action authorities approvals now s free (eq_test _ _ t)
                undone harmless lacks there h in
            ap permits e
        | inr f ↦
            let other : action.operation ≢ write = ground arith in
            ap permits (evaluate_action-baseline action authorities approvals now free other)
      ]

  -- The policy lets an action run if and only if it asks for no prohibited capability and one of the
  -- grounds holds: it is no write, or the first granted Approval of its scope and target has the
  -- target's version and is not expired, or there is no such Approval, the write is reversible and of low
  -- risk, and an unexpired Standing Authority of its executive, trust domain and target type is given.
  pub evaluate_action-Ground :
      (permits (evaluate_action action authorities approvals now) ≡ true)
      ↔ ((action.capability ≡ none) × Ground action authorities approvals now)
  evaluate_action-Ground = (justified _ refl, λ p. let (free, g) = p in runs free g)
