-- ===== src/Gateway/Decisions/Grounds.antt =====
-- src/operations/operations-gateway.ts: what a permission to act rests on.
use real_ming.Base.{String, Bool, true, ◌≡◌, refl, subst, Option, none, some, List, [], ◌∷◌, arith}
use mathlib.Core.List.{Memᴰ}
use real_ming.Contracts.Kinds.{ApprovalScope, ApprovalRequiredReason}
use real_ming.Contracts.Json.{Details}
use real_ming.Contracts.Records.{
  ActionTarget, RequestedAction, Approval, StandingAuthority, WorkItem,
}
use real_ming.Policy.{
  PolicyOutcome, automatic_baseline, capability_not_grantable, standing_authority, approval,
  approval_needed, is_automatic_baseline, evaluate_action,
}
use real_ming.Policy.Rules.{
  Covers, Authorizes, evaluate_action-approval, evaluate_action-standing_authority,
}
use real_ming.Store.Database.{Database}
use real_ming.Store.Sql.{work_item}
use real_ming.Store.Approvals.{approvals_of, standing_authorities}
use real_ming.Gateway.World.{
  Environment, World, Run, done, thrown, continue, M, pure, ◌>>=◌, read, now,
}
use real_ming.Gateway.Publish.{require_work_item}
use real_ming.Gateway.Decisions.{
  PolicyDecision, permitted_by_baseline, permitted_by_standing_authority, permitted_by_approval,
  record_decision, ask_approval, need_approval, decide, inspected, request_action,
}

-- What stands behind a decision on an action at a time: for a permission, the rule, the Standing
-- Authority or the Approval.
abbrev pub Grounded : RequestedAction → WorkItem → Database → String → PolicyDecision → Type 0
Grounded action item db at permitted_by_baseline =
    (action.capability ≡ none) × (is_automatic_baseline action.operation ≡ true)
Grounded action item db at (permitted_by_standing_authority id) =
    (s : StandingAuthority) × Memᴰ s (standing_authorities db)
    × (s.id ≡ id)
    × Authorizes action at s
Grounded action item db at (permitted_by_approval id) =
    (a : Approval) × Memᴰ a (approvals_of item.id db) × (a.id ≡ id) × Covers action at a
Grounded action item db at _ = Unit

-- What a method returns has the property.
record Answers {A : Type 0} (P : A → Type 0) (m : M A) : Type 0 where
  holds : (w v : World) (a : A) → m w ≡ done a v → P a

Answers-pure : {A : Type 0} (P : A → Type 0) (a : A) → P a → Answers P (pure a)
unfolding pure
Answers-pure P a p = record {
  holds =
      λ w v b e. let returned : done a w ≡ done b v = e in let same : a ≡ b = cc in subst P same p;
}

continued :
    {A B : Type 0} (P : B → Type 0) (r : Run A) (k : A → M B)
    → ((a : A) → Answers P (k a))
    → (v : World) (b : B) → continue r k ≡ done b v
    → P b
continued P (done a w) k h v b e = (h a).holds w v b e
continued P (thrown f w) k h v b e = cc

Answers-bind :
    {A B : Type 0} (P : B → Type 0) (m : M A) {k : A → M B}
    → ((a : A) → Answers P (k a))
    → Answers P (m >>= k)
unfolding ◌>>=◌
Answers-bind P m {k = k} h = record { holds = λ w v b e. continued P (m w) k h v b e }

evaluate_action-automatic_baseline :
    (action : RequestedAction) (authorities : List StandingAuthority) (approvals : List Approval)
    (at : String)
    → evaluate_action action authorities approvals at ≡ automatic_baseline
    → (action.capability ≡ none) × (is_automatic_baseline action.operation ≡ true)
unfolding evaluate_action
evaluate_action-automatic_baseline action authorities approvals at e = ground arith

module _ (env : Environment) where
  record_decision-Answers :
      (P : PolicyDecision → Type 0) (id : String) (permitted : Bool) (details : Details)
      (decision : PolicyDecision)
      → P decision
      → Answers P (record_decision env id permitted details decision)
  unfolding record_decision
  record_decision-Answers P id permitted details decision p =
      Answers-bind P _ λ at. Answers-bind P _ λ u. Answers-pure P decision p

  module _ (action : RequestedAction) (item : WorkItem) (db : Database) (at : String) where
    need_approval-Answers :
        (reason : ApprovalRequiredReason) (old : Option Approval) (scope : Option ApprovalScope)
        (target : Option ActionTarget)
        → Answers
            (Grounded action item db at)
            (need_approval env action item reason old scope target)
    unfolding need_approval ask_approval
    need_approval-Answers reason old (some scope) (some target) = Answers-bind _ _ λ u.
        Answers-bind _ _ λ v. Answers-bind _ _ λ id. Answers-bind _ _ λ asked_at.
          Answers-bind _ _
            λ asked. Answers-bind _ _ λ staged. Answers-bind _ _ λ x. Answers-pure _ _ tt
    need_approval-Answers reason old none target = record_decision-Answers _ _ _ _ _ tt
    need_approval-Answers reason old (some scope) none = record_decision-Answers _ _ _ _ _ tt

    decide-Answers :
        (outcome : PolicyOutcome)
        → evaluate_action action (standing_authorities db) (approvals_of item.id db) at ≡ outcome
        → Answers (Grounded action item db at) (decide env action item outcome)
    unfolding decide
    decide-Answers (capability_not_grantable c) e = record_decision-Answers _ _ _ _ _ tt
    decide-Answers automatic_baseline e =
        record_decision-Answers _ _ _ _ _ (evaluate_action-automatic_baseline action _ _ at e)
    decide-Answers (standing_authority s) e =
        let (free, writes, reversible, low, stored, authorizes) =
          evaluate_action-standing_authority action _ _ at s e in
        record_decision-Answers _ _ _ _ _ (s, stored, refl, authorizes)
    decide-Answers (approval a) e =
        let (free, writes, stored, covers) = evaluate_action-approval action _ _ at a e in
        record_decision-Answers _ _ _ _ _ (a, stored, refl, covers)
    decide-Answers (approval_needed reason old) e =
        need_approval-Answers reason old action.scope action.target

  inspected-Grounded :
      (action : RequestedAction) (item : WorkItem) (names : List String) (w v : World)
      (decision : PolicyDecision)
      → inspected env action item names w ≡ done decision v
      → Grounded action item w.database (env.clock w.ticks) decision
  unfolding inspected read now ◌>>=◌
  inspected-Grounded action item [] w v decision e =
      (decide-Answers action item w.database (env.clock w.ticks) _ refl).holds _ v decision e
  inspected-Grounded action item (name ∷ names) w v decision e =
      (record_decision-Answers (Grounded action item w.database (env.clock w.ticks)) _ _ _ _
          tt).holds
        w v decision e

  -- A requested action that is permitted is permitted on a ground that stood when it was requested: it
  -- is of an automatic operation without a prohibited capability, or a stored, unexpired Standing
  -- Authority with the id that is returned authorizes it, or a stored, granted and unexpired Approval of the
  -- Work Item, with the id that is returned, covers it.
  pub request_action-Grounded :
      (action : RequestedAction) (item : WorkItem) (w v : World) (decision : PolicyDecision)
      → work_item action.work_item_id w.database ≡ some item
      → request_action env action w ≡ done decision v
      → Grounded action item w.database (env.clock w.ticks) decision
  unfolding request_action require_work_item read pure ◌>>=◌
  request_action-Grounded action item w v decision there e =
      inspected-Grounded action item (env.sensitive_fields action.payload) w v decision
        (rw there at e)
