-- ===== src/Policy/Rules.antt =====
-- src/operations/policy-engine.ts: which actions the policy permits, and on what basis.
use real_ming.Base.{
  String, String_eq, true, false, ◌&&◌, ◌==◌, ◌≡◌, refl, text_leb, text_gtb, Option, none, some,
  List, find, find-Mem, find-test, select, select-Mem, arith, eq_test,
}
use mathlib.Core.List.{Memᴰ}
use real_ming.Contracts.Kinds.{
  ApprovalScope, write, reversible, low, granted, ApprovalState_eq, ApprovalScope_eq,
  ExecutiveRole_eq, TrustDomain_eq,
}
use real_ming.Contracts.Records.{ActionTarget, RequestedAction, Approval, StandingAuthority}
use real_ming.Policy.{
  standing_authority, approval, is_scope, is_target, is_target_type, is_past, is_version,
  matches_standing_authority, matches_approval_target, evaluate_action,
}

-- What an approval must be, to permit an action at a time.
pub record Covers (action : RequestedAction) (now : String) (a : Approval) : Type 0 where
  pub is_granted : a.state ≡ granted
  pub same_scope : action.scope ≡ some a.scope
  pub same_target :
      action.target
      ≡ some (record {
        kind = a.target_type;
        identity = a.target_identity;
        version = a.target_version;
      })
  pub unexpired : is_past a.expires_at now ≡ false

approval_facts :
    (action : RequestedAction) (authorities : List StandingAuthority) (approvals : List Approval)
    (now : String) (a : Approval)
    → evaluate_action action authorities approvals now ≡ approval a
    → (action.capability ≡ none)
      × (action.operation ≡ write)
      × (find (λ b. b.state == granted && matches_approval_target action b) approvals ≡ some a)
unfolding evaluate_action
approval_facts action authorities approvals now a e = ground arith

approval_checked :
    (action : RequestedAction) (authorities : List StandingAuthority) (approvals : List Approval)
    (now : String) (a : Approval)
    → evaluate_action action authorities approvals now ≡ approval a
    → (is_version a.target_version action.target ≡ true) × (is_past a.expires_at now ≡ false)
unfolding evaluate_action
approval_checked action authorities approvals now a e = ground arith

is_scope-eq :
    (scope : ApprovalScope) (o : Option ApprovalScope) → is_scope scope o ≡ true → o ≡ some scope
is_scope-eq scope none h = cc
is_scope-eq scope (some s) h = ground arith

target_eq :
    (kind identity version : String) (o : Option ActionTarget)
    → is_target kind identity o ≡ true
    → is_version version o ≡ true
    → o ≡ some (record { kind = kind; identity = identity; version = version })
target_eq kind identity version none h v = cc
target_eq kind identity version (some t) h v =
    let k = eq_test kind t.kind (ground arith) in
    let i = eq_test identity t.identity (ground arith) in
    let w = eq_test version t.version v in cc (k, i, w)

matches_approval_target-Covers :
    (action : RequestedAction) (a : Approval)
    → matches_approval_target action a ≡ true
    → is_version a.target_version action.target ≡ true
    → (action.scope ≡ some a.scope)
      × (action.target
          ≡ some (record {
            kind = a.target_type;
            identity = a.target_identity;
            version = a.target_version;
          }))
unfolding matches_approval_target
matches_approval_target-Covers action a h v = (
  is_scope-eq a.scope action.scope (ground arith),
  target_eq a.target_type a.target_identity a.target_version action.target (ground arith) v,
)

-- If the policy permits an action by an Approval, the action asks for no prohibited capability and
-- is a write, and the Approval is one of those given, is granted and not expired, and names the
-- action's scope and its target, the target's version included.
pub evaluate_action-approval :
    (action : RequestedAction) (authorities : List StandingAuthority) (approvals : List Approval)
    (now : String) (a : Approval)
    → evaluate_action action authorities approvals now ≡ approval a
    → (action.capability ≡ none)
      × (action.operation ≡ write)
      × Memᴰ a approvals
      × Covers action now a
evaluate_action-approval action authorities approvals now a e =
    let (free, writes, found) = approval_facts action authorities approvals now a e in
    let (version, fresh) = approval_checked action authorities approvals now a e in
    let tested = find-test _ approvals found in
    let (scope, target) = matches_approval_target-Covers action a (ground arith) version in
    (
      free,
      writes,
      find-Mem _ approvals found,
      record {
        is_granted = eq_test a.state granted (ground arith);
        same_scope = scope;
        same_target = target;
        unexpired = fresh;
      },
    )

-- What a Standing Authority must be, to permit an action at a time.
pub record Authorizes (action : RequestedAction) (now : String) (s : StandingAuthority)
    : Type 0 where
  pub same_executive : s.executive ≡ action.executive
  pub same_domain : s.trust_domain ≡ action.trust_domain
  pub same_type :
      (target : ActionTarget) × (action.target ≡ some target) × (s.target_type ≡ target.kind)
  pub unexpired : text_leb s.expires_at now ≡ false

standing_facts :
    (action : RequestedAction) (authorities : List StandingAuthority) (approvals : List Approval)
    (now : String) (s : StandingAuthority)
    → evaluate_action action authorities approvals now ≡ standing_authority s
    → (action.capability ≡ none)
      × (action.operation ≡ write)
      × (action.reversibility ≡ reversible)
      × (action.risk_class ≡ low)
      × (find
            (λ t. text_gtb t.expires_at now)
            (select (matches_standing_authority action) authorities)
          ≡ some s)
unfolding evaluate_action
standing_facts action authorities approvals now s e = ground arith

target_type_eq :
    (kind : String) (o : Option ActionTarget)
    → is_target_type kind o ≡ true
    → (target : ActionTarget) × (o ≡ some target) × (kind ≡ target.kind)
target_type_eq kind none h = cc
target_type_eq kind (some t) h = (t, refl, eq_test kind t.kind h)

matches_standing_authority-Authorizes :
    (action : RequestedAction) (now : String) (s : StandingAuthority)
    → matches_standing_authority action s ≡ true
    → text_gtb s.expires_at now ≡ true
    → Authorizes action now s
unfolding matches_standing_authority
matches_standing_authority-Authorizes action now s h g = record {
  same_executive = eq_test s.executive action.executive (ground arith);
  same_domain = eq_test s.trust_domain action.trust_domain (ground arith);
  same_type = target_type_eq s.target_type action.target (ground arith);
  unexpired = ground arith;
}

-- If the policy permits an action by Standing Authority, the action asks for no prohibited
-- capability, is a reversible write of low risk, and the Standing Authority is one of those given,
-- has not expired, and names the action's executive, trust domain and target type.
pub evaluate_action-standing_authority :
    (action : RequestedAction) (authorities : List StandingAuthority) (approvals : List Approval)
    (now : String) (s : StandingAuthority)
    → evaluate_action action authorities approvals now ≡ standing_authority s
    → (action.capability ≡ none)
      × (action.operation ≡ write)
      × (action.reversibility ≡ reversible)
      × (action.risk_class ≡ low)
      × Memᴰ s authorities
      × Authorizes action now s
evaluate_action-standing_authority action authorities approvals now s e =
    let (free, writes, undone, harmless, found) =
      standing_facts action authorities approvals now s e in
    let matching = matches_standing_authority action in
    let later = λ (t : StandingAuthority). text_gtb t.expires_at now in
    let (among, matches) =
      select-Mem matching authorities (find-Mem later (select matching authorities) found) in
    (
      free,
      writes,
      undone,
      harmless,
      among,
      matches_standing_authority-Authorizes action now s matches
          (find-test later (select matching authorities) found),
    )
