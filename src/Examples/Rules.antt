-- ===== src/Examples/Rules.antt =====
-- The theorems on the policy, the lifecycle and the routing, at one action, walk or workstream each.
use Prim.Native.Nat.{◌≤◌}
use mathlib.Core.List.{Memᴰ}
use mathlib.Core.Logic.{◌≢◌}
use real_ming.Base.{true, ◌↔◌, ◌≡◌, refl, none, some, List, [], ◌∷◌, length, text_leb}
use real_ming.Contracts.Kinds.{WorkItemState, write, reversible, RiskClass, TrustDomain, cto}
use real_ming.Contracts.Records.{StandingAuthority}
use real_ming.Routing.{
  route_trust_domain, retrieval_role_for_trust_domain, retrieval_role-route_trust_domain,
}
use real_ming.Policy.{
  standing_authority, approval, evaluate_action, matches_standing_authority,
  matches_approval_target, is_automatic_baseline, is_prohibited_capability,
  requires_standing_authority,
}
use real_ming.Policy.Rules.{
  Covers, Authorizes, evaluate_action-approval, evaluate_action-standing_authority,
}
use real_ming.Policy.Permits.{permits, Ground, evaluate_action-Ground}
use real_ming.Policy.Complete.{evaluate_action_authorized}
use real_ming.Lifecycle.{lifecycle_path_to, search_path, spent}
use real_ming.Lifecycle.Paths.{Route, lifecycle_path_to-Route, search_path-ne-spent}
use real_ming.Lifecycle.Shortest.{lifecycle_path_to_shortest}
use real_ming.Examples.{promotion, approval_of_promotion, authority_over_branches}

approved :
    evaluate_action promotion [] (approval_of_promotion ∷ []) "2026-01-05"
    ≡ approval approval_of_promotion
unfolding evaluate_action matches_approval_target is_automatic_baseline is_prohibited_capability
    text_leb
approved = refl

evaluate_action-approval_example :
    (promotion.capability ≡ none)
    × (promotion.operation ≡ write)
    × Memᴰ approval_of_promotion (approval_of_promotion ∷ [])
    × Covers promotion "2026-01-05" approval_of_promotion
evaluate_action-approval_example =
    evaluate_action-approval promotion [] (approval_of_promotion ∷ []) "2026-01-05"
      approval_of_promotion approved

authorized :
    evaluate_action promotion (authority_over_branches ∷ []) [] "2026-01-05"
    ≡ standing_authority authority_over_branches
unfolding evaluate_action matches_standing_authority is_automatic_baseline is_prohibited_capability
    requires_standing_authority text_leb
authorized = refl

evaluate_action-standing_authority_example :
    (promotion.capability ≡ none)
    × (promotion.operation ≡ write)
    × (promotion.reversibility ≡ reversible)
    × (promotion.risk_class ≡ RiskClass.low)
    × Memᴰ authority_over_branches (authority_over_branches ∷ [])
    × Authorizes promotion "2026-01-05" authority_over_branches
evaluate_action-standing_authority_example =
    evaluate_action-standing_authority promotion (authority_over_branches ∷ []) [] "2026-01-05"
      authority_over_branches authorized

branches_Authorizes : Authorizes promotion "2026-01-05" authority_over_branches
unfolding text_leb
branches_Authorizes = record {
  same_executive = refl;
  same_domain = refl;
  same_type = (_, refl, refl);
  unexpired = refl;
}

evaluate_action_authorized_example :
    (t : StandingAuthority) × (evaluate_action promotion
        (authority_over_branches ∷ [])
        []
        "2026-01-05"
      ≡ standing_authority t)
evaluate_action_authorized_example =
    evaluate_action_authorized promotion (authority_over_branches ∷ []) [] "2026-01-05"
      authority_over_branches refl refl refl refl refl (Memᴰ.head refl) branches_Authorizes

evaluate_action-Ground_example :
    (permits (evaluate_action promotion [] (approval_of_promotion ∷ []) "2026-01-05") ≡ true) ↔ (
      (promotion.capability ≡ none) × Ground promotion [] (approval_of_promotion ∷ []) "2026-01-05")
evaluate_action-Ground_example =
    evaluate_action-Ground promotion [] (approval_of_promotion ∷ []) "2026-01-05"

execution_path :
    lifecycle_path_to WorkItemState.captured WorkItemState.executing
    ≡ some (WorkItemState.triaged ∷ WorkItemState.planned ∷ WorkItemState.executing ∷ [])
unfolding lifecycle_path_to search_path
execution_path = refl

lifecycle_path_to-Route_example :
    Route WorkItemState.captured
      (WorkItemState.triaged ∷ WorkItemState.planned ∷ WorkItemState.executing ∷ [])
      WorkItemState.executing
lifecycle_path_to-Route_example =
    lifecycle_path_to-Route WorkItemState.captured WorkItemState.executing
      (WorkItemState.triaged ∷ WorkItemState.planned ∷ WorkItemState.executing ∷ []) execution_path

search_path-ne-spent_example : search_path WorkItemState.captured WorkItemState.completed ≢ spent
search_path-ne-spent_example = search_path-ne-spent WorkItemState.captured WorkItemState.completed

lifecycle_path_to_shortest_example :
    (found : List WorkItemState) × (lifecycle_path_to WorkItemState.captured WorkItemState.executing
      ≡ some found)
    × (length found ≤ 3)
lifecycle_path_to_shortest_example =
    lifecycle_path_to_shortest WorkItemState.captured WorkItemState.executing
      (WorkItemState.triaged ∷ WorkItemState.planned ∷ WorkItemState.executing ∷ []) (λ e. cc) refl
      lifecycle_path_to-Route_example

ming_creatives_reader : retrieval_role_for_trust_domain TrustDomain.ming_creatives ≡ some cto
unfolding retrieval_role_for_trust_domain
ming_creatives_reader = refl

retrieval_role-route_trust_domain_example : route_trust_domain none cto ≡ TrustDomain.ming_creatives
retrieval_role-route_trust_domain_example =
    retrieval_role-route_trust_domain TrustDomain.ming_creatives cto ming_creatives_reader
