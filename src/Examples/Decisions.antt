-- ===== src/Examples/Decisions.antt =====
-- The theorems on decisions and grants, at an Approval of a promotion.
use real_ming.Base.{starts_with, text_leb, decimal, none, some, ◌≡◌, refl, [], ◌∷◌}
use real_ming.Contracts.Kinds.{executing, requested}
use real_ming.Contracts.Records.{Approval, GrantApprovalRequest}
use real_ming.Policy.{
  evaluate_action, matches_approval_target, is_automatic_baseline, is_prohibited_capability,
}
use real_ming.Store.Database.{Failure}
use real_ming.Store.Sql
use real_ming.Store.Notes.{record_policy_decision}
use real_ming.Store.Approvals.{approvals_of, standing_authorities, grant_approval, edit_approval}
use real_ming.Gateway.World.{World, after, done, thrown, ◌>>=◌, read, now, transaction, pure}
use real_ming.Gateway.Publish.{require_work_item}
use real_ming.Gateway.Decisions.{permitted_by_approval, request_action, grant, is_ceo_actor}
use real_ming.Gateway.Decisions.Grants.{Granting, grant-Granting, grant-once}
use real_ming.Gateway.Decisions.Grounds.{Grounded, request_action-Grounded}
use real_ming.Examples.{surroundings, item_in, world_with, promotion, approval_of_promotion}

abbrev decided_world : World
decided_world = record (world_with executing []) {
  database = record ((world_with executing []).database) { approvals = approval_of_promotion ∷ [] };
}

-- A world in which the Approval is requested and not decided, and a grant of it.
abbrev asked_world : World
asked_world = record (world_with executing []) {
  database = record ((world_with executing []).database) {
    approvals =
        record approval_of_promotion {
          actor_id = none;
          decided_at = none;
          expires_at = none;
          state = requested;
        }
        ∷ [];
  };
}

abbrev wish : GrantApprovalRequest
wish = record { approval_id = "approval-1"; actor_id = "ceo:ming"; expires_at = "2026-02-01" }

abbrev given : Approval
given = record approval_of_promotion { decided_at = some (surroundings.clock 0) }

wish_granted :
    grant surroundings wish asked_world ≡ done given (after (grant surroundings wish asked_world))
unfolding grant is_ceo_actor starts_with read ◌>>=◌ now transaction grant_approval edit_approval
    Sql.require_approval Sql.append_audit decimal
wish_granted = refl

grant-Granting_example :
    Granting wish
      (surroundings.clock 0)
      asked_world.database
      (after (grant surroundings wish asked_world)).database
      given
grant-Granting_example =
    grant-Granting surroundings wish asked_world (after (grant surroundings wish asked_world)) given
      wish_granted

grant-once_example :
    (f : Failure) × (grant surroundings
        (record wish { actor_id = "executive:coo" })
        (after (grant surroundings wish asked_world))
      ≡ thrown f (after (grant surroundings wish asked_world)))
grant-once_example =
    grant-once surroundings wish (record wish { actor_id = "executive:coo" }) asked_world
      (after (grant surroundings wish asked_world)) given wish_granted refl

promoted :
    request_action surroundings promotion decided_world
    ≡ done
        (permitted_by_approval "approval-1")
        (after (request_action surroundings promotion decided_world))
unfolding request_action require_work_item evaluate_action matches_approval_target
    is_automatic_baseline is_prohibited_capability text_leb decimal record_policy_decision
    approvals_of standing_authorities Sql.append_audit ◌>>=◌ read now transaction pure
promoted = refl

request_action-Grounded_example :
    Grounded promotion
      (item_in executing)
      decided_world.database
      (surroundings.clock 0)
      (permitted_by_approval "approval-1")
request_action-Grounded_example =
    request_action-Grounded surroundings promotion (item_in executing) decided_world
      (after (request_action surroundings promotion decided_world))
      (permitted_by_approval "approval-1") refl promoted
