-- ===== src/Store/Approvals.antt =====
-- src/operations/operations-state.ts: Approvals and Standing Authorities.
use real_ming.Base.{
  String, String_eq, Bool, not, ◌||◌, ◌==◌, if◌then◌else◌, text_leb, none, some, List, [], ◌∷◌,
  ◌++◌, exists, select, update,
}
use real_ming.Contracts.Kinds.{
  ApprovalScope, RiskClass, ApprovalState, requested, granted, approval_requested, approval_granted,
  approval_invalidated,
}
use real_ming.Contracts.Names.{scope_text, risk_class_text, approval_state_text}
use real_ming.Contracts.Json.{Json, text, Details}
use real_ming.Contracts.Records.{Approval, StandingAuthority, GrantStandingAuthorityRequest}
use real_ming.Store.Database.{Database, constraint_violated, ok, err}
use real_ming.Store.Sql.{Sql, ◌>>=◌, ◌>>◌, is_known, require_approval, append_audit}

pub record ApprovalRequest : Type 0 where
  pub work_item_id : String
  pub scope : ApprovalScope
  pub target_type : String
  pub target_identity : String
  pub target_version : String
  pub risk_class : RiskClass
  pub reason : String

-- `approvals(workItemId)`
unfoldable pub approvals_of : String → Database → List Approval
approvals_of id db = select (λ a. a.work_item_id == id) db.approvals

-- The order `granted_at ASC, id ASC`.
not_after : StandingAuthority → StandingAuthority → Bool
not_after s t =
    if s.granted_at == t.granted_at then text_leb s.id t.id else text_leb s.granted_at t.granted_at

place : StandingAuthority → List StandingAuthority → List StandingAuthority
place s [] = s ∷ []
place s (t ∷ ts) = if not_after s t then s ∷ t ∷ ts else t ∷ place s ts

arrange : List StandingAuthority → List StandingAuthority
arrange [] = []
arrange (s ∷ ss) = place s (arrange ss)

-- `standingAuthorities()`
unfoldable pub standing_authorities : Database → List StandingAuthority
unfolding arrange place not_after
standing_authorities db = arrange db.standing_authorities

-- `INSERT INTO approvals`
unfoldable pub insert_approval : Approval → Sql (Unit {0})
insert_approval row db =
    if exists (λ a. a.id == row.id) db.approvals || not (is_known row.work_item_id db)
    then err (constraint_violated "approvals")
    else ok (tt, record db { approvals = db.approvals ++ (row ∷ []) })

abbrev requested_approval : String → ApprovalRequest → String → Approval
requested_approval id request at = record {
  id = id;
  work_item_id = request.work_item_id;
  actor_id = none;
  scope = request.scope;
  target_type = request.target_type;
  target_identity = request.target_identity;
  target_version = request.target_version;
  risk_class = request.risk_class;
  requested_at = at;
  decided_at = none;
  expires_at = none;
  state = requested;
}

-- `UPDATE approvals SET … WHERE id = ?`
unfoldable pub edit_approval : String → (Approval → Approval) → Sql (Unit {0})
edit_approval id f db = ok (tt, record db { approvals = update (λ a. a.id == id) f db.approvals })

abbrev pub granted_by : String → String → String → Approval → Approval
granted_by actor expires_at at a = record a {
  actor_id = some actor;
  decided_at = some at;
  expires_at = some expires_at;
  state = granted;
}

module _ (carries_secret : Json → Bool) where
  unfoldable pub request_approval : String → ApprovalRequest → String → Sql Approval
  unfolding insert_approval
  request_approval id request at = do
    insert_approval (requested_approval id request at)
    append_audit carries_secret request.work_item_id approval_requested at (
        ("approvalId", text id)
        ∷ ("scope", text (scope_text request.scope))
        ∷ ("targetType", text request.target_type)
        ∷ ("targetIdentity", text request.target_identity)
        ∷ ("targetVersion", text request.target_version)
        ∷ ("riskClass", text (risk_class_text request.risk_class))
        ∷ ("reason", text request.reason)
        ∷ [])
    require_approval id

  unfoldable pub grant_approval : String → String → String → String → Sql Approval
  grant_approval id actor expires_at at = do
    edit_approval id (granted_by actor expires_at at)
    a ← require_approval id
    append_audit carries_secret a.work_item_id approval_granted at (
        ("approvalId", text id)
        ∷ ("actorId", text actor)
        ∷ ("scope", text (scope_text a.scope))
        ∷ ("targetType", text a.target_type)
        ∷ ("targetIdentity", text a.target_identity)
        ∷ ("targetVersion", text a.target_version)
        ∷ ("expiresAt", text expires_at)
        ∷ [])
    require_approval id

  unfoldable pub invalidate_approval : String → ApprovalState → Details → String → Sql (Unit {0})
  invalidate_approval id state details at = do
    a ← require_approval id
    edit_approval id (λ b. record b { state = state })
    append_audit carries_secret a.work_item_id approval_invalidated at
        (("approvalId", text id) ∷ ("state", text (approval_state_text state)) ∷ details)

-- `recordStandingAuthority`: one statement, and no audit row.
unfoldable pub record_standing_authority :
    String → GrantStandingAuthorityRequest → String → Sql StandingAuthority
record_standing_authority id request at db =
    let row : StandingAuthority = record {
      id = id;
      granted_by_actor_id = request.actor_id;
      executive = request.executive;
      trust_domain = request.trust_domain;
      target_type = request.target_type;
      expires_at = request.expires_at;
      granted_at = at;
    } in
    if exists (λ s. s.id == id) db.standing_authorities
    then err (constraint_violated "standing_authorities")
    else ok (row, record db { standing_authorities = db.standing_authorities ++ (row ∷ []) })
