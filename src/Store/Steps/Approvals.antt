-- ===== src/Store/Steps/Approvals.antt =====
-- src/operations/operations-state.ts: the methods on Approvals and Standing Authorities are made of steps.
use real_ming.Base.{String, Bool, ◌≡◌, refl, arith}
use real_ming.Contracts.Kinds.{ApprovalState}
use real_ming.Contracts.Json.{Json, Details}
use real_ming.Contracts.Records.{Approval, GrantStandingAuthorityRequest}
use real_ming.Store.Database.{Database, ok}
use real_ming.Store.Sql.{Sql, ◌>>=◌}
use real_ming.Store.Approvals.{
  ApprovalRequest, insert_approval, edit_approval, request_approval, grant_approval,
  invalidate_approval, record_standing_authority,
}
use real_ming.Store.Steps.{aside, one, SameTables}
use real_ming.Store.Steps.Rules.{
  Reaches, Reaches-after, Reaches-chain, Reaches-require_approval, Reaches-note,
  Reaches-read_approval, Reaches-noted,
}

insert_approval-SameTables :
    (row : Approval) (t u : Database) → insert_approval row t ≡ ok (tt, u) → SameTables t u
unfolding insert_approval
insert_approval-SameTables row t u e = ground arith

edit_approval-Reaches :
    {B : Type 0} (t : Database) (id : String) (f : Approval → Approval) (k : Unit {0} → Sql B)
    → ((u : Database) → Reaches u (k tt u))
    → Reaches t ((edit_approval id f >>= k) t)
unfolding edit_approval
edit_approval-Reaches t id f k h = Reaches-after (one (aside (refl, refl, refl, refl))) (h _)

module _ (carries_secret : Json → Bool) (t : Database) where
  pub request_approval-Reaches :
      (id : String) (request : ApprovalRequest) (at : String)
      → Reaches t (request_approval carries_secret id request at t)
  unfolding request_approval
  request_approval-Reaches id request at = Reaches-chain (insert_approval _ t) _ λ x u e.
      Reaches-after (one (aside (insert_approval-SameTables _ t u e)))
        (Reaches-note u carries_secret _ _ at _ _ refl (Reaches-read_approval _ id))

  pub grant_approval-Reaches :
      (id actor expires_at at : String)
      → Reaches t (grant_approval carries_secret id actor expires_at at t)
  unfolding grant_approval
  grant_approval-Reaches id actor expires_at at = edit_approval-Reaches t id _ _ λ u.
      Reaches-require_approval u id _
        λ a. Reaches-note u carries_secret _ _ at _ _ refl (Reaches-read_approval _ id)

  pub invalidate_approval-Reaches :
      (id : String) (state : ApprovalState) (details : Details) (at : String)
      → Reaches t (invalidate_approval carries_secret id state details at t)
  unfolding invalidate_approval
  invalidate_approval-Reaches id state details at =
      Reaches-require_approval t id _
        λ a. edit_approval-Reaches t id _ _ λ u. Reaches-noted u carries_secret _ _ at _ refl

pub record_standing_authority-Reaches :
    (t : Database) (id : String) (request : GrantStandingAuthorityRequest) (at : String)
    → Reaches t (record_standing_authority id request at t)
unfolding record_standing_authority
record_standing_authority-Reaches t id request at = record {
  ends = λ s u e. one (aside (ground arith));
}
