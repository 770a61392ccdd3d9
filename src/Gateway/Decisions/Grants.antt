-- ===== src/Gateway/Decisions/Grants.antt =====
-- src/operations/operations-gateway.ts: which Approvals are granted, by whom, and how often.
use real_ming.Base.{
  String, String_eq, Bool, true, false, ◌==◌, ◌≡◌, ◌≢◌, refl, sym, ap, ◌∙◌, some, find, update,
  find-update, find-update_elsewhere, eq_test, test_ne, Bool-cases, Option-cases, inl, inr, arith,
}
use real_ming.Contracts.Kinds.{ApprovalState_eq, requested}
use real_ming.Contracts.Json.{Json}
use real_ming.Contracts.Records.{Approval, GrantApprovalRequest}
use real_ming.Store.Database.{Database, Failure, ceo_only, only_requested_approval, Result, ok, err}
use real_ming.Store.Sql
use real_ming.Store.Sql.{require_approval, append_audit}
use real_ming.Store.Approvals.{granted_by, edit_approval, grant_approval}
use real_ming.Gateway.World.{
  Environment, World, done, thrown, throw, ◌>>=◌, read, now, transaction, committed,
}
use real_ming.Gateway.Decisions.{is_ceo_actor, grant_found, grant}

-- A committed `grantApproval` of an Approval that is there.
grant_approval-there :
    (carries_secret : Json → Bool) (id actor expires_at at : String) (db u : Database)
    (old a : Approval)
    → Sql.approval id db ≡ some old
    → grant_approval carries_secret id actor expires_at at db ≡ ok (a, u)
    → (a ≡ granted_by actor expires_at at old)
      × (u.approvals ≡ update (λ b. b.id == id) (granted_by actor expires_at at) db.approvals)
unfolding grant_approval edit_approval require_approval append_audit
grant_approval-there carries_secret id actor expires_at at db u old a there e =
    let found =
      find-update (λ b. b.id == id) (granted_by actor expires_at at) db.approvals (λ b. refl)
        there in
    ground arith

thrown-ne-done : {A : Type 0} {f : Failure} {a : A} {w v : World} → thrown f w ≡ done a v → ⊥
thrown-ne-done e = cc

committed-done :
    {A : Type 0} (w v : World) (r : Result (A × Database)) (a : A)
    → committed w r ≡ done a v
    → r ≡ ok (a, v.database)
committed-done w v (ok (b, db)) a e = cc
committed-done w v (err f) a e = cc

-- What a grant is that returns.
pub record Granting (request : GrantApprovalRequest) (at : String) (before after : Database)
    (a : Approval) : Type 0 where
  pub by_ceo : is_ceo_actor request.actor_id ≡ true
  pub from_request :
      (old : Approval) × ((Sql.approval request.approval_id before ≡ some old)
        × ((old.state ≡ requested) × (a ≡ granted_by request.actor_id request.expires_at at old)))
  pub stored : Sql.approval request.approval_id after ≡ some a
  pub others :
      (id : String) → id ≢ request.approval_id → Sql.approval id after ≡ Sql.approval id before

module _ (env : Environment) where
  -- A grant that returns found the Approval it asks for.
  granted_there :
      (request : GrantApprovalRequest) (w v : World) (a : Approval)
      → grant env request w ≡ done a v
      → (is_ceo_actor request.actor_id ≡ true)
        × ((old : Approval) × ((Sql.approval request.approval_id w.database ≡ some old)
              × ((old.state ≡ requested)
                  × (grant_approval env.carries_secret request.approval_id request.actor_id
                        request.expires_at
                        (env.clock w.ticks)
                        w.database
                      ≡ ok (a, v.database)))))
  unfolding grant grant_found throw read ◌>>=◌ now transaction
  granted_there request w v a e = elim (Bool-cases (is_ceo_actor request.actor_id)) [
    | inr other ↦ absurd (thrown-ne-done (rw other at e))
    | inl by_ceo ↦ elim (Option-cases (Sql.approval request.approval_id w.database)) [
      | inl missing ↦ absurd (thrown-ne-done (rw (by_ceo, missing) at e))
      | inr (old, there) ↦ elim (Bool-cases (old.state == requested)) [
        | inr decided ↦ absurd (thrown-ne-done (rw (by_ceo, there, decided) at e))
        | inl waits ↦ (
          by_ceo,
          (
            old,
            (there, (eq_test _ _ waits, committed-done _ v _ a (rw (by_ceo, there, waits) at e))),
          ),
        )
      ]
    ]
  ]

  -- A grant of an Approval that returns was the CEO's, found the Approval requested and not yet decided, and
  -- returns and stores that Approval, granted in the CEO's name until the given time and otherwise
  -- unchanged; every other Approval is as it was.
  pub grant-Granting :
      (request : GrantApprovalRequest) (w v : World) (a : Approval)
      → grant env request w ≡ done a v
      → Granting request (env.clock w.ticks) w.database v.database a
  grant-Granting request w v a e =
      let (by_ceo, (old, (there, (waited, run)))) = granted_there request w v a e in
      let at = env.clock w.ticks in
      let mine = λ (b : Approval). b.id == request.approval_id in
      let (same, rows) =
        grant_approval-there env.carries_secret request.approval_id request.actor_id
          request.expires_at at w.database v.database old a there run in
      record {
        by_ceo = by_ceo;
        from_request = (old, (there, (waited, same)));
        stored =
            ap (find mine) rows
            ∙ find-update mine (granted_by request.actor_id request.expires_at at)
                w.database.approvals (λ b. refl) there
            ∙ ap some (sym same);
        others = λ id apart.
            ap (find (λ b. b.id == id)) rows
            ∙ find-update_elsewhere (λ b. b.id == id) mine
                (granted_by request.actor_id request.expires_at at) (λ b. refl)
                (λ b is. test_ne b.id request.approval_id (λ it. apart (sym (eq_test _ _ is) ∙ it)))
                w.database.approvals;
      }

  -- A grant of an Approval that follows directly on one that returned, whoever asks and until whenever,
  -- throws and leaves the world as it is.
  pub grant-once :
      (request again : GrantApprovalRequest) (w v : World) (a : Approval)
      → grant env request w ≡ done a v
      → again.approval_id ≡ request.approval_id
      → (f : Failure) × (grant env again v ≡ thrown f v)
  unfolding grant grant_found throw read ◌>>=◌
  grant-once request again w v a e same =
      let g = grant-Granting request w v a e in
      let (old, (there, (waited, granted_now))) = g.from_request in
      let decided : (a.state == requested) ≡ false = rw granted_now refl in
      let known : Sql.approval again.approval_id v.database ≡ some a =
        ap (λ id. Sql.approval id v.database) same ∙ g.stored in
      elim (Bool-cases (is_ceo_actor again.actor_id)) [
        | inr other ↦ (ceo_only, rw other refl)
        | inl by_ceo ↦ (only_requested_approval, rw (by_ceo, known, decided) refl)
      ]
