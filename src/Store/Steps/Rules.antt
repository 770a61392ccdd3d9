-- ===== src/Store/Steps/Rules.antt =====
-- src/operations/operations-state.ts: a rule for each statement, from which follows that a method's
-- transaction is made of steps.
use real_ming.Base.{
  String, String_eq, Bool, false, not, ◌&&◌, ◌==◌, ◌≡◌, refl, sym, subst, ap, ◌∙◌, Option, none,
  some, [], ◌∷◌, ◌++◌, exists, arith,
}
use real_ming.Contracts.Kinds.{WorkItemState, captured, AuditEventType, work_item_captured}
use real_ming.Contracts.Json.{Json, Details}
use real_ming.Contracts.Records.{WorkItem, Approval}
use real_ming.Lifecycle.{lifecycle_event_for}
use real_ming.Store.Database.{Database, Failure, Result, ok, err}
use real_ming.Store.Sql.{
  Sql, ◌>>=◌, is_id, is_known, work_item, approval, needs_outcome, has_outcome, audited, in_state,
  require_work_item, require_approval, insert_work_item, set_state, assert_no_sensitive_data,
  append_audit, chain, found,
}
use real_ming.Store.Steps.{
  state_after, Step, noted, moved, created, landed, Steps, here, Steps-trans, one,
}

-- If the transaction `r` is committed, it is made of steps from `t`.
pub record Reaches (t : Database) {A : Type 0} (r : Result (A × Database)) : Type 0 where
  pub ends : (a : A) (u : Database) → r ≡ ok (a, u) → Steps t u

pub Reaches-ok :
    {A : Type 0} {t : Database} (a : A) (u : Database) → Steps t u → Reaches t (ok (a, u))
Reaches-ok {t} a u s = record {
  ends = λ b v e. let same : u ≡ v = cc in subst (λ w. Steps t w) same s;
}

pub Reaches-err : {A : Type 0} {t : Database} (e : Failure) → Reaches t {A = A} (err e)
Reaches-err e = record { ends = λ b v h. cc }

pub Reaches-after :
    {A : Type 0} {t u : Database} {r : Result (A × Database)}
    → Steps t u
    → Reaches u r
    → Reaches t r
Reaches-after s k = record { ends = λ a v e. Steps-trans s (k.ends a v e) }

-- What follows a statement that succeeds.
pub Reaches-chain :
    {A B : Type 0} {t : Database} (r : Result (A × Database)) (k : A → Sql B)
    → ((a : A) (u : Database) → r ≡ ok (a, u) → Reaches t (k a u))
    → Reaches t (chain r k)
Reaches-chain (ok (a, u)) k h = h a u refl
Reaches-chain (err e) k h = Reaches-err e

-- The same where the statement returns nothing and leaves one database.
pub Reaches-then :
    {B : Type 0} {t : Database} (u : Database) (r : Result (Unit {0} × Database))
    (k : Unit {0} → Sql B)
    → ((v : Database) → r ≡ ok (tt, v) → v ≡ u)
    → Reaches t (k tt u)
    → Reaches t (chain r k)
Reaches-then u (ok (tt, v)) k e h = rw (e v refl) h
Reaches-then u (err f) k e h = Reaches-err f

insert_ok :
    (row : WorkItem) (t v : Database)
    → insert_work_item row t ≡ ok (tt, v)
    → (v ≡ record t { work_items = t.work_items ++ (row ∷ []) })
      × (exists (is_id row.id) t.work_items ≡ false)
      × (exists
            (λ i. i.workspace_id == row.workspace_id && i.idempotency_key == row.idempotency_key)
            t.work_items
          ≡ false)
unfolding insert_work_item
insert_ok row t v h = ground arith

found_ok :
    {A : Type 0} (e : Failure) (o : Option A) (t : Database) (a : A) (u : Database)
    → found e o t ≡ ok (a, u)
    → (o ≡ some a) × (u ≡ t)
found_ok e none t a u h = cc
found_ok e (some b) t a u h = (cc, cc)

append_ok :
    (carries_secret : Json → Bool) (id : String) (kind : AuditEventType) (at : String)
    (details : Details) (t v : Database)
    → append_audit carries_secret id kind at details t ≡ ok (tt, v)
    → v ≡ audited id kind at details t
unfolding append_audit
append_ok carries_secret id kind at details t v h = ground arith

set_ok :
    (id : String) (state : WorkItemState) (at : String) (t v : Database)
    → set_state id state at t ≡ ok (tt, v)
    → (v ≡ in_state id state at t)
      × ((is_known id t && (needs_outcome state && not (has_outcome id t))) ≡ false)
unfolding set_state
set_ok id state at t v h = ground arith

module _ {B : Type 0} (t : Database) where
  -- The row that is required is there, or the transaction fails.
  pub Reaches-require :
      (id : String) (k : WorkItem → Sql B)
      → ((item : WorkItem) → work_item id t ≡ some item → Reaches t (k item t))
      → Reaches t ((require_work_item id >>= k) t)
  unfolding require_work_item
  Reaches-require id k h = Reaches-chain (found _ (work_item id t) t) k λ item u e.
      let (there, same) = found_ok _ (work_item id t) t item u e in rw same (h item there)

  pub Reaches-require_approval :
      (id : String) (k : Approval → Sql B)
      → ((a : Approval) → Reaches t (k a t))
      → Reaches t ((require_approval id >>= k) t)
  unfolding require_approval
  Reaches-require_approval id k h =
      Reaches-chain (found _ (approval id t) t) k
        λ a u e. rw (found_ok _ (approval id t) t a u e).1 (h a)

  module _ (carries_secret : Json → Bool) where
    pub Reaches-assert :
        (label : String) (payload : Json) (k : Unit {0} → Sql B)
        → Reaches t (k tt t)
        → Reaches t ((assert_no_sensitive_data carries_secret label payload >>= k) t)
    Reaches-assert label payload k h =
        Reaches-then t (assert_no_sensitive_data carries_secret label payload t) k
          (λ v e. ground arith) h

    pub Reaches-note :
        (id : String) (kind : AuditEventType) (at : String) (details : Details)
        (k : Unit {0} → Sql B)
        → state_after kind ≡ none
        → Reaches (audited id kind at details t) (k tt (audited id kind at details t))
        → Reaches t ((append_audit carries_secret id kind at details >>= k) t)
    Reaches-note id kind at details k silent h =
        Reaches-then (audited id kind at details t)
          (append_audit carries_secret id kind at details t) k
          (append_ok carries_secret id kind at details t)
          (Reaches-after (one (noted id kind at details silent refl)) h)

    -- A change of state, and the audit row that reports it.
    Reaches-state :
        (id : String) (state : WorkItemState) (at : String) (event : AuditEventType)
        (details : Details) (k : Unit {0} → Sql B)
        → ((is_known id t && (needs_outcome state && not (has_outcome id t))) ≡ false
            → Step t (audited id event at details (in_state id state at t)))
        → (let u = audited id event at details (in_state id state at t) in Reaches u (k tt u))
        → Reaches t (
            (set_state id state at >>= λ _. (append_audit carries_secret id event at details >>= k))
              t)
    Reaches-state id state at event details k step h =
        Reaches-chain (set_state id state at t) _ λ x u e.
          let (same, guarded) = set_ok id state at t u e in
          Reaches-then (audited id event at details (in_state id state at t))
            (append_audit carries_secret id event at details u) k
            (λ v f.
              append_ok carries_secret id event at details u v f
              ∙ ap (audited id event at details) same)
            (Reaches-after (one (step guarded)) h)

    pub Reaches-move :
        (id : String) (state : WorkItemState) (at : String) (event : AuditEventType)
        (details : Details) (k : Unit {0} → Sql B) (current : WorkItem)
        → work_item id t ≡ some current
        → lifecycle_event_for current.state state ≡ some event
        → (let u = audited id event at details (in_state id state at t) in Reaches u (k tt u))
        → Reaches t (
            (set_state id state at >>= λ _. (append_audit carries_secret id event at details >>= k))
              t)
    Reaches-move id state at event details k current there e h =
        Reaches-state id state at event details k
          (λ guarded. moved id state event at details current there e guarded refl) h

    pub Reaches-land :
        (id : String) (state : WorkItemState) (at : String) (event : AuditEventType)
        (details : Details) (k : Unit {0} → Sql B)
        → state_after event ≡ some state
        → (let u = audited id event at details (in_state id state at t) in Reaches u (k tt u))
        → Reaches t (
            (set_state id state at >>= λ _. (append_audit carries_secret id event at details >>= k))
              t)
    Reaches-land id state at event details k e h =
        Reaches-state id state at event details k
          (λ guarded. landed id state event at details e guarded refl) h

    -- A new row, and the audit row of its capture.
    pub Reaches-create :
        (row : WorkItem) (at : String) (details : Details) (k : Unit {0} → Sql B)
        → row.state ≡ captured
        → (let u =
              audited row.id work_item_captured at details
                (record t { work_items = t.work_items ++ (row ∷ []) }) in
            Reaches u (k tt u))
        → Reaches t (
            (insert_work_item row >>= λ _.
            (append_audit carries_secret row.id work_item_captured at details >>= k))
              t)
    Reaches-create row at details k fresh h = Reaches-chain (insert_work_item row t) _ λ x u e.
        let (same, new_id, new_command) = insert_ok row t u e in
        Reaches-then _ (append_audit carries_secret row.id work_item_captured at details u) k
          (λ v f.
            append_ok carries_secret row.id work_item_captured at details u v f
            ∙ ap (audited row.id work_item_captured at details) same)
          (Reaches-after (one (created row at details fresh new_id new_command refl)) h)

-- The last statement of a transaction.
module _ (t : Database) where
  pub Reaches-read : (id : String) → Reaches t (require_work_item id t)
  unfolding require_work_item
  Reaches-read id = record {
    ends = λ item u e. subst (λ v. Steps t v) (sym (found_ok _ (work_item id t) t item u e).1) here;
  }

  pub Reaches-read_approval : (id : String) → Reaches t (require_approval id t)
  unfolding require_approval
  Reaches-read_approval id = record {
    ends = λ a u e. subst (λ v. Steps t v) (sym (found_ok _ (approval id t) t a u e).1) here;
  }

  pub Reaches-noted :
      (carries_secret : Json → Bool) (id : String) (kind : AuditEventType) (at : String)
      (details : Details)
      → state_after kind ≡ none
      → Reaches t (append_audit carries_secret id kind at details t)
  Reaches-noted carries_secret id kind at details silent = record {
    ends = λ x u e.
        one (noted id kind at details silent (append_ok carries_secret id kind at details t u e));
  }

pub Reaches-join :
    {A B : Type 0} {t : Database} (r : Result (A × Database)) (k : A → Sql B)
    → Reaches t r
    → ((a : A) (u : Database) → r ≡ ok (a, u) → Reaches u (k a u))
    → Reaches t (chain r k)
Reaches-join r k first rest =
    Reaches-chain r k λ a u e. Reaches-after (first.ends a u e) (rest a u e)

pub Reaches-land_last :
    (t : Database) (carries_secret : Json → Bool) (id : String) (state : WorkItemState)
    (at : String) (event : AuditEventType) (details : Details)
    → state_after event ≡ some state
    → Reaches t ((set_state id state at >>= λ _. append_audit carries_secret id event at details) t)
Reaches-land_last t carries_secret id state at event details reports =
    Reaches-chain (set_state id state at t) _ λ x u e.
      let (same, guarded) = set_ok id state at t u e in
      record {
        ends = λ y v f. one (
            landed id state event at details reports guarded (
              append_ok carries_secret id event at details u v f
              ∙ ap (audited id event at details) same));
      }
