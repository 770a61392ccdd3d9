-- ===== src/Store/Steps/Items.antt =====
-- src/operations/operations-state.ts: the methods on Work Items are made of steps.
use real_ming.Base.{
  String, Bool, not, ◌||◌, ◌==◌, String_eq, ◌≡◌, refl, sym, Option, none, some, List, [], ◌∷◌,
  exists, arith, is_blank, Bool-cases, inl, inr,
}
use real_ming.Contracts.Kinds.{
  WorkItemState, AuditEventType, WorkItemPriority, ExecutiveRole, ExecutiveRole_eq,
}
use real_ming.Contracts.Json.{Json, Details}
use real_ming.Contracts.Records.{
  NormalizedCeoAction, CollaboratingExecutiveRequest, WorkItem, Commitment, confirmed, proposed,
}
use real_ming.Lifecycle.{lifecycle_event_for}
use real_ming.Store.Database.{Database, Failure, PriorityWrite, Result, ok, err}
use real_ming.Store.Sql.{Sql, throw, chain, ◌>>=◌, work_item}
use real_ming.Store.Items.{
  assign_collaborators, create_work_item, move, transition, insert_priority_write, edit_item,
  replay_priority, write_priority, priority_found, same_priority, record_priority, with_commitment,
  record_commitment,
}
use real_ming.Store.Steps.{annotated, aside, one, Annotates, SameTables}
use real_ming.Store.Steps.Rules.{
  Reaches, Reaches-err, Reaches-after, Reaches-chain, Reaches-require, Reaches-assert, Reaches-note,
  Reaches-move, Reaches-create, Reaches-read,
}

abbrev KeepsRows : {A : Type 0} → Database → Result (A × Database) → Type 0
KeepsRows {A} t r = (a : A) (u : Database) → r ≡ ok (a, u) → u ≡ t

KeepsRows-chain :
    {A B : Type 0} (t : Database) (r : Result (A × Database)) (k : A → Sql B)
    → KeepsRows t r
    → ((a : A) → KeepsRows t (k a t))
    → KeepsRows t (chain r k)
KeepsRows-chain t (ok (a, u)) k h g b v e = g a b v (rw (sym (h a u refl)) e)
KeepsRows-chain t (err f) k h g b v e = cc

err-ne-ok : {A : Type 0} {f : Failure} {a : A} → err f ≡ ok a → ⊥
err-ne-ok e = cc

assign_collaborators-KeepsRows :
    (accountable : ExecutiveRole) (roles : List ExecutiveRole)
    (requests : List CollaboratingExecutiveRequest) (t : Database)
    → KeepsRows t (assign_collaborators accountable roles requests t)
unfolding assign_collaborators
assign_collaborators-KeepsRows accountable roles [] t a u e = cc
assign_collaborators-KeepsRows accountable roles (r ∷ rs) t a u e =
    elim (Bool-cases (
      r.executive == accountable
      || exists (λ role. role == r.executive) roles
      || is_blank r.contribution)) [
        | inl bad ↦ absurd (err-ne-ok (rw bad at e))
        | inr good ↦
            KeepsRows-chain t (assign_collaborators accountable (r.executive ∷ roles) rs t) _
              (assign_collaborators-KeepsRows accountable (r.executive ∷ roles) rs t)
              (λ b c v h. cc) a u (rw good at e)
      ]

with_commitment-Annotates : (c : Commitment) (at : String) → Annotates (with_commitment c at)
with_commitment-Annotates (confirmed c) at = record {
  id = λ i. refl;
  state = λ i. refl;
  workspace_id = λ i. refl;
  idempotency_key = λ i. refl;
}
with_commitment-Annotates (proposed c) at = record {
  id = λ i. refl;
  state = λ i. refl;
  workspace_id = λ i. refl;
  idempotency_key = λ i. refl;
}

priority-Annotates :
    (p : Option WorkItemPriority) (at : String)
    → Annotates (λ i. record i { priority = p; updated_at = at })
priority-Annotates p at = record {
  id = λ i. refl;
  state = λ i. refl;
  workspace_id = λ i. refl;
  idempotency_key = λ i. refl;
}

insert_priority_write-SameTables :
    (row : PriorityWrite) (t u : Database)
    → insert_priority_write row t ≡ ok (tt, u)
    → SameTables t u
unfolding insert_priority_write
insert_priority_write-SameTables row t u e = ground arith

module _ (carries_secret : Json → Bool) (t : Database) where
  pub create_work_item-Reaches :
      (id : String) (action : NormalizedCeoAction) (at : String)
      → Reaches t (create_work_item carries_secret id action at t)
  unfolding create_work_item
  create_work_item-Reaches id action at = Reaches-assert t carries_secret _ _ _ (
      Reaches-chain (assign_collaborators _ [] action.collaborating_executives t) _ λ a u e.
        rw (assign_collaborators-KeepsRows _ [] action.collaborating_executives t a u e)
          (Reaches-create t carries_secret _ at _ _ refl (Reaches-read _ id)))

  move-Reaches :
      (id : String) (state : WorkItemState) (at : String) (details : Details) (current : WorkItem)
      (event : Option AuditEventType)
      → work_item id t ≡ some current
      → lifecycle_event_for current.state state ≡ event
      → Reaches t (move carries_secret id state at details event current t)
  unfolding move
  move-Reaches id state at details current none there e = Reaches-err _
  move-Reaches id state at details current (some event) there e =
      Reaches-move t carries_secret id state at event details _ current there e (Reaches-read _ id)

  pub transition-Reaches :
      (id : String) (state : WorkItemState) (at : String) (details : Details)
      → Reaches t (transition carries_secret id state at details t)
  unfolding transition
  transition-Reaches id state at details =
      Reaches-require t id _ λ current there. move-Reaches id state at details current _ there refl

  edit-Reaches :
      {B : Type 0} (id : String) (f : WorkItem → WorkItem) (k : Unit {0} → Sql B)
      → Annotates f
      → ((u : Database) → Reaches u (k tt u))
      → Reaches t ((edit_item id f >>= k) t)
  unfolding edit_item
  edit-Reaches id f k same h = Reaches-after (one (annotated id f same refl)) (h _)

  pub record_commitment-Reaches :
      (id : String) (commitment : Commitment) (at : String)
      → Reaches t (record_commitment carries_secret id commitment at t)
  unfolding record_commitment
  record_commitment-Reaches id commitment at =
      edit-Reaches id (with_commitment commitment at) _ (with_commitment-Annotates commitment at)
        λ u. Reaches-note u carries_secret id _ at _ _ refl (Reaches-read _ id)

  replay_priority-Reaches :
      (id : String) (priority : Option WorkItemPriority) (write : PriorityWrite)
      → Reaches t (replay_priority carries_secret id priority write t)
  unfolding replay_priority
  replay_priority-Reaches id priority write =
      elim (Bool-cases
        (not (write.work_item_id == id) || not (same_priority write.priority priority))) [
          | inl other ↦ rw (other, throw) (Reaches-err _)
          | inr same ↦ rw same (Reaches-read t id)
        ]

  write_priority-Reaches :
      (id : String) (priority : Option WorkItemPriority) (key at : String)
      → Reaches t (write_priority carries_secret id priority key at t)
  unfolding write_priority
  write_priority-Reaches id priority key at =
      edit-Reaches id _ _ (priority-Annotates priority at) λ u.
        Reaches-chain (insert_priority_write _ u) _ λ x v e.
          Reaches-after (one (aside (insert_priority_write-SameTables _ u v e)))
            (Reaches-note v carries_secret id _ at _ _ refl (Reaches-read _ id))

  priority_found-Reaches :
      (id : String) (priority : Option WorkItemPriority) (key at : String)
      (found : Option PriorityWrite)
      → Reaches t (priority_found carries_secret id priority key at found t)
  unfolding priority_found
  priority_found-Reaches id priority key at none = write_priority-Reaches id priority key at
  priority_found-Reaches id priority key at (some write) = replay_priority-Reaches id priority write

  pub record_priority-Reaches :
      (id : String) (priority : Option WorkItemPriority) (key at : String)
      → Reaches t (record_priority carries_secret id priority key at t)
  unfolding record_priority
  record_priority-Reaches id priority key at =
      Reaches-require t id _ λ current there. priority_found-Reaches id priority key at _
