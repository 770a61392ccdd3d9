-- ===== src/Store/Keys.antt =====
-- src/operations/operations-state.ts: the unique keys of the tables of Work Items and report revisions.
use real_ming.Base.{
  String, String_eq, Bool, false, ◌&&◌, ◌==◌, if◌then◌else◌, ◌≡◌, refl, ap, ◌∙◌, [], ◌∷◌, ◌++◌,
  exists, update, Distinct, Distinct-insert, Distinct-update, Bool-cases, inl, inr,
}
use real_ming.Contracts.Kinds.{WorkItemState}
use real_ming.Contracts.Records.{WorkItem}
use real_ming.Store.Database.{Database}
use real_ming.Store.Sql.{is_id, with_state}
use real_ming.Store.Steps.{
  is_revision, Annotates, Step, aside, noted, annotated, moved, created, landed, filed, Steps, here,
  next,
}

-- The same primary key.
abbrev pub same_id : WorkItem → WorkItem → Bool
same_id a i = i.id == a.id

-- The same workspace and idempotency key.
abbrev pub same_command : WorkItem → WorkItem → Bool
same_command a i = i.workspace_id == a.workspace_id && i.idempotency_key == a.idempotency_key

-- No two rows of a table have one key.
pub record Keyed (db : Database) : Type 0 where
  pub ids : Distinct same_id db.work_items
  pub commands : Distinct same_command db.work_items
  pub revisions : Distinct is_revision db.outcome_report_revisions

-- The columns of the keys stay as they are.
record SameKeys (f : WorkItem → WorkItem) : Type 0 where
  id : (i : WorkItem) → (f i).id ≡ i.id
  workspace_id : (i : WorkItem) → (f i).workspace_id ≡ i.workspace_id
  idempotency_key : (i : WorkItem) → (f i).idempotency_key ≡ i.idempotency_key

module _ (p : WorkItem → Bool) (f : WorkItem → WorkItem) (same : SameKeys f) where
  kept_id : (i : WorkItem) → (if p i then f i else i).id ≡ i.id
  kept_id i = elim (Bool-cases (p i)) [ inl e ↦ rw e (same.id i) | inr e ↦ rw e ]

  kept_workspace : (i : WorkItem) → (if p i then f i else i).workspace_id ≡ i.workspace_id
  kept_workspace i = elim (Bool-cases (p i)) [ inl e ↦ rw e (same.workspace_id i) | inr e ↦ rw e ]

  kept_key : (i : WorkItem) → (if p i then f i else i).idempotency_key ≡ i.idempotency_key
  kept_key i = elim (Bool-cases (p i)) [ inl e ↦ rw e (same.idempotency_key i) | inr e ↦ rw e ]

  kept_same_id :
      (a i : WorkItem) → same_id (if p a then f a else a) (if p i then f i else i) ≡ same_id a i
  kept_same_id a i = rw (kept_id a, kept_id i) refl

  kept_same_command :
      (a i : WorkItem)
      → same_command (if p a then f a else a) (if p i then f i else i) ≡ same_command a i
  kept_same_command a i = rw (kept_workspace a, kept_workspace i, kept_key a, kept_key i) refl

  update-Keyed :
      (t : Database) → Keyed t → Keyed (record t { work_items = update p f t.work_items })
  update-Keyed t k = record {
    ids = Distinct-update same_id p f kept_same_id t.work_items k.ids;
    commands = Distinct-update same_command p f kept_same_command t.work_items k.commands;
    revisions = k.revisions;
  }

with_state-SameKeys : (state : WorkItemState) (at : String) → SameKeys (with_state state at)
with_state-SameKeys state at = record {
  id = λ i. refl;
  workspace_id = λ i. refl;
  idempotency_key = λ i. refl;
}

insert-Keyed :
    (t : Database) (row : WorkItem)
    → exists (same_id row) t.work_items ≡ false
    → exists (same_command row) t.work_items ≡ false
    → Keyed t
    → Keyed (record t { work_items = t.work_items ++ (row ∷ []) })
insert-Keyed t row new_id new_command k = record {
  ids = Distinct-insert same_id row t.work_items new_id k.ids;
  commands = Distinct-insert same_command row t.work_items new_command k.commands;
  revisions = k.revisions;
}

Annotates-SameKeys : (f : WorkItem → WorkItem) → Annotates f → SameKeys f
Annotates-SameKeys f same = record {
  id = same.id;
  workspace_id = same.workspace_id;
  idempotency_key = same.idempotency_key;
}

-- The keys of the tables that are read from a database's three lists.
keys-Keyed :
    {t u : Database}
    → u.work_items ≡ t.work_items
    → u.outcome_report_revisions ≡ t.outcome_report_revisions
    → Keyed t
    → Keyed u
keys-Keyed rows revisions k = record {
  ids = rw rows k.ids;
  commands = rw rows k.commands;
  revisions = rw revisions k.revisions;
}

rows-Keyed :
    {t u v : Database}
    → v ≡ u
    → u.work_items ≡ t.work_items
    → u.outcome_report_revisions ≡ t.outcome_report_revisions
    → Keyed t
    → Keyed v
rows-Keyed e rows revisions k =
    keys-Keyed (ap (λ d. d.work_items) e ∙ rows)
      (ap (λ d. d.outcome_report_revisions) e ∙ revisions) k

Step-Keyed : {t u : Database} → Step t u → Keyed t → Keyed u
Step-Keyed (aside (items, _, _, revisions)) k = keys-Keyed items revisions k
Step-Keyed {t} (noted id kind at details silent e) k = rows-Keyed {t = t} e refl refl k
Step-Keyed {t} (annotated id f same e) k =
    rows-Keyed e refl refl (update-Keyed (is_id id) f (Annotates-SameKeys f same) t k)
Step-Keyed {t} (moved id state event at details current there known guarded e) k =
    rows-Keyed e refl refl
      (update-Keyed (is_id id) (with_state state at) (with_state-SameKeys state at) t k)
Step-Keyed {t} (created row at details captures new_id new_command e) k =
    rows-Keyed e refl refl (insert-Keyed t row new_id new_command k)
Step-Keyed {t} (landed id state event at details tells guarded e) k =
    rows-Keyed e refl refl
      (update-Keyed (is_id id) (with_state state at) (with_state-SameKeys state at) t k)
Step-Keyed {t} (filed report fresh e) k = record {
  ids = rw (ap (λ d. d.work_items) e) k.ids;
  commands = rw (ap (λ d. d.work_items) e) k.commands;
  revisions =
      rw (ap (λ d. d.outcome_report_revisions) e)
        (Distinct-insert is_revision report t.outcome_report_revisions fresh k.revisions);
}

pub Steps-Keyed : {t u : Database} → Steps t u → Keyed t → Keyed u
Steps-Keyed here k = k
Steps-Keyed (next before s) k = Step-Keyed s (Steps-Keyed before k)
