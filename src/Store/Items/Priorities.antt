-- ===== src/Store/Items/Priorities.antt =====
-- src/operations/operations-state.ts: the writes of a priority, by their idempotency keys.
use real_ming.Base.{
  String, String_eq, Bool, true, ◌&&◌, ◌==◌, ◌≢◌, ◌⊎◌, false, test_ne, if◌then◌else◌, ◌≡◌, refl, ap,
  ◌∙◌, Option, none, some, List, ◌∷◌, [], ◌++◌, find, arith, Bool-cases, Option-cases, inl, inr,
  test_self,
}
use real_ming.Contracts.Kinds.{WorkItemPriority, WorkItemPriority_eq}
use real_ming.Contracts.Json.{Json}
use real_ming.Contracts.Records.{WorkItem}
use real_ming.Store.Database.{Database, PriorityWrite, Failure, ok, err, priority_key_reused}
use real_ming.Store.Sql.{work_item, require_work_item, append_audit}
use real_ming.Store.Items.{
  same_priority, insert_priority_write, edit_item, replay_priority, write_priority, priority_found,
  record_priority,
}

abbrev pub write_of : String → Database → Option PriorityWrite
write_of key db = find (λ w. w.idempotency_key == key) db.priority_writes

same_priority_self : (p : Option WorkItemPriority) → same_priority p p ≡ true
same_priority_self none = refl
same_priority_self (some p) = test_self p

find-append {ℓ} :
    {A : Type ℓ} (p : A → Bool) (xs : List A) (x : A)
    → find p xs ≡ none
    → p x ≡ true
    → find p (xs ++ (x ∷ [])) ≡ some x
find-append p [] x e t = rw t refl
find-append p (y ∷ xs) x e t = elim (Bool-cases (p y)) [
  | inl s ↦ let no : some y ≡ none = rw s at e in cc
  | inr f ↦ rw f (find-append p xs x (rw f at e) t)
]

err-ne-ok : {A : Type 0} {f : Failure} {a : A} → err f ≡ ok a → ⊥
err-ne-ok e = cc

module _ (carries_secret : Json → Bool) where
  -- A write of a priority whose key is known: the same priority of the same Work Item is replayed, which
  -- changes nothing and returns it; any other is refused.
  record_priority-replayed :
      (id : String) (priority : Option WorkItemPriority) (key at : String) (db : Database)
      (current : WorkItem) (write : PriorityWrite)
      → work_item id db ≡ some current
      → write_of key db ≡ some write
      → record_priority carries_secret id priority key at db ≡ (
          if write.work_item_id == id && same_priority write.priority priority
          then ok (current, db)
          else err priority_key_reused)
  unfolding record_priority priority_found replay_priority require_work_item
  record_priority-replayed id priority key at db current write there known =
      elim (Bool-cases (write.work_item_id == id)) [
        | inr other ↦ rw (there, known, other) refl
        | inl same ↦ elim (Bool-cases (same_priority write.priority priority)) [
          | inr differs ↦ rw (there, known, same, differs) refl
          | inl equal ↦ rw (there, known, same, equal, there) refl
        ]
      ]

  first_write :
      (id : String) (priority : Option WorkItemPriority) (key at : String) (db u : Database)
      (item : WorkItem)
      → write_of key db ≡ none
      → record_priority carries_secret id priority key at db ≡ ok (item, u)
      → write_priority carries_secret id priority key at db ≡ ok (item, u)
  unfolding record_priority priority_found require_work_item
  first_write id priority key at db u item fresh h = elim (Option-cases (work_item id db)) [
    | inl missing ↦ absurd (err-ne-ok (rw missing at h))
    | inr (current, there) ↦ rw (there, fresh) at h
  ]

  written :
      (id : String) (priority : Option WorkItemPriority) (key at : String) (db u : Database)
      (item : WorkItem)
      → write_priority carries_secret id priority key at db ≡ ok (item, u)
      → (u.priority_writes
          ≡ db.priority_writes
            ++ (record {
              idempotency_key = key;
              work_item_id = id;
              priority = priority;
              recorded_at = at;
            }
                ∷ []))
        × (work_item id u ≡ some item)
  unfolding write_priority edit_item insert_priority_write append_audit require_work_item
  written id priority key at db u item h = ground arith

  -- What the ledger has for a key after the first write under it.
  known_after :
      (id : String) (priority : Option WorkItemPriority) (key at : String) (db u : Database)
      (item : WorkItem)
      → write_of key db ≡ none
      → record_priority carries_secret id priority key at db ≡ ok (item, u)
      → write_of key u
        ≡ some (record {
          idempotency_key = key;
          work_item_id = id;
          priority = priority;
          recorded_at = at;
        })
  known_after id priority key at db u item fresh h =
      let (writes, _) =
        written id priority key at db u item (first_write id priority key at db u item fresh h) in
      ap (find (λ w. w.idempotency_key == key)) writes
      ∙ find-append _ db.priority_writes _ fresh (test_self key)

  -- The first write of a priority under a key, if it is committed, makes any repetition of it, at any
  -- time, return the same Work Item and change nothing.
  pub record_priority-again :
      (id : String) (priority : Option WorkItemPriority) (key at later : String) (db u : Database)
      (item : WorkItem)
      → write_of key db ≡ none
      → record_priority carries_secret id priority key at db ≡ ok (item, u)
      → record_priority carries_secret id priority key later u ≡ ok (item, u)
  record_priority-again id priority key at later db u item fresh h =
      let (_, there) =
        written id priority key at db u item (first_write id priority key at db u item fresh h) in
      record_priority-replayed id priority key later u item _ there
        (known_after id priority key at db u item fresh h)
      ∙ rw (test_self id, same_priority_self priority) refl

  -- A write of a priority that follows directly on the first committed one under its key is refused if it
  -- is for another Work Item that is known, or of another priority.
  pub record_priority-bound :
      (id other : String) (priority instead : Option WorkItemPriority) (key at later : String)
      (db u : Database) (item current : WorkItem)
      → write_of key db ≡ none
      → record_priority carries_secret id priority key at db ≡ ok (item, u)
      → work_item other u ≡ some current
      → (id ≢ other) ⊎ (same_priority priority instead ≡ false)
      → record_priority carries_secret other instead key later u ≡ err priority_key_reused
  record_priority-bound id other priority instead key at later db u item current fresh h there
        differs =
      record_priority-replayed other instead key later u current _ there
        (known_after id priority key at db u item fresh h)
      ∙ elim differs [
        | inl apart ↦ rw (test_ne id other apart) refl
        | inr f ↦ elim (Bool-cases (id == other)) [ inl s ↦ rw (s, f) refl | inr n ↦ rw n refl ]
      ]
