-- ===== src/Store/Backing.antt =====
-- src/operations/operations-state.ts: no Work Item is in review or completed without an Outcome Report.
use real_ming.Base.{
  String, String_eq, Bool, true, false, not, ◌&&◌, ◌==◌, if◌then◌else◌, ◌≡◌, refl, List, [], ◌∷◌,
  exists, update, All, All-append, All-update, All-weaken, Bool-cases, inl, inr, arith,
  exists-eq-false, exists-append, exists-update, eq_test,
}
use real_ming.Contracts.Kinds.{WorkItemState}
use real_ming.Contracts.Records.{WorkItem, OutcomeReport}
use real_ming.Store.Database.{Database}
use real_ming.Store.Sql.{
  is_id, is_report_of, is_known, needs_outcome, has_outcome, with_state, in_state,
}
use real_ming.Store.Steps.{
  Annotates, placed, Step, aside, noted, annotated, moved, created, landed, filed, Steps, here,
  next,
}

abbrev Backed : List OutcomeReport → WorkItem → Type 0
Backed reports i = (needs_outcome i.state && not (exists (is_report_of i.id) reports)) ≡ false

-- Each Work Item that is ready for the CEO's review or completed has an Outcome Report.
abbrev pub Backs : Database → Type 0
Backs db = All (Backed db.outcome_reports) db.work_items

annotate-Backed :
    (reports : List OutcomeReport) (p : WorkItem → Bool) (f : WorkItem → WorkItem)
    → Annotates f
    → (i : WorkItem) → Backed reports i
    → Backed reports (if p i then f i else i)
annotate-Backed reports p f same i h = elim (Bool-cases (p i)) [
  | inl chosen ↦ rw (chosen, same.id i, same.state i) h
  | inr other ↦ rw other h
]

move-Backed :
    (reports : List OutcomeReport) (id : String) (state : WorkItemState) (at : String)
    → (needs_outcome state && not (exists (is_report_of id) reports)) ≡ false
    → (i : WorkItem) → Backed reports i
    → Backed reports (if is_id id i then with_state state at i else i)
move-Backed reports id state at guarded i h = elim (Bool-cases (i.id == id)) [
  | inl chosen ↦ rw (chosen, eq_test i.id id chosen) guarded
  | inr other ↦ rw other h
]

untouched-Backed :
    (reports : List OutcomeReport) (id : String) (state : WorkItemState) (at : String)
    (i : WorkItem)
    → is_id id i ≡ false
    → Backed reports i
    → Backed reports (if is_id id i then with_state state at i else i)
untouched-Backed reports id state at i other h = rw other h

-- An update without a condition on the row, where each row has two facts.
update-both :
    (P Q R : WorkItem → Type 0) (p : WorkItem → Bool) (f : WorkItem → WorkItem)
    → ((i : WorkItem) → P i → Q i → R (if p i then f i else i))
    → (xs : List WorkItem) → All P xs
    → All Q xs
    → All R (update p f xs)
update-both P Q R p f g [] h k = tt
update-both P Q R p f g (x ∷ xs) (h, hs) (k, ks) = (g x h k, update-both P Q R p f g xs hs ks)

-- The trigger on the state keeps the invariant.
state-Backs :
    (t : Database) (id : String) (state : WorkItemState) (at : String)
    → (is_known id t && (needs_outcome state && not (has_outcome id t))) ≡ false
    → Backs t
    → Backs (in_state id state at t)
state-Backs t id state at guarded h = elim (Bool-cases (is_known id t)) [
  | inl known ↦
      All-update _ _ (is_id id) (with_state state at)
        (move-Backed t.outcome_reports id state at (rw known at guarded)) t.work_items h
  | inr unknown ↦
      update-both _ _ _ (is_id id) (with_state state at)
        (untouched-Backed t.outcome_reports id state at) t.work_items
        (exists-eq-false (is_id id) t.work_items unknown) h
]

replaced-keeps :
    (report : OutcomeReport) (id : String) (r : OutcomeReport)
    → is_report_of id r ≡ true
    → is_report_of id (if is_report_of report.work_item_id r then report else r) ≡ true
replaced-keeps report id r h = elim (Bool-cases (r.work_item_id == report.work_item_id)) [
  | inl same ↦ rw (same, ← eq_test r.work_item_id report.work_item_id same) h
  | inr other ↦ rw other h
]

-- Filing a report takes no Work Item's report away.
placed-exists :
    (report : OutcomeReport) (reports : List OutcomeReport) (id : String)
    → exists (is_report_of id) reports ≡ true
    → exists (is_report_of id) (placed report reports) ≡ true
placed-exists report reports id h =
    elim (Bool-cases (exists (is_report_of report.work_item_id) reports)) [
      | inl known ↦ rw known (
          exists-update (is_report_of id) (is_report_of report.work_item_id) (λ _. report)
            (replaced-keeps report id) reports h)
      | inr fresh ↦ rw fresh (exists-append (is_report_of id) reports report h)
    ]

filed-Backed :
    (report : OutcomeReport) (reports : List OutcomeReport) (i : WorkItem)
    → Backed reports i
    → Backed (placed report reports) i
filed-Backed report reports i h = elim (Bool-cases (exists (is_report_of i.id) reports)) [
  | inl known ↦ rw (placed-exists report reports i.id known) (ground arith)
  | inr fresh ↦ let n : needs_outcome i.state ≡ false = ground arith in rw n refl
]

Step-Backs : {t u : Database} → Step t u → Backs t → Backs u
Step-Backs (aside (items, _, reports, _)) h = rw (items, reports) h
Step-Backs {t} (noted id kind at details silent e) h = rw e h
Step-Backs {t} (annotated id f same e) h = rw e (
    All-update _ _ (is_id id) f (annotate-Backed t.outcome_reports (is_id id) f same) t.work_items
      h)
Step-Backs {t} (moved id state event at details current there known guarded e) h =
    rw e (state-Backs t id state at guarded h)
Step-Backs {t} (created row at details captures new_id new_command e) h =
    rw e (All-append _ t.work_items (row ∷ []) h (rw captures refl, tt))
Step-Backs {t} (landed id state event at details tells guarded e) h =
    rw e (state-Backs t id state at guarded h)
Step-Backs {t} (filed report fresh e) h =
    rw e (All-weaken _ _ (filed-Backed report t.outcome_reports) t.work_items h)

pub Steps-Backs : {t u : Database} → Steps t u → Backs t → Backs u
Steps-Backs here h = h
Steps-Backs (next before s) h = Step-Backs s (Steps-Backs before h)
