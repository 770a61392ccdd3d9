-- ===== src/Store/Replay.antt =====
-- src/operations/operations-state.ts: the audit trail accounts for every Work Item's state.
use real_ming.Base.{
  String, String_eq, Bool, true, false, ◌==◌, if◌then◌else◌, ◌≡◌, refl, subst, ap, Option, none,
  some, List, [], ◌∷◌, ◌++◌, All, All-both, exists, exists-eq-false, All-append, All-weaken,
  All-update, arith, Bool-cases, inl, inr, eq_test, test_self, test_sym,
}
use real_ming.Contracts.Kinds.{
  WorkItemState, WorkItemState_eq, captured, AuditEventType, work_item_captured,
}
use real_ming.Contracts.Json.{Details}
use real_ming.Contracts.Records.{WorkItem, AuditEvent}
use real_ming.Lifecycle.{lifecycle_event_for}
use real_ming.Lifecycle.States.{every, every_sound}
use real_ming.Store.Database.{Database}
use real_ming.Store.Sql.{is_id, with_state, audited, in_state}
use real_ming.Store.Steps.{
  state_after, Annotates, Step, aside, noted, annotated, moved, created, landed, filed, Steps, here,
  next,
}

abbrev is_state : WorkItemState → Option WorkItemState → Bool
is_state t none = false
is_state t (some s) = s == t

abbrev newer : Option WorkItemState → Option WorkItemState → Option WorkItemState
newer none known = known
newer (some s) known = some s

-- What is known of a Work Item's state after one more audit event.
abbrev heard : String → AuditEvent → Option WorkItemState → Option WorkItemState
heard id e known = if e.work_item_id == id then newer (state_after e.kind) known else known

replay_from : String → Option WorkItemState → List AuditEvent → Option WorkItemState
replay_from id known [] = known
replay_from id known (e ∷ es) = replay_from id (heard id e known) es

-- The state of a Work Item, told by its audit trail alone: that of its latest lifecycle event.
pub replay : String → List AuditEvent → Option WorkItemState
replay id events = replay_from id none events

replay_from-append :
    (id : String) (known : Option WorkItemState) (es : List AuditEvent) (e : AuditEvent)
    → replay_from id known (es ++ (e ∷ [])) ≡ heard id e (replay_from id known es)
unfolding replay_from
replay_from-append id known [] e = refl
replay_from-append id known (d ∷ es) e = replay_from-append id (heard id d known) es e

replay-append :
    (id : String) (es : List AuditEvent) (e : AuditEvent)
    → replay id (es ++ (e ∷ [])) ≡ heard id e (replay id es)
unfolding replay
replay-append id es e = replay_from-append id none es e

abbrev Replayed : List AuditEvent → WorkItem → Type 0
Replayed events item = replay item.id events ≡ some item.state

-- Each Work Item's state is the one that its audit trail tells.
abbrev pub Replays : Database → Type 0
Replays db = All (Replayed db.audit_events) db.work_items

silent-Replayed :
    (es : List AuditEvent) (e : AuditEvent)
    → state_after e.kind ≡ none
    → (i : WorkItem) → Replayed es i
    → Replayed (es ++ (e ∷ [])) i
silent-Replayed es e silent i h = rw (replay-append i.id es e) (ground arith)

-- The event of a change of state tells the state for the rows of its Work Item.
state-Replayed :
    (es : List AuditEvent) (e : AuditEvent) (state : WorkItemState) (at : String)
    → state_after e.kind ≡ some state
    → (i : WorkItem) → Replayed es i
    → Replayed (es ++ (e ∷ [])) (if is_id e.work_item_id i then with_state state at i else i)
state-Replayed es e state at tells i h = elim (Bool-cases (i.id == e.work_item_id)) [
  | inl same ↦ rw (same, replay-append i.id es e, test_sym e.work_item_id i.id, same, tells) refl
  | inr other ↦ rw (other, replay-append i.id es e, test_sym e.work_item_id i.id, other) h
]

annotate-Replayed :
    (es : List AuditEvent) (p : WorkItem → Bool) (f : WorkItem → WorkItem)
    → Annotates f
    → (i : WorkItem) → Replayed es i
    → Replayed es (if p i then f i else i)
annotate-Replayed es p f same i h = elim (Bool-cases (p i)) [
  | inl chosen ↦ rw (chosen, same.id i, same.state i) h
  | inr other ↦ rw other h
]

tells_ok : WorkItemState → Option AuditEventType → Bool
tells_ok t none = true
tells_ok t (some e) = is_state t (state_after e)

-- Every event of the transition table tells the state that the transition leads to.
tells_all : every (λ s. every (λ t. tells_ok t (lifecycle_event_for s t))) ≡ true
unfolding every lifecycle_event_for tells_ok
tells_all = refl

is_state_eq : (t : WorkItemState) (o : Option WorkItemState) → is_state t o ≡ true → o ≡ some t
is_state_eq t none h = cc
is_state_eq t (some s) h = ap some (eq_test s t h)

lifecycle_event_for-state_after :
    (s t : WorkItemState) (event : AuditEventType)
    → lifecycle_event_for s t ≡ some event
    → state_after event ≡ some t
unfolding tells_ok
lifecycle_event_for-state_after s t event e = is_state_eq t (state_after event) (
    subst (λ o. tells_ok t o ≡ true) e
      (every_sound (λ v. tells_ok v (lifecycle_event_for s v)) t
        (every_sound (λ u. every (λ v. tells_ok v (lifecycle_event_for u v))) s tells_all)))

state-Replays :
    (t : Database) (id : String) (state : WorkItemState) (event : AuditEventType) (at : String)
    (details : Details)
    → state_after event ≡ some state
    → Replays t
    → Replays (audited id event at details (in_state id state at t))
state-Replays t id state event at details tells h =
    All-update _ _ (is_id id) (with_state state at) (state-Replayed t.audit_events _ state at tells)
      t.work_items h

other-Replayed :
    (es : List AuditEvent) (e : AuditEvent) (i : WorkItem)
    → (i.id == e.work_item_id) ≡ false
    → Replayed es i
    → Replayed (es ++ (e ∷ [])) i
other-Replayed es e i other h = rw (replay-append i.id es e, test_sym e.work_item_id i.id, other) h

created-Replays :
    (t : Database) (row : WorkItem) (at : String) (details : Details)
    → row.state ≡ captured
    → exists (is_id row.id) t.work_items ≡ false
    → Replays t
    → Replays (
        audited row.id work_item_captured at details
          (record t { work_items = t.work_items ++ (row ∷ []) }))
created-Replays t row at details captures fresh h =
    All-append _ t.work_items (row ∷ [])
      (All-both _ _ _ (other-Replayed t.audit_events _) t.work_items
        (exists-eq-false (is_id row.id) t.work_items fresh) h)
      (rw (replay-append row.id t.audit_events _, test_self row.id, captures) refl, tt)

-- Every step keeps the audit trail telling each Work Item's state.
pub Step-Replays : {t u : Database} → Step t u → Replays t → Replays u
Step-Replays (aside (items, events, _, _)) h = rw (items, events) h
Step-Replays {t} (noted id kind at details silent e) h =
    rw e (All-weaken _ _ (silent-Replayed t.audit_events _ silent) t.work_items h)
Step-Replays {t} (annotated id f same e) h = rw e (
    All-update _ _ (is_id id) f (annotate-Replayed t.audit_events (is_id id) f same) t.work_items h)
Step-Replays {t} (moved id state event at details current there known guarded e) h = rw e (
    state-Replays t id state event at details
      (lifecycle_event_for-state_after current.state state event known) h)
Step-Replays {t} (created row at details captures new_id new_command e) h =
    rw e (created-Replays t row at details captures new_id h)
Step-Replays {t} (landed id state event at details tells guarded e) h =
    rw e (state-Replays t id state event at details tells h)
Step-Replays (filed report fresh e) h = rw e h

pub Steps-Replays : {t u : Database} → Steps t u → Replays t → Replays u
Steps-Replays here h = h
Steps-Replays (next before s) h = Step-Replays s (Steps-Replays before h)
