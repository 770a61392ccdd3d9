-- ===== src/Store/Items.antt =====
-- src/operations/operations-state.ts: the methods that create, move and annotate Work Items. `id` is what
-- `randomUUID()` returned. The row that a method returns is read again after its commit; it is
-- there, since the audit row of the same transaction refers to it.
pub mod Transition
pub mod Priorities
use real_ming.Base.{
  String, String_eq, Bool, true, false, not, ◌&&◌, ◌||◌, ◌==◌, if◌then◌else◌, is_blank, Option,
  none, some, List, [], ◌∷◌, ◌++◌, map, find, exists, update,
}
use real_ming.Contracts.Kinds.{
  WorkItemState, captured, ExecutiveRole, ExecutiveRole_eq, coo, WorkItemPriority,
  WorkItemPriority_eq, Workstream, AuditEventType, work_item_captured, work_item_priority_recorded,
  work_item_commitment_recorded,
}
use real_ming.Contracts.Names.{executive_text, workstream_text, priority_text}
use real_ming.Contracts.Json.{Json, null, text, array, Details, items, fields}
use real_ming.Contracts.Records.{
  CollaboratingExecutiveRequest, CollaboratingExecutiveAssignment, NormalizedCeoAction, WorkItem,
  ceo_set, externally_sourced, Commitment, confirmed, proposed,
}
use real_ming.Lifecycle.{lifecycle_event_for}
use real_ming.Store.Database.{
  PriorityWrite, constraint_violated, transition_not_allowed, collaborator_invalid,
  priority_key_reused, ok, err,
}
use real_ming.Store.Sql.{
  Sql, pure, throw, ◌>>=◌, ◌>>◌, rows, is_id, is_known, require_work_item, insert_work_item,
  set_state, assert_no_sensitive_data, append_audit,
}

abbrev workstream_or_null : Option Workstream → Json
workstream_or_null none = null
workstream_or_null (some w) = text (workstream_text w)

abbrev optional_executive : Option ExecutiveRole → Details
optional_executive none = []
optional_executive (some e) = ("accountableExecutive", text (executive_text e)) ∷ []

-- What `createWorkItem` has inspected for secrets.
abbrev action_payload : NormalizedCeoAction → Json
action_payload action = fields (
    ("actorId", text action.actor_id)
    ∷ ("workspaceId", text action.workspace_id)
    ∷ ("idempotencyKey", text action.idempotency_key)
    ∷ ("intent", text action.intent)
    ∷ (
      "expectedEffect",
      fields (
          ("kind", text action.expected_effect.kind)
          ∷ ("value", text action.expected_effect.value)
          ∷ []),
    )
    ∷ (optional_executive action.accountable_executive
        ++ (("workstream", workstream_or_null action.workstream)
            ∷ (
              "collaboratingExecutives",
              array (
                  items (
                    map
                      (λ (r : CollaboratingExecutiveRequest). fields (
                        ("executive", text (executive_text r.executive))
                        ∷ ("contribution", text r.contribution)
                        ∷ []))
                      action.collaborating_executives)),
            )
            ∷ [])))

-- The assignments of a Work Item. Each role collaborates once, none is the accountable one, and
-- each has something to contribute.
unfoldable pub assign_collaborators :
    ExecutiveRole
    → List ExecutiveRole
    → List CollaboratingExecutiveRequest
    → Sql (List CollaboratingExecutiveAssignment)
assign_collaborators accountable roles [] = pure []
assign_collaborators accountable roles (r ∷ rs) =
    let rest = assign_collaborators accountable (r.executive ∷ roles) rs in
    if r.executive == accountable
      || exists (λ role. role == r.executive) roles
      || is_blank r.contribution
    then throw collaborator_invalid
    else do
      assigned ← rest
      pure (record { executive = r.executive; contribution = r.contribution } ∷ assigned)

abbrev pub or_coo : Option ExecutiveRole → ExecutiveRole
or_coo none = coo
or_coo (some e) = e

abbrev captured_item :
    String → NormalizedCeoAction → List CollaboratingExecutiveAssignment → String → WorkItem
captured_item id action collaborators at = record {
  id = id;
  actor_id = action.actor_id;
  workspace_id = action.workspace_id;
  idempotency_key = action.idempotency_key;
  intent = action.intent;
  expected_effect = action.expected_effect;
  accountable_executive = or_coo action.accountable_executive;
  workstream = action.workstream;
  collaborating_executives = collaborators;
  confirmed_commitment = none;
  proposed_commitment = none;
  priority = none;
  state = captured;
  created_at = at;
  updated_at = at;
}

abbrev captured_details : NormalizedCeoAction → List CollaboratingExecutiveAssignment → Details
captured_details action collaborators =
    ("actorId", text action.actor_id)
    ∷ ("workspaceId", text action.workspace_id)
    ∷ ("idempotencyKey", text action.idempotency_key)
    ∷ ("accountableExecutive", text (executive_text (or_coo action.accountable_executive)))
    ∷ ("workstream", workstream_or_null action.workstream)
    ∷ (
      "collaboratingExecutives",
      array (
          items (
            map (λ (a : CollaboratingExecutiveAssignment). text (executive_text a.executive))
              collaborators)),
    )
    ∷ []

-- `UPDATE work_items SET … WHERE id = ?` of columns that no trigger reads
unfoldable pub edit_item : String → (WorkItem → WorkItem) → Sql (Unit {0})
edit_item id f db = ok (tt, record db { work_items = update (is_id id) f db.work_items })

abbrev priority_or_cleared : Option WorkItemPriority → String
priority_or_cleared none = "cleared"
priority_or_cleared (some p) = priority_text p

abbrev priority_or_null : Option WorkItemPriority → Json
priority_or_null none = null
priority_or_null (some p) = text (priority_text p)

abbrev pub same_priority : Option WorkItemPriority → Option WorkItemPriority → Bool
same_priority none none = true
same_priority (some p) (some q) = p == q
same_priority _ _ = false

-- `INSERT INTO work_item_priority_writes`
unfoldable pub insert_priority_write : PriorityWrite → Sql (Unit {0})
insert_priority_write row db =
    if exists (λ w. w.idempotency_key == row.idempotency_key) db.priority_writes
      || not (is_known row.work_item_id db)
    then err (constraint_violated "work_item_priority_writes")
    else ok (tt, record db { priority_writes = db.priority_writes ++ (row ∷ []) })

abbrev pub with_commitment : Commitment → String → WorkItem → WorkItem
with_commitment (confirmed c) at item = record item {
  confirmed_commitment = some c;
  updated_at = at;
}
with_commitment (proposed c) at item = record item { proposed_commitment = some c; updated_at = at }

pub commitment_details : Commitment → Details
commitment_details (confirmed (ceo_set value actor_id recorded_at)) =
    ("kind", text "CEO-set")
    ∷ ("value", text value)
    ∷ ("provenance", fields (("actorId", text actor_id) ∷ ("recordedAt", text recorded_at) ∷ []))
    ∷ []
commitment_details (confirmed (externally_sourced value identity reference as_of recorded_at)) =
    ("kind", text "Externally Sourced")
    ∷ ("value", text value)
    ∷ (
      "provenance",
      fields (
          ("sourceIdentity", text identity)
          ∷ ("sourceReference", text reference)
          ∷ ("asOf", text as_of)
          ∷ ("recordedAt", text recorded_at)
          ∷ []),
    )
    ∷ []
commitment_details (proposed c) =
    ("kind", text "Proposed Commitment")
    ∷ ("value", text c.value)
    ∷ (
      "provenance",
      fields (
          ("proposedBy", text (executive_text c.proposed_by))
          ∷ ("proposedAt", text c.proposed_at)
          ∷ []),
    )
    ∷ []

module _ (carries_secret : Json → Bool) where
  unfoldable pub create_work_item : String → NormalizedCeoAction → String → Sql WorkItem
  create_work_item id action at = do
    assert_no_sensitive_data carries_secret "A Work Item" (action_payload action)
    collaborators ←
        assign_collaborators (or_coo action.accountable_executive) []
          action.collaborating_executives
    insert_work_item (captured_item id action collaborators at)
    append_audit carries_secret id work_item_captured at (captured_details action collaborators)
    require_work_item id

  unfoldable pub move :
      String → WorkItemState → String → Details → Option AuditEventType → WorkItem → Sql WorkItem
  move id state at details none current = throw (transition_not_allowed current.state state)
  move id state at details (some event) current = do
    set_state id state at
    append_audit carries_secret id event at details
    require_work_item id

  unfoldable pub transition : String → WorkItemState → String → Details → Sql WorkItem
  transition id state at details = do
    current ← require_work_item id
    move id state at details (lifecycle_event_for current.state state) current

  -- A write whose key is known already: a replay, or the key of another edit.
  unfoldable pub replay_priority : String → Option WorkItemPriority → PriorityWrite → Sql WorkItem
  replay_priority id priority write =
      if not (write.work_item_id == id) || not (same_priority write.priority priority)
      then throw priority_key_reused
      else require_work_item id

  unfoldable pub write_priority : String → Option WorkItemPriority → String → String → Sql WorkItem
  write_priority id priority key at = do
    edit_item id (λ item. record item { priority = priority; updated_at = at })
    insert_priority_write
        (record { idempotency_key = key; work_item_id = id; priority = priority; recorded_at = at })
    append_audit carries_secret id work_item_priority_recorded at
        (("idempotencyKey", text key) ∷ ("priority", priority_or_null priority) ∷ [])
    require_work_item id

  unfoldable pub priority_found :
      String → Option WorkItemPriority → String → String → Option PriorityWrite → Sql WorkItem
  priority_found id priority key at (some write) = replay_priority id priority write
  priority_found id priority key at none = write_priority id priority key at

  unfoldable pub record_priority : String → Option WorkItemPriority → String → String → Sql WorkItem
  record_priority id priority key at = do
    current ← require_work_item id
    replay ← rows (λ db. find (λ w. w.idempotency_key == key) db.priority_writes)
    priority_found id priority key at replay

  unfoldable pub record_commitment : String → Commitment → String → Sql WorkItem
  record_commitment id commitment at = do
    edit_item id (with_commitment commitment at)
    append_audit carries_secret id work_item_commitment_recorded at (commitment_details commitment)
    require_work_item id
