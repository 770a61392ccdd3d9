-- ===== src/Telegram/Notices.antt =====
-- src/operations/operations-state.ts: the groups of repeated exception notices, the delivery of each
-- group's notice, and the notices that are held over the night.
use real_ming.Base.{
  ℕ, suc, String, String_eq, Bool, true, false, ◌&&◌, ◌||◌, ◌==◌, if◌then◌else◌, text_leb, Option,
  none, some, List, [], ◌∷◌, ◌++◌, find, exists, update, select,
}
use real_ming.Telegram.Kinds.{DeliveryState, DeliveryState_eq}
use real_ming.Telegram.Tables.{
  Delivery, NoticeGroup, NoticeState, NoticeDelivery, HeldNotice, Tables, delivered, cancelled,
}

pub data GroupKind : Type 0 where
  first grouped : GroupKind

abbrev pub has_signature : String → NoticeGroup → Bool
has_signature signature g = g.signature == signature

abbrev pub notice_group : String → Tables → Option NoticeGroup
notice_group signature t = find (has_signature signature) t.groups

abbrev pub is_recovered : NoticeGroup → Bool
is_recovered g = elim g.recovered_at [ none ↦ false | some at ↦ true ]

abbrev new_group : String → String → NoticeGroup
new_group signature at = record {
  signature = signature;
  first_seen = at;
  last_seen = at;
  occurrences = 1;
  recovered_at = none;
}

-- `INSERT … ON CONFLICT(signature) DO UPDATE`
abbrev opened : String → String → Tables → Tables
opened signature at t =
    if exists (has_signature signature) t.groups
    then record t {
      groups = update (has_signature signature) (λ g. new_group g.signature at) t.groups;
    }
    else record t { groups = t.groups ++ (new_group signature at ∷ []) }

abbrev repeated : String → ℕ → String → Tables → Tables
repeated signature occurrences at t = record t {
  groups =
      update (has_signature signature) (λ g. record g { occurrences = occurrences; last_seen = at })
        t.groups;
}

unfoldable pub claim_exception_notice_group : String → String → Tables → (GroupKind × ℕ) × Tables
claim_exception_notice_group signature at t = elim (notice_group signature t) [
  | none ↦ ((first, 1), opened signature at t)
  | some g ↦
      if is_recovered g
      then ((first, 1), opened signature at t)
      else ((grouped, suc g.occurrences), repeated signature (suc g.occurrences) at t)
]

-- `exceptionNoticeDelivery`
abbrev pub exception_notice_delivery : String → Tables → Option NoticeDelivery
exception_notice_delivery signature t = find (λ d. d.signature == signature) t.notice_deliveries

unfoldable pub record_exception_notice_delivery :
    String → String → NoticeState → String → Tables → Tables
record_exception_notice_delivery signature key state at t =
    let row : NoticeDelivery = record {
      signature = signature;
      idempotency_key = key;
      state = state;
      updated_at = at;
    } in
    if exists (λ d. d.signature == signature) t.notice_deliveries
    then record t {
      notice_deliveries =
          update (λ d. d.signature == signature)
            (λ d. record d { idempotency_key = key; state = state; updated_at = at })
            t.notice_deliveries;
    }
    else record t { notice_deliveries = t.notice_deliveries ++ (row ∷ []) }

unfoldable pub mark_exception_notice_delivery_by_idempotency :
    String → NoticeState → String → Tables → Tables
mark_exception_notice_delivery_by_idempotency key state at t = record t {
  notice_deliveries =
      update (λ d. d.idempotency_key == key) (λ d. record d { state = state; updated_at = at })
        t.notice_deliveries;
}

unfoldable pub release_exception_notice_group : String → String → Tables → Tables
release_exception_notice_group signature at t = record t {
  groups = update (has_signature signature) (λ g. record g { recovered_at = some at }) t.groups;
}

abbrev pub is_held : HeldNotice → Bool
is_held h = elim h.released_at [ none ↦ true | some at ↦ false ]

abbrev pub is_notice : String → HeldNotice → Bool
is_notice key h = h.idempotency_key == key

abbrev pub held_again : String → String → HeldNotice → HeldNotice
held_again held_at release_at h =
    if is_held h
    then h
    else record h { held_at = held_at; release_at = release_at; released_at = none }

unfoldable pub hold_exception_notice : String → String → String → String → String → Tables → Tables
hold_exception_notice key kind notice_text held_at release_at t =
    let row : HeldNotice = record {
      idempotency_key = key;
      kind = kind;
      held_text = notice_text;
      held_at = held_at;
      release_at = release_at;
      released_at = none;
    } in
    if exists (is_notice key) t.held_notices
    then record t {
      held_notices = update (is_notice key) (held_again held_at release_at) t.held_notices;
    }
    else record t { held_notices = t.held_notices ++ (row ∷ []) }

abbrev pub is_due_at : String → HeldNotice → Bool
is_due_at now h = is_held h && text_leb h.release_at now

-- `ORDER BY release_at ASC, rowid ASC`
abbrev insert_by_release : HeldNotice → List HeldNotice → List HeldNotice
insert_by_release h [] = h ∷ []
insert_by_release h (k ∷ ks) =
    if text_leb h.release_at k.release_at then h ∷ k ∷ ks else k ∷ insert_by_release h ks

abbrev by_release : List HeldNotice → List HeldNotice
by_release [] = []
by_release (h ∷ hs) = insert_by_release h (by_release hs)

unfoldable pub due_held_exception_notices : String → Tables → List HeldNotice
due_held_exception_notices now t = by_release (select (is_due_at now) t.held_notices)

abbrev pub closed_at : String → HeldNotice → HeldNotice
closed_at at h = record h { released_at = some at }

-- `cancelHeldExceptionNotice`
unfoldable pub cancel_held_exception_notice : String → String → Tables → Tables
cancel_held_exception_notice key at t = record t {
  held_notices = update (λ h. is_notice key h && is_held h) (closed_at at) t.held_notices;
}

unfoldable pub mark_held_exception_notice_released : String → String → Tables → Tables
mark_held_exception_notice_released key at t =
    mark_exception_notice_delivery_by_idempotency key delivered at (record t {
      held_notices = update (λ h. is_notice key h && is_held h) (closed_at at) t.held_notices;
    })

abbrev pub is_open : String → Delivery → Bool
is_open key d =
    d.idempotency_key == key
    && (d.state == DeliveryState.failed || d.state == DeliveryState.in_flight)

abbrev pub called_off : String → Delivery → Delivery
called_off at d = record d { state = DeliveryState.cancelled; updated_at = at }

unfoldable pub cancel_telegram_delivery : String → String → Tables → Tables
cancel_telegram_delivery key at t =
    mark_exception_notice_delivery_by_idempotency key cancelled at
      (record t { deliveries = update (is_open key) (called_off at) t.deliveries })

pub data RecoveryKind : Type 0 where
  recovered already_recovered : RecoveryKind

pub record Recovery : Type 0 where
  pub kind : RecoveryKind
  pub occurrences : ℕ
  pub delivery : Option NoticeDelivery

-- `recordExceptionNoticeRecovery`. Its update of the group leaves the deliveries alone.
unfoldable pub record_exception_notice_recovery : String → String → Tables → Recovery × Tables
unfolding release_exception_notice_group
record_exception_notice_recovery signature at t =
    let told = exception_notice_delivery signature t in
    elim (notice_group signature t) [
      | none ↦ (record { kind = already_recovered; occurrences = 0; delivery = told }, t)
      | some g ↦
          if is_recovered g
          then (
            record { kind = already_recovered; occurrences = g.occurrences; delivery = told },
            t,
          )
          else (
            record { kind = recovered; occurrences = g.occurrences; delivery = told },
            release_exception_notice_group signature at t,
          )
    ]
