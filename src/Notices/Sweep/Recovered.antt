-- ===== src/Notices/Sweep/Recovered.antt =====
-- src/operations/exception-notice-rhythm.ts: a notice whose blocker clears before it reached the CEO is
-- called off everywhere.
use real_ming.Base.{
  ℕ, suc, String, String_eq, Bool, false, ◌&&◌, ◌||◌, ◌==◌, ltb, ◌≡◌, refl, ap, ◌∙◌, Option, some,
  List, [], ◌∷◌, All, exists, exists-none, update, Bool-cases, inl, inr, arith,
}
use real_ming.Telegram.Kinds.{DeliveryState, DeliveryState_eq}
use real_ming.Telegram.Tables.{
  Delivery, NoticeState, NoticeGroup, NoticeDelivery, HeldNotice, Tables,
}
use real_ming.Telegram.Outbox.{
  has_key, is_retryable, may_retry, is_due, pending_telegram_deliveries, telegram_delivery_status,
}
use real_ming.Telegram.Outbox.Pending.{is_pending_of, pending_exists}
use real_ming.Telegram.Notices.{
  notice_group, is_recovered, exception_notice_delivery, is_notice, is_held, closed_at,
  cancel_held_exception_notice, is_open, called_off, cancel_telegram_delivery,
  mark_exception_notice_delivery_by_idempotency, record_exception_notice_delivery,
  release_exception_notice_group, RecoveryKind, record_exception_notice_recovery,
}
use real_ming.Telegram.Channel.{Channel, Door, Run, done, after, pure, ◌>>=◌, read, stated}
use real_ming.Telegram.FrontDoor.{now}
use real_ming.Notices.Kinds.{Admission}
use real_ming.Notices.Schedule.{Calendar}
use real_ming.Notices.Rhythm.{reached_ceo}
use real_ming.Notices.Rhythm.Held.{waits, record-waits}
use real_ming.Notices.Sweep.{called_off_notice, record_recovery}

record-deliveries :
    (signature k : String) (state : NoticeState) (at : String) (t : Tables)
    → (record_exception_notice_delivery signature k state at t).deliveries ≡ t.deliveries
unfolding record_exception_notice_delivery
record-deliveries signature k state at t =
    elim (Bool-cases (exists (λ d. d.signature == signature) t.notice_deliveries)) [
      | inl e ↦ rw e refl
      | inr e ↦ rw e refl
    ]

-- Nothing is held for a key once its notice is called off.
none_held :
    (key at : String) (hs : List HeldNotice)
    → exists
        (λ h. is_notice key h && is_held h)
        (update (λ h. is_notice key h && is_held h) (closed_at at) hs)
      ≡ false
none_held key at [] = refl
none_held key at (h ∷ hs) = elim (Bool-cases (is_notice key h)) [
  | inr f ↦ rw (f, f) (none_held key at hs)
  | inl s ↦ elim (Bool-cases (is_held h)) [
    | inl k ↦ rw (s, k, s) (none_held key at hs)
    | inr k ↦ rw (s, k, s, k) (none_held key at hs)
  ]
]

closed_row : (f g r l d k : Bool) → (k && (f || g)) ≡ false → (((f && r) && l) && (d && k)) ≡ false
closed_row f g r l d k h = ground arith

-- Nor is a delivery of the key left that may be retried.
none_retried :
    (parse_date : String → Option ℕ) (key at later : String) (ds : List Delivery)
    → All
        (λ d. (may_retry d && (is_due parse_date later d && has_key key d)) ≡ false)
        (update (is_open key) (called_off at) ds)
none_retried parse_date key at later [] = tt
none_retried parse_date key at later (d ∷ ds) = (
  elim (Bool-cases (is_open key d)) [
    | inl t ↦ rw t refl
    | inr f ↦ rw f (
        closed_row (d.state == DeliveryState.failed) (d.state == DeliveryState.in_flight)
          (is_retryable d.failure_retryable) (ltb d.attempt_count 3) (is_due parse_date later d)
          (has_key key d) f)
  ],
  none_retried parse_date key at later ds,
)

module _ (signature key at : String) (t : Tables) where
  -- The tables once a notice is called off.
  abbrev called_off_tables : Tables
  called_off_tables =
      record_exception_notice_delivery signature key NoticeState.cancelled at
        (cancel_held_exception_notice key at (cancel_telegram_delivery key at t))

  none_pending :
      (parse_date : String → Option ℕ) (later : String)
      → exists (is_pending_of key) (pending_telegram_deliveries parse_date later called_off_tables)
        ≡ false
  unfolding cancel_held_exception_notice cancel_telegram_delivery
      mark_exception_notice_delivery_by_idempotency
  none_pending parse_date later =
      pending_exists parse_date key later called_off_tables
      ∙ ap (λ ds. exists (λ d. may_retry d && (is_due parse_date later d && has_key key d)) ds)
          (record-deliveries signature key NoticeState.cancelled at
            (cancel_held_exception_notice key at (cancel_telegram_delivery key at t)))
      ∙ exists-none _ (update (is_open key) (called_off at) t.deliveries)
          (none_retried parse_date key at later t.deliveries)

  none_waits : waits key called_off_tables ≡ false
  unfolding cancel_held_exception_notice cancel_telegram_delivery
      mark_exception_notice_delivery_by_idempotency
  none_waits =
      record-waits key signature key NoticeState.cancelled at
        (cancel_held_exception_notice key at (cancel_telegram_delivery key at t))
      ∙ none_held key at t.held_notices

module _ (calendar : Calendar) (channel : Channel) (signature : String)
    (text_given key_given : Option String) (w : Door) (g : NoticeGroup) (d : NoticeDelivery) where
  abbrev recovery : Run Admission
  recovery = record_recovery calendar channel signature text_given key_given w

  abbrev at : String
  at = channel.clock w.ticks

  abbrev released : Tables
  released = release_exception_notice_group signature at w.tables

  recovers :
      notice_group signature w.tables ≡ some g
      → is_recovered g ≡ false
      → exception_notice_delivery signature w.tables ≡ some d
      → record_exception_notice_recovery signature at w.tables ≡ (
        record { kind = RecoveryKind.recovered; occurrences = g.occurrences; delivery = some d },
        released,
      )
  unfolding record_exception_notice_recovery
  recovers opens unrecovered told =
      rw (record_exception_notice_recovery, opens, unrecovered, told) refl

  still_unreached : reached_ceo d w.tables ≡ false → reached_ceo d released ≡ false
  unfolding release_exception_notice_group telegram_delivery_status
  still_unreached h = h

  runs :
      notice_group signature w.tables ≡ some g
      → is_recovered g ≡ false
      → exception_notice_delivery signature w.tables ≡ some d
      → reached_ceo d w.tables ≡ false
      → recovery
        ≡ done
            (Admission.recovered_without_delivery
              "The blocker cleared before its Exception Notice reached the CEO.")
            (record w {
              tables = called_off_tables signature d.idempotency_key at released;
              ticks = suc w.ticks;
            })
  unfolding record_recovery ◌>>=◌ now pure stated read called_off_notice
  runs opens unrecovered told unreached =
      rw (recovers opens unrecovered told, still_unreached unreached) refl

  -- The recovery of an open incident whose notice has not reached the CEO: the answer says so,
  -- nothing was handed to the transport, and from then on neither the notices that wait for
  -- the end of the night nor the deliveries that may be retried, at any later time, have the
  -- notice's key.
  pub record_recovery-called_off :
      (later : String)
      → notice_group signature w.tables ≡ some g
      → is_recovered g ≡ false
      → exception_notice_delivery signature w.tables ≡ some d
      → reached_ceo d w.tables ≡ false
      → (recovery
          ≡ done
              (Admission.recovered_without_delivery
                "The blocker cleared before its Exception Notice reached the CEO.")
              (after recovery))
        × (((after recovery).handed ≡ w.handed)
            × ((waits d.idempotency_key (after recovery).tables ≡ false)
                × (exists
                      (is_pending_of d.idempotency_key)
                      (pending_telegram_deliveries channel.parse_date later (after recovery).tables)
                    ≡ false)))
  record_recovery-called_off later opens unrecovered told unreached =
      rw (runs opens unrecovered told unreached) (
        refl,
        (
          refl,
          (
            none_waits signature d.idempotency_key at released,
            none_pending signature d.idempotency_key at released channel.parse_date later,
          ),
        ),
      )
