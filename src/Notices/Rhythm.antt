-- ===== src/Notices/Rhythm.antt =====
-- src/operations/exception-notice-rhythm.ts: which notices reach the CEO, and when. `notify` is the front
-- door's.
pub mod Held
use Prim.Native.String.{◌++◌ as joined}
use real_ming.Base.{
  ℕ, suc, ◌+◌, ◌*◌, String, String_eq, Bool, true, false, not, ◌&&◌, ◌||◌, ◌==◌, nat_eq, leb,
  if◌then◌else◌, decimal, Option, none, some, List, [], ◌∷◌, take,
}
use real_ming.Telegram.Kinds.{
  ProviderFailure, TelegramNotificationKind, brief, approval, material_blocker, critical_incident,
  completed_outcome_report, recovery_notice, entertainment_digest, routine_progress,
  TelegramNotification, TelegramNotificationResult, DeliveryStatus, missing, terminal,
  notification_kind_text,
}
use real_ming.Telegram.Tables.{
  NoticeState, NoticeDelivery, HeldNotice, Tables, clock_not_canonical, clock_unreadable,
  held_kind_unknown,
}
use real_ming.Telegram.Outbox.{telegram_delivery_status}
use real_ming.Telegram.Notices.{
  GroupKind, first, grouped, claim_exception_notice_group, exception_notice_delivery,
  record_exception_notice_delivery, mark_exception_notice_delivery_by_idempotency,
  release_exception_notice_group, hold_exception_notice, due_held_exception_notices,
  mark_held_exception_notice_released, cancel_held_exception_notice, cancel_telegram_delivery,
  RecoveryKind, Recovery, record_exception_notice_recovery,
}
use real_ming.Telegram.Channel.{Channel, M, pure, throw, ◌>>=◌, ◌>>◌, read, stated, written, caught}
use real_ming.Telegram.FrontDoor.{now, notify}
use real_ming.Notices.Kinds.{ExceptionNotice, Admission}
use real_ming.Notices.Schedule.{
  Calendar, do_not_disturb_end_hour, do_not_disturb_start_minute, minutes_into_day, is_weekend,
  is_night,
}

-- `doNotDisturbBypass`, and an urgent Approval.
abbrev bypasses : ExceptionNotice → Bool
bypasses notice = elim notice.notification.kind [
  | critical_incident ↦ true
  | approval ↦ notice.urgent_deadline
  | _ ↦ false
]

abbrev is_weekend_suppressed : TelegramNotificationKind → Bool
is_weekend_suppressed entertainment_digest = true
is_weekend_suppressed routine_progress = true
is_weekend_suppressed completed_outcome_report = true
is_weekend_suppressed _ = false

-- `narrowNotificationKind`
abbrev narrow_from : String → List TelegramNotificationKind → Option TelegramNotificationKind
narrow_from value [] = none
narrow_from value (k ∷ ks) =
    if notification_kind_text k == value then some k else narrow_from value ks

abbrev pub narrow_notification_kind : String → Option TelegramNotificationKind
narrow_notification_kind value = narrow_from value (
    brief ∷ approval ∷ material_blocker ∷ critical_incident ∷ completed_outcome_report
    ∷ recovery_notice ∷ entertainment_digest ∷ routine_progress ∷ [])

-- A notice that did not reach the CEO, and whose outbox entry never will.
abbrev is_lost_status : DeliveryStatus → Bool
is_lost_status s = elim s [
  | DeliveryStatus.missing ↦ true
  | DeliveryStatus.terminal ↦ true
  | DeliveryStatus.cancelled ↦ true
  | _ ↦ false
]

abbrev is_waiting_state : NoticeState → Bool
is_waiting_state NoticeState.held = false
is_waiting_state NoticeState.delivered = false
is_waiting_state _ = true

abbrev must_reopen : Option NoticeDelivery → Tables → Bool
must_reopen none t = false
must_reopen (some prior) t =
    is_waiting_state prior.state
    && is_lost_status (telegram_delivery_status prior.idempotency_key t)

abbrev is_delivered_notice : Option NoticeDelivery → Bool
is_delivered_notice none = false
is_delivered_notice (some prior) = elim prior.state [ NoticeState.delivered ↦ true | _ ↦ false ]

abbrev pub reached_ceo : NoticeDelivery → Tables → Bool
reached_ceo d t =
    is_delivered_notice (some d) || (elim (telegram_delivery_status d.idempotency_key t) [
      | DeliveryStatus.sent ↦ true
      | DeliveryStatus.in_flight ↦ true
      | DeliveryStatus.uncertain ↦ true
      | _ ↦ false
    ])

module _ (calendar : Calendar) (channel : Channel) where
  -- A repeated group whose notice is lost is opened again.
  abbrev reopened_group : String → String → GroupKind × ℕ → M (GroupKind × ℕ)
  reopened_group signature at (first, n) = pure (first, n)
  reopened_group signature at (grouped, n) = do
    reopen ← read λ t. must_reopen (exception_notice_delivery signature t) t
    if reopen
        then written (release_exception_notice_group signature at)
          >> stated (claim_exception_notice_group signature at)
        else pure (grouped, n)

  unfoldable pub group_of : String → String → M (GroupKind × ℕ)
  group_of signature at = do
    group ← stated (claim_exception_notice_group signature at)
    reopened_group signature at group

  abbrev record_delivery : Option String → String → NoticeState → String → M (Unit {0})
  record_delivery none key state at = pure tt
  record_delivery (some signature) key state at =
      written (record_exception_notice_delivery signature key state at)

  abbrev delivery_state : TelegramNotificationResult → NoticeState
  delivery_state (TelegramNotificationResult.sent kind) = NoticeState.delivered
  delivery_state (TelegramNotificationResult.suppressed kind) = NoticeState.cancelled
  delivery_state (TelegramNotificationResult.failed kind failure) =
      if failure.retryable then NoticeState.pending else NoticeState.cancelled

  abbrev admission_of : TelegramNotificationResult → Admission
  admission_of (TelegramNotificationResult.sent kind) = Admission.delivered kind
  admission_of (TelegramNotificationResult.suppressed kind) =
      Admission.suppressed "front-door-policy"
  admission_of (TelegramNotificationResult.failed kind failure) = Admission.failed kind failure

  unfoldable pub deliver : Option String → TelegramNotification → String → M Admission
  deliver signature notification at = do
    result ← notify channel notification
    record_delivery signature notification.idempotency_key (delivery_state result) at
    pure (admission_of result)

  -- `releaseAtFor`
  abbrev release_at_for : ℕ → ℕ → String
  release_at_for instant minute =
      let release_day =
        if leb do_not_disturb_start_minute minute then instant + 86400000 else instant in
      calendar.instant_at_local_time (calendar.operating_day_of (some release_day))
        do_not_disturb_end_hour 0

  unfoldable pub hold : Option String → TelegramNotification → String → String → M Admission
  hold signature notification at release_at = do
    written (
        hold_exception_notice notification.idempotency_key
          (notification_kind_text notification.kind) notification.notice_text at release_at)
    record_delivery signature notification.idempotency_key NoticeState.held at
    pure (Admission.held release_at "do-not-disturb")

  abbrev by_minute : Option String → ExceptionNotice → String → ℕ → Option ℕ → M Admission
  by_minute signature notice at instant none = throw clock_unreadable
  by_minute signature notice at instant (some minute) =
      if is_night minute && not (bypasses notice)
      then hold signature notice.notification at (release_at_for instant minute)
      else deliver signature notice.notification at

  abbrev by_clock : Option String → ExceptionNotice → String → Option ℕ → M Admission
  by_clock signature notice at none = throw clock_not_canonical
  by_clock signature notice at (some instant) =
      by_minute signature notice at instant (minutes_into_day calendar instant)

  abbrev by_group : String → ExceptionNotice → String → GroupKind × ℕ → M Admission
  by_group signature notice at (first, n) =
      by_clock (some signature) notice at (calendar.parse_date at)
  by_group signature notice at (grouped, n) = do
    is_delivered ← read λ t. is_delivered_notice (exception_notice_delivery signature t)
    pure (Admission.grouped n is_delivered)

  abbrev by_signature : Option String → ExceptionNotice → String → M Admission
  by_signature none notice at = by_clock none notice at (calendar.parse_date at)
  by_signature (some signature) notice at = group_of signature at >>= by_group signature notice at

  abbrev stands_down : TelegramNotificationKind → String → Bool
  stands_down kind at =
      is_weekend calendar (calendar.operating_day_of (calendar.parse_date at))
      && is_weekend_suppressed kind

  abbrev admit_at : ExceptionNotice → String → M Admission
  admit_at notice at =
      if stands_down notice.notification.kind at
      then pure (Admission.suppressed "weekend-rhythm")
      else by_signature notice.signature notice at

  unfoldable pub admit : ExceptionNotice → M Admission
  admit notice = now channel >>= admit_at notice
