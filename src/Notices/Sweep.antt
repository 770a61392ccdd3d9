-- ===== src/Notices/Sweep.antt =====
-- src/operations/exception-notice-rhythm.ts: the sweep that releases the notices of the night, and the
-- recovery of an incident.
pub mod Recovered
use Prim.Native.String.{◌++◌ as joined}
use real_ming.Base.{
  ℕ, suc, ◌+◌, ◌*◌, String, String_eq, Bool, true, false, not, ◌&&◌, ◌||◌, ◌==◌, nat_eq, leb,
  if◌then◌else◌, decimal, Option, none, some, List, [], ◌∷◌, take,
}
use real_ming.Telegram.Kinds.{
  ProviderFailure, TelegramNotificationKind, brief, approval, material_blocker, critical_incident,
  completed_outcome_report, recovery_notice, entertainment_digest, routine_progress,
  TelegramNotification, TelegramNotificationResult, DeliveryStatus, missing, terminal,
  notification_kind_text,
}
use real_ming.Telegram.Tables.{
  NoticeState, NoticeDelivery, HeldNotice, Tables, clock_not_canonical, clock_unreadable,
  held_kind_unknown,
}
use real_ming.Telegram.Outbox.{telegram_delivery_status}
use real_ming.Telegram.Notices.{
  GroupKind, first, grouped, claim_exception_notice_group, exception_notice_delivery,
  record_exception_notice_delivery, mark_exception_notice_delivery_by_idempotency,
  release_exception_notice_group, hold_exception_notice, due_held_exception_notices,
  mark_held_exception_notice_released, cancel_held_exception_notice, cancel_telegram_delivery,
  RecoveryKind, Recovery, record_exception_notice_recovery,
}
use real_ming.Telegram.Channel.{Channel, M, pure, throw, ◌>>=◌, ◌>>◌, read, stated, written, caught}
use real_ming.Telegram.FrontDoor.{now, notify}
use real_ming.Notices.Kinds.{ExceptionNotice, Admission}
use real_ming.Notices.Rhythm.{admit, narrow_notification_kind, reached_ceo}
use real_ming.Notices.Schedule.{
  Calendar, do_not_disturb_end_hour, do_not_disturb_start_minute, minutes_into_day, is_weekend,
  is_night,
}

module _ (calendar : Calendar) (channel : Channel) where
  -- `deliver` of a notice from the night, in `releaseHeld`.
  abbrev sent_on : HeldNotice → String → TelegramNotificationResult → M Bool
  sent_on notice at (TelegramNotificationResult.failed kind failure) =
      written (
        mark_exception_notice_delivery_by_idempotency notice.idempotency_key NoticeState.pending at)
      >> pure false
  sent_on notice at result =
      written (mark_held_exception_notice_released notice.idempotency_key at) >> pure true

  abbrev narrowed : HeldNotice → String → Option TelegramNotificationKind → M Bool
  narrowed notice at none = throw (held_kind_unknown notice.kind)
  narrowed notice at (some kind) =
      notify channel (record {
        kind = kind;
        notice_text = notice.held_text;
        idempotency_key = notice.idempotency_key;
      })
      >>= sent_on notice at

  abbrev is_released : Option Bool → Bool
  is_released none = false
  is_released (some b) = b

  -- The loop of `releaseHeld`: how many notices were released, and how many were not.
  unfoldable pub release_each : List HeldNotice → String → M (ℕ × ℕ)
  release_each [] at = pure (0, 0)
  release_each (h ∷ hs) at = do
    result ← caught (narrowed h at (narrow_notification_kind h.kind))
    counts ← release_each hs at
    pure (if is_released result then (suc counts.0, counts.1) else (counts.0, suc counts.1))

  unfoldable pub release_held : M (ℕ × ℕ)
  release_held = do
    at ← now channel
    due ← read (due_held_exception_notices at)
    release_each (take 50 due) at

  abbrev plural : ℕ → String
  plural n = if nat_eq n 1 then "" else "s"

  -- The text of a recovery, if none is given.
  abbrev recovery_text : String → ℕ → String
  recovery_text signature n = joined "Recovered: " (
      joined signature
        (joined " after " (joined (decimal n) (joined " occurrence" (joined (plural n) ".")))))

  abbrev or_given : Option String → String → String
  or_given none t = t
  or_given (some given) t = given

  abbrev announced : String → Option String → Option String → String → ℕ → M Admission
  announced signature given_text given_key at n = admit calendar channel (record {
    notification = record {
      kind = recovery_notice;
      notice_text = or_given given_text (recovery_text signature n);
      idempotency_key = or_given given_key (joined "recovery:" (joined signature (joined ":" at)));
    };
    urgent_deadline = false;
    signature = none;
  })

  -- The blocker cleared before its notice reached the CEO.
  unfoldable pub called_off_notice : String → String → String → M Admission
  called_off_notice signature key at = do
    written (cancel_telegram_delivery key at)
    written (cancel_held_exception_notice key at)
    written (record_exception_notice_delivery signature key NoticeState.cancelled at)
    pure (
        Admission.recovered_without_delivery
          "The blocker cleared before its Exception Notice reached the CEO.")

  abbrev recovered_notice :
      String → Option String → Option String → String → ℕ → Option NoticeDelivery → M Admission
  recovered_notice signature given_text given_key at n none =
      announced signature given_text given_key at n
  recovered_notice signature given_text given_key at n (some d) = do
    reached ← read (reached_ceo d)
    if reached
        then written
            (record_exception_notice_delivery signature d.idempotency_key NoticeState.delivered at)
          >> announced signature given_text given_key at n
        else called_off_notice signature d.idempotency_key at

  abbrev by_recovery : String → Option String → Option String → String → Recovery → M Admission
  by_recovery signature given_text given_key at recovery = elim recovery.kind [
    | RecoveryKind.already_recovered ↦ pure Admission.already_recovered
    | RecoveryKind.recovered ↦
        recovered_notice signature given_text given_key at recovery.occurrences recovery.delivery
  ]

  unfoldable pub record_recovery : String → Option String → Option String → M Admission
  record_recovery signature given_text given_key = do
    at ← now channel
    recovery ← stated (record_exception_notice_recovery signature at)
    by_recovery signature given_text given_key at recovery
