-- ===== src/Examples/Incidents.antt =====
-- The theorems on exception notices, at a blocker that is noticed in the night and clears before the morning.
use real_ming.Base.{◌≡◌, refl, true, false, none, some, [], ◌∷◌, exists}
use real_ming.Telegram.Kinds.{material_blocker, TelegramNotification}
use real_ming.Telegram.Tables.{NoticeState, NoticeGroup, NoticeDelivery, Tables, empty_tables}
use real_ming.Telegram.Outbox.{pending_telegram_deliveries, telegram_delivery_status}
use real_ming.Telegram.Outbox.Pending.{is_pending_of}
use real_ming.Telegram.Notices.{hold_exception_notice}
use real_ming.Telegram.Channel.{Door, done, after}
use real_ming.Notices.Kinds.{ExceptionNotice, Admission}
use real_ming.Notices.Schedule.{Calendar, minutes_into_day, is_weekend}
use real_ming.Notices.Rhythm.{admit}
use real_ming.Notices.Rhythm.Held.{waits, admit-hold}
use real_ming.Notices.Sweep.{record_recovery}
use real_ming.Notices.Sweep.Recovered.{record_recovery-called_off}
use real_ming.Examples.Deliveries.{open_channel, closed_door}

-- It is always half past eleven on a Thursday evening.
abbrev evening : Calendar
evening = record {
  parse_date = λ s. some 1000;
  operating_day_of = λ o. "2026-01-01";
  local_clock = λ n. some (23, 30);
  utc_day = λ d. 4;
  instant_at_local_time = λ d h m. "2026-01-01T23:00:00.000Z";
}

abbrev blocker : TelegramNotification
blocker = record {
  kind = material_blocker;
  notice_text = "The build is blocked";
  idempotency_key = "blocker";
}

abbrev quiet_notice : ExceptionNotice
quiet_notice = record { notification = blocker; urgent_deadline = false; signature = none }

admit-hold_example :
    (admit evening open_channel quiet_notice closed_door
      ≡ done
          (Admission.held "2026-01-01T23:00:00.000Z" "do-not-disturb")
          (after (admit evening open_channel quiet_notice closed_door)))
    × ((waits "blocker" (after (admit evening open_channel quiet_notice closed_door)).tables ≡ true)
        × ((after (admit evening open_channel quiet_notice closed_door)).handed ≡ []))
unfolding minutes_into_day is_weekend
admit-hold_example =
    admit-hold evening open_channel blocker false closed_door 1000 1410 refl refl refl refl refl

abbrev open_group : NoticeGroup
open_group = record {
  signature = "build";
  first_seen = "2026-01-01T15:30:00.000Z";
  last_seen = "2026-01-01T15:30:00.000Z";
  occurrences = 1;
  recovered_at = none;
}

abbrev held_delivery : NoticeDelivery
held_delivery = record {
  signature = "build";
  idempotency_key = "blocker";
  state = NoticeState.held;
  updated_at = "2026-01-01T15:30:00.000Z";
}

abbrev blocked_tables : Tables
blocked_tables =
    hold_exception_notice "blocker" "material-blocker" "The build is blocked"
      "2026-01-01T15:30:00.000Z" "2026-01-01T23:00:00.000Z"
      (record empty_tables { groups = open_group ∷ []; notice_deliveries = held_delivery ∷ [] })

abbrev blocked_door : Door
blocked_door = record closed_door { tables = blocked_tables }

record_recovery-called_off_example :
    (record_recovery evening open_channel "build" none none blocked_door
      ≡ done
          (Admission.recovered_without_delivery
            "The blocker cleared before its Exception Notice reached the CEO.")
          (after (record_recovery evening open_channel "build" none none blocked_door)))
    × (((after (record_recovery evening open_channel "build" none none blocked_door)).handed ≡ [])
        × ((waits "blocker"
                (after (record_recovery evening open_channel "build" none none blocked_door)).tables
              ≡ false)
            × (exists (is_pending_of "blocker") (
                  pending_telegram_deliveries open_channel.parse_date "2026-01-02T00:00:00.000Z"
                    (after
                      (record_recovery evening open_channel "build" none none blocked_door)).tables)
                ≡ false)))
unfolding hold_exception_notice telegram_delivery_status
record_recovery-called_off_example =
    record_recovery-called_off evening open_channel "build" none none blocked_door open_group
      held_delivery "2026-01-02T00:00:00.000Z" refl refl refl refl
