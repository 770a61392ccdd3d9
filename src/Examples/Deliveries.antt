-- ===== src/Examples/Deliveries.antt =====
-- The theorems on Telegram deliveries at one message, whose transport is always overloaded or always
-- takes it.
use real_ming.Telegram.Ingress.{
  telegram_ingress_cursor, all_advanced, greatest, all_advanced-greatest,
}
use real_ming.Base.{◌≤◌, ◌≡◌, refl, true, false, none, some, List, [], ◌∷◌, count, exists, text_leb}
use real_ming.Telegram.Kinds.{
  rate_limited, send, ProviderFailure, TelegramSendRequest, TelegramTransportResult, DeliveryState,
  DeliveryStatus, critical_incident,
}
use real_ming.Telegram.Tables.{Delivery, Tables, empty_tables, append_telegram_audit}
use real_ming.Telegram.Outbox.{
  claim_telegram_delivery, claim_new, claim_known, claim_retry, fail_telegram_delivery,
  telegram_uncertain_delivery_count, pending_telegram_deliveries, telegram_delivery_status,
}
use real_ming.Telegram.Outbox.Claims.{is_send}
use real_ming.Telegram.Outbox.Pending.{is_pending_of, pending-claim}
use real_ming.Telegram.Notices.{cancel_telegram_delivery}
use real_ming.Telegram.Calls.{cancelling, called}
use real_ming.Telegram.Calls.Moves.{Moves, called-Moves}
use real_ming.Telegram.Calls.Cancelled.{claim-cancel}
use real_ming.Telegram.Channel.{
  Reply, replied, Channel, Door, done, after, pure, ◌>>=◌, read, stated, attempted,
}
use real_ming.Telegram.FrontDoor.{
  ceo_ownership, send_durably, send_claimed, after_claim, conclude, retry_each,
  retry_pending_deliveries, notify, now, handing,
}
use real_ming.Telegram.FrontDoor.Sends.{
  Visit, sending, retrying, notifying, all_visited, all_visited-handed,
}
use real_ming.Telegram.FrontDoor.Keeps.{is_for}
use real_ming.Telegram.FrontDoor.Delivers.{send_durably-sent}

abbrev overloaded : ProviderFailure
overloaded = record {
  failure_class = rate_limited;
  retryable = true;
  message = "Too many requests";
  retry_after_ms = none;
}

abbrev channel_with : Reply → Channel
channel_with reply = record {
  ceo_telegram_chat_id = "7";
  clock = λ n. "2026-01-01T08:00:00.000Z";
  parse_date = λ s. some 1000;
  carries_secret = λ j. false;
  sensitive_text = λ t. false;
  digest = λ m. m.message_text;
  reply = λ n m. reply;
}

abbrev busy_channel : Channel
busy_channel = channel_with (replied (TelegramTransportResult.failed overloaded))

abbrev pub open_channel : Channel
open_channel = channel_with (replied (TelegramTransportResult.sent false))

abbrev greeting : TelegramSendRequest
greeting = record {
  outbound = record { chat_id = "7"; message_text = "Good morning"; controls = none };
  idempotency_key = "greeting";
}

abbrev pub closed_door : Door
closed_door = record { tables = empty_tables; ticks = 0; handed = [] }

abbrev many_visits : List Visit
many_visits =
    sending greeting
    ∷ retrying
    ∷ retrying
    ∷ sending greeting
    ∷ notifying (record {
      kind = critical_incident;
      notice_text = "The disk is full";
      idempotency_key = "disk";
    })
    ∷ retrying
    ∷ []

all_visited-handed_example :
    count (is_for "greeting") (all_visited busy_channel many_visits closed_door).handed ≤ 3
all_visited-handed_example =
    all_visited-handed busy_channel "greeting" many_visits closed_door refl refl

-- The bound is reached: an overloaded transport is tried three times.
greetings_handed :
    count (is_for "greeting") (all_visited busy_channel many_visits closed_door).handed ≡ 3
unfolding send_durably send_claimed after_claim conclude retry_each retry_pending_deliveries notify
    now handing pure ◌>>=◌ read stated attempted claim_telegram_delivery claim_new claim_known
    claim_retry fail_telegram_delivery pending_telegram_deliveries telegram_uncertain_delivery_count
    append_telegram_audit text_leb
greetings_handed = refl

send_durably-sent_example :
    (send_durably open_channel greeting closed_door
      ≡ done
          (TelegramTransportResult.sent false)
          (after (send_durably open_channel greeting closed_door)))
    × (((after (send_durably open_channel greeting closed_door)).handed ≡ (greeting ∷ []))
        × (telegram_delivery_status "greeting"
              (after (send_durably open_channel greeting closed_door)).tables
            ≡ DeliveryStatus.sent))
send_durably-sent_example =
    send_durably-sent open_channel greeting closed_door false refl refl refl refl

abbrev failed_delivery : Delivery
failed_delivery = record {
  idempotency_key = "greeting";
  actor_id = "ceo:ming";
  workspace_id = "workspace:real-ming";
  chat_id = "7";
  payload = greeting.outbound;
  payload_digest = "Good morning";
  state = DeliveryState.failed;
  attempt_count = 1;
  failure_class = some rate_limited;
  failure_retryable = some true;
  retry_after_ms = none;
  created_at = "2026-01-01T08:00:00.000Z";
  updated_at = "2026-01-01T08:00:00.000Z";
}

abbrev failed_tables : Tables
failed_tables = record empty_tables { deliveries = failed_delivery ∷ [] }

called-Moves_example : Moves (telegram_delivery_status "greeting" failed_tables) (
    telegram_delivery_status "greeting"
      (called (λ s. some 1000) (cancelling "greeting" "2026-01-01T09:00:00.000Z") failed_tables))
called-Moves_example =
    called-Moves (λ s. some 1000) "greeting" (cancelling "greeting" "2026-01-01T09:00:00.000Z")
      failed_tables

pending-claim_example :
    exists
      (is_pending_of "greeting")
      (pending_telegram_deliveries (λ s. some 1000) "2026-01-01T09:00:00.000Z" failed_tables)
    ≡ is_send
        (claim_telegram_delivery
          (λ s. some 1000)
          "greeting"
          ceo_ownership
          greeting.outbound
          "Good morning"
          "2026-01-01T09:00:00.000Z"
          failed_tables).0
pending-claim_example =
    pending-claim (λ s. some 1000) "greeting" "2026-01-01T09:00:00.000Z" failed_tables ceo_ownership
      greeting.outbound failed_delivery 1000 1000 (tt, tt) refl refl refl refl

claim-cancel_example :
    claim_telegram_delivery
      (λ s. some 1000)
      "greeting"
      ceo_ownership
      greeting.outbound
      "Good morning"
      "2026-01-01T10:00:00.000Z"
      (cancel_telegram_delivery "greeting" "2026-01-01T09:00:00.000Z" failed_tables)
    ≡ (send 2, cancel_telegram_delivery "greeting" "2026-01-01T09:00:00.000Z" failed_tables)
claim-cancel_example =
    claim-cancel "greeting" "2026-01-01T09:00:00.000Z" (λ s. some 1000) ceo_ownership
      greeting.outbound "2026-01-01T10:00:00.000Z" failed_tables failed_delivery refl refl refl

all_advanced-greatest_example :
    telegram_ingress_cursor
      (all_advanced ((some 4, "a") ∷ (some 9, "b") ∷ (none, "c") ∷ (some 7, "d") ∷ []) none)
    ≡ greatest
        (telegram_ingress_cursor none)
        ((some 4, "a") ∷ (some 9, "b") ∷ (none, "c") ∷ (some 7, "d") ∷ [])
all_advanced-greatest_example =
    all_advanced-greatest ((some 4, "a") ∷ (some 9, "b") ∷ (none, "c") ∷ (some 7, "d") ∷ []) none
