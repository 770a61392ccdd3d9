-- ===== src/Telegram/Outbox.antt =====
-- src/operations/operations-state.ts: the outbox of Telegram deliveries. `Date.parse` is the parameter
-- `parse_date`; its moments count milliseconds from the earliest that a JavaScript date can
-- hold, since only their order and their distances matter, and NaN is `none`.
pub mod Claims
pub mod Pending
use real_ming.Base.{
  ℕ, suc, ◌+◌, ◌-◌, String, String_eq, Bool, true, false, not, ◌&&◌, ◌||◌, ◌==◌, if◌then◌else◌, ltb,
  leb, text_leb, Option, none, some, List, [], ◌∷◌, ◌++◌, length, find, exists, update, select, map,
}
use real_ming.Telegram.Kinds.{
  ProviderFailureClass, provider_error, rate_limited, ProviderFailure, TelegramOutboundMessage,
  Ownership, DeliveryState, DeliveryState_eq, TelegramDeliveryClaim, send, conflict, deferred,
  terminal_failure, DeliveryStatus, missing, pending, terminal, TelegramPendingDelivery,
}
use real_ming.Telegram.Tables.{
  Delivery, Receipt, Tables, Fault, claim_changed_before_completion,
  claim_changed_before_failure_recording, Result, ok, err,
}

abbrev pub has_key : String → Delivery → Bool
has_key key d = d.idempotency_key == key

-- `SELECT * FROM telegram_delivery_outbox WHERE idempotency_key = ?`
abbrev pub delivery : String → Tables → Option Delivery
delivery key t = find (has_key key) t.deliveries

-- `telegramDeliveryReceipt`
abbrev pub telegram_delivery_receipt : String → Tables → Option Receipt
telegram_delivery_receipt key t = find (λ r. r.idempotency_key == key) t.receipts

-- `recordTelegramDeliveryReceipt`
unfoldable pub record_telegram_delivery_receipt :
    String → Ownership → String → String → Tables → Tables
record_telegram_delivery_receipt key ownership digest at t =
    if exists (λ r. r.idempotency_key == key) t.receipts then t else record t {
      receipts =
          t.receipts
          ++ (record {
            idempotency_key = key;
            actor_id = ownership.actor_id;
            workspace_id = ownership.workspace_id;
            payload_digest = digest;
            delivered_at = at;
          }
              ∷ []);
    }

abbrev pub is_retryable : Option Bool → Bool
is_retryable none = false
is_retryable (some b) = b

abbrev or_class : Option ProviderFailureClass → ProviderFailureClass → ProviderFailureClass
or_class none c = c
or_class (some d) c = d

-- `Date.parse(row.updated_at) + row.retry_after_ms`
abbrev pub retry_at : (String → Option ℕ) → Delivery → ℕ → Option ℕ
retry_at parse_date d wait = elim (parse_date d.updated_at) [
  | none ↦ none
  | some at ↦ some (at + wait)
]

abbrev time_left : Option ℕ → Option ℕ → Option ℕ
time_left none now = none
time_left (some retry) none = none
time_left (some retry) (some now) = if ltb now retry then some (retry - now) else none

-- How long a retry is still deferred; `none` where it is not.
abbrev pub deferral : (String → Option ℕ) → Delivery → String → Option ℕ
deferral parse_date d now = elim d.retry_after_ms [
  | none ↦ none
  | some wait ↦ time_left (retry_at parse_date d wait) (parse_date now)
]

abbrev pub is_failed_of : String → Delivery → Bool
is_failed_of key d = d.idempotency_key == key && d.state == DeliveryState.failed

abbrev pub sent_again : String → Delivery → Delivery
sent_again at d = record d {
  state = DeliveryState.in_flight;
  attempt_count = suc d.attempt_count;
  failure_class = none;
  failure_retryable = none;
  retry_after_ms = none;
  updated_at = at;
}

-- The `UPDATE` of a claim that may send again.
abbrev pub reopened : String → String → Tables → Tables
reopened key at t = record t { deliveries = update (is_failed_of key) (sent_again at) t.deliveries }

abbrev pub new_delivery : String → Ownership → TelegramOutboundMessage → String → String → Delivery
new_delivery key ownership message digest at = record {
  idempotency_key = key;
  actor_id = ownership.actor_id;
  workspace_id = ownership.workspace_id;
  chat_id = message.chat_id;
  payload = message;
  payload_digest = digest;
  state = DeliveryState.in_flight;
  attempt_count = 1;
  failure_class = none;
  failure_retryable = none;
  retry_after_ms = none;
  created_at = at;
  updated_at = at;
}

abbrev exhausted : Delivery → ProviderFailure
exhausted d = record {
  failure_class = or_class d.failure_class provider_error;
  retryable = false;
  message = "Telegram delivery exhausted its governed retry policy.";
  retry_after_ms = d.retry_after_ms;
}

abbrev postponed : Delivery → ℕ → ProviderFailure
postponed d left = record {
  failure_class = or_class d.failure_class rate_limited;
  retryable = true;
  message = "Telegram delivery is deferred by the provider retry policy.";
  retry_after_ms = some left;
}

-- A claim of a failed delivery whose attempts are not used up.
unfoldable pub claim_retry :
    Option ℕ → Delivery → String → String → Tables → TelegramDeliveryClaim × Tables
claim_retry (some left) d key at t = (deferred (postponed d left), t)
claim_retry none d key at t = (send (suc d.attempt_count), reopened key at t)

-- A claim where the outbox has the key.
unfoldable pub claim_known :
    (String → Option ℕ)
    → Delivery
    → String
    → String
    → String
    → Tables
    → TelegramDeliveryClaim × Tables
claim_known parse_date d key digest at t =
    if not (d.payload_digest == digest)
    then (conflict, t)
    else if d.state == DeliveryState.sent
    then (TelegramDeliveryClaim.sent, t)
    else if d.state == DeliveryState.in_flight || d.state == DeliveryState.uncertain
    then (TelegramDeliveryClaim.uncertain, t)
    else if not (is_retryable d.failure_retryable) || leb 3 d.attempt_count
    then (terminal_failure (exhausted d), t)
    else claim_retry (deferral parse_date d at) d key at t

abbrev pub inserted : Delivery → Tables → Tables
inserted d t = record t { deliveries = t.deliveries ++ (d ∷ []) }

-- A claim where the outbox does not have the key.
unfoldable pub claim_new :
    String
    → Ownership
    → TelegramOutboundMessage
    → String
    → String
    → Option Receipt
    → Tables
    → TelegramDeliveryClaim × Tables
claim_new key ownership message digest at (some receipt) t =
    (if receipt.payload_digest == digest then TelegramDeliveryClaim.sent else conflict, t)
claim_new key ownership message digest at none t =
    (send 1, inserted (new_delivery key ownership message digest at) t)

unfoldable pub claim_telegram_delivery :
    (String → Option ℕ)
    → String
    → Ownership
    → TelegramOutboundMessage
    → String
    → String
    → Tables
    → TelegramDeliveryClaim × Tables
claim_telegram_delivery parse_date key ownership message digest at t = elim (delivery key t) [
  | none ↦ claim_new key ownership message digest at (telegram_delivery_receipt key t) t
  | some d ↦ claim_known parse_date d key digest at t
]

-- The `WHERE` of the two updates that end an attempt.
abbrev pub is_flight_of : String → String → Delivery → Bool
is_flight_of key digest d =
    d.idempotency_key == key && d.payload_digest == digest && d.state == DeliveryState.in_flight

abbrev pub delivered : String → Delivery → Delivery
delivered at d = record d { state = DeliveryState.sent; updated_at = at }

-- A key has one row, so the update changes one row or none.
unfoldable pub complete_telegram_delivery :
    String → Ownership → String → String → Tables → Result (Unit {0} × Tables)
complete_telegram_delivery key ownership digest at t =
    if exists (is_flight_of key digest) t.deliveries
    then ok (
      tt,
      record_telegram_delivery_receipt key ownership digest at
          (record t { deliveries = update (is_flight_of key digest) (delivered at) t.deliveries }),
    )
    else err claim_changed_before_completion

-- `"failed" | "uncertain"`
pub data FailureOutcome : Type 0 where
  failed uncertain : FailureOutcome

abbrev pub state_of_outcome : FailureOutcome → DeliveryState
state_of_outcome FailureOutcome.failed = DeliveryState.failed
state_of_outcome FailureOutcome.uncertain = DeliveryState.uncertain

abbrev pub failed_with : ProviderFailure → FailureOutcome → String → Delivery → Delivery
failed_with failure outcome at d = record d {
  state = state_of_outcome outcome;
  failure_class = some failure.failure_class;
  failure_retryable = some failure.retryable;
  retry_after_ms = failure.retry_after_ms;
  updated_at = at;
}

unfoldable pub fail_telegram_delivery :
    String
    → String
    → ProviderFailure
    → String
    → FailureOutcome
    → Tables
    → Result (Unit {0} × Tables)
fail_telegram_delivery key digest failure at outcome t =
    if exists (is_flight_of key digest) t.deliveries
    then ok (
      tt,
      record t {
        deliveries = update (is_flight_of key digest) (failed_with failure outcome at) t.deliveries;
      },
    )
    else err claim_changed_before_failure_recording

-- The `WHERE` of `pendingTelegramDeliveries`.
abbrev pub may_retry : Delivery → Bool
may_retry d =
    d.state == DeliveryState.failed && is_retryable d.failure_retryable && ltb d.attempt_count 3

abbrev reached : Option ℕ → Option ℕ → Bool
reached (some now) (some retry) = leb retry now
reached _ _ = false

abbrev pub is_due : (String → Option ℕ) → String → Delivery → Bool
is_due parse_date now d = elim d.retry_after_ms [
  | none ↦ true
  | some wait ↦ reached (parse_date now) (retry_at parse_date d wait)
]

-- `ORDER BY created_at ASC`, rows of one time in the order of their rowids.
abbrev insert_by_time : Delivery → List Delivery → List Delivery
insert_by_time d [] = d ∷ []
insert_by_time d (e ∷ es) =
    if text_leb d.created_at e.created_at then d ∷ e ∷ es else e ∷ insert_by_time d es

abbrev pub by_time : List Delivery → List Delivery
by_time [] = []
by_time (d ∷ ds) = insert_by_time d (by_time ds)

abbrev pub pending_delivery : Delivery → TelegramPendingDelivery
pending_delivery d = record {
  idempotency_key = d.idempotency_key;
  message = d.payload;
  payload_digest = d.payload_digest;
}

unfoldable pub pending_telegram_deliveries :
    (String → Option ℕ) → String → Tables → List TelegramPendingDelivery
pending_telegram_deliveries parse_date now t =
    map pending_delivery (select (is_due parse_date now) (by_time (select may_retry t.deliveries)))

abbrev is_unsettled : Delivery → Bool
is_unsettled d = d.state == DeliveryState.in_flight || d.state == DeliveryState.uncertain

unfoldable pub telegram_uncertain_delivery_count : Tables → ℕ
telegram_uncertain_delivery_count t = length (select is_unsettled t.deliveries)

abbrev pub status_of : Delivery → DeliveryStatus
status_of d = elim d.state [
  | DeliveryState.sent ↦ DeliveryStatus.sent
  | DeliveryState.uncertain ↦ DeliveryStatus.uncertain
  | DeliveryState.in_flight ↦ DeliveryStatus.in_flight
  | DeliveryState.cancelled ↦ DeliveryStatus.cancelled
  | DeliveryState.failed ↦
      if is_retryable d.failure_retryable && ltb d.attempt_count 3 then pending else terminal
]

abbrev pub status_at : Option Delivery → DeliveryStatus
status_at none = missing
status_at (some d) = status_of d

unfoldable pub telegram_delivery_status : String → Tables → DeliveryStatus
telegram_delivery_status key t = status_at (delivery key t)
