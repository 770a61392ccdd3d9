-- ===== src/Telegram/FrontDoor.antt =====
-- src/telegram/telegram-front-door.ts: what the front door sends, and the sweep that tries again.
pub mod Spent
pub mod Keeps
pub mod Sends
pub mod Delivers
use real_ming.Base.{
  ℕ, suc, ◌+◌, String, Bool, true, false, not, if◌then◌else◌, Option, none, some, List, [], ◌∷◌,
  ◌++◌, length,
}
use real_ming.Contracts.Json.{Json, text, number, flag, Details}
use real_ming.Telegram.Kinds.{
  ProviderFailureClass, invalid_input, provider_error, rate_limited, unavailable, ProviderFailure,
  TelegramOutboundMessage, TelegramSendRequest, TelegramTransportResult, TelegramDeliveryClaim,
  Ownership, send, conflict, deferred, terminal_failure, TelegramPendingDelivery, TelegramAuditType,
  delivery_failed, delivery_deduplicated, notification_sent, notification_suppressed,
  TelegramNotificationKind, routine_progress, TelegramNotification, TelegramNotificationResult,
  suppressed, failure_class_text, notification_kind_text,
}
use real_ming.Telegram.Tables.{Tables, append_telegram_audit}
use real_ming.Telegram.Outbox.{
  claim_telegram_delivery, complete_telegram_delivery, FailureOutcome, fail_telegram_delivery,
  pending_telegram_deliveries, telegram_uncertain_delivery_count,
}
use real_ming.Telegram.Channel.{
  Reply, replied, lost, Channel, Door, done, M, pure, ◌>>=◌, ◌>>◌, read, stated, attempted,
}

abbrev pub ceo_ownership : Ownership
ceo_ownership = record { actor_id = "ceo:ming"; workspace_id = "workspace:real-ming" }

-- `retryableFailureClasses`
abbrev is_retryable_class : ProviderFailureClass → Bool
is_retryable_class rate_limited = true
is_retryable_class unavailable = true
is_retryable_class provider_error = true
is_retryable_class _ = false

-- `providerFailure`, where there are no secrets to redact.
abbrev provider_failure : ProviderFailureClass → String → ProviderFailure
provider_failure c message = record {
  failure_class = c;
  retryable = is_retryable_class c;
  message = message;
  retry_after_ms = none;
}

abbrev pub uncertain_delivery_failure : ProviderFailure
uncertain_delivery_failure = record {
  failure_class = provider_error;
  retryable = false;
  message = "Telegram delivery status is uncertain; reconcile it before any retry.";
  retry_after_ms = none;
}

-- `allowedNotificationKinds`
abbrev pub is_allowed_kind : TelegramNotificationKind → Bool
is_allowed_kind routine_progress = false
is_allowed_kind _ = true

-- The details that every `telegram.delivery-failed` begins with.
abbrev failure_details : String → ProviderFailure → Details
failure_details key failure =
    ("idempotencyKey", text key)
    ∷ ("failureClass", text (failure_class_text failure.failure_class))
    ∷ ("retryable", flag failure.retryable)
    ∷ []

abbrev reason : String → Details
reason why = ("reason", text why) ∷ []

abbrev retry_after : ProviderFailure → Details
retry_after failure = elim failure.retry_after_ms [
  | none ↦ []
  | some ms ↦ ("retryAfterMs", number ms) ∷ []
]

-- `TelegramDeliveryRetrySummary`
pub record RetrySummary : Type 0 where
  pub tried : ℕ  -- `attempted`
  pub sent : ℕ
  pub failed : ℕ
  pub uncertain : ℕ

module _ (channel : Channel) where
  unfoldable pub now : M String
  now w = done (channel.clock w.ticks) (record w { ticks = suc w.ticks })

  -- `recordTelegramAudit`, as of now.
  abbrev pub audit : TelegramAuditType → Details → M (Unit {0})
  audit kind details = do
    at ← now
    attempted (append_telegram_audit channel.carries_secret ceo_ownership kind at details)

  -- `options.transport.send`
  unfoldable pub handing : TelegramSendRequest → M Reply
  handing message w =
      done (channel.reply (length w.handed) message)
        (record w { handed = w.handed ++ (message ∷ []) })

  abbrev pub refused : String → ProviderFailure → Details → M TelegramTransportResult
  refused key failure why = do
    audit delivery_failed (failure_details key failure ++ why)
    pure (TelegramTransportResult.failed failure)

  -- What `sendDurably` does once the transport has answered.
  unfoldable pub conclude : String → String → Reply → M TelegramTransportResult
  conclude key payload_digest lost = do
    at ← now
    attempted (
        fail_telegram_delivery key payload_digest uncertain_delivery_failure at
          FailureOutcome.uncertain)
    refused key uncertain_delivery_failure (reason "delivery-status-uncertain")
  conclude key payload_digest (replied (TelegramTransportResult.failed failure)) = do
    at ← now
    attempted (fail_telegram_delivery key payload_digest failure at FailureOutcome.failed)
    refused key failure (retry_after failure)
  conclude key payload_digest (replied (TelegramTransportResult.sent deduplicated)) = do
    at ← now
    attempted (complete_telegram_delivery key ceo_ownership payload_digest at)
    pure (TelegramTransportResult.sent deduplicated)

  -- What `sendDurably` does with the answer of its claim.
  unfoldable pub after_claim :
      TelegramSendRequest → String → TelegramDeliveryClaim → M TelegramTransportResult
  after_claim message payload_digest conflict =
      refused message.idempotency_key
        (provider_failure invalid_input
          "A Telegram idempotency key was reused for a different payload.")
        []
  after_claim message payload_digest TelegramDeliveryClaim.sent = do
    audit delivery_deduplicated (("idempotencyKey", text message.idempotency_key) ∷ [])
    pure (TelegramTransportResult.sent true)
  after_claim message payload_digest TelegramDeliveryClaim.uncertain =
      refused message.idempotency_key uncertain_delivery_failure
        (reason "delivery-status-uncertain")
  after_claim message payload_digest (deferred failure) =
      refused message.idempotency_key failure (retry_after failure ++ reason "retry-deferred")
  after_claim message payload_digest (terminal_failure failure) =
      refused message.idempotency_key failure (reason "retry-policy-exhausted")
  after_claim message payload_digest (send attempt) = do
    reply ← handing message
    conclude message.idempotency_key payload_digest reply

  -- `sendDurably` of a text without a secret.
  unfoldable pub send_claimed : TelegramSendRequest → M TelegramTransportResult
  send_claimed message = do
    at ← now
    claimed ← stated (
        claim_telegram_delivery channel.parse_date message.idempotency_key ceo_ownership
          message.outbound (channel.digest message.outbound) at)
    after_claim message (channel.digest message.outbound) claimed

  unfoldable pub send_durably : TelegramSendRequest → M TelegramTransportResult
  send_durably message =
      if channel.sensitive_text message.outbound.message_text
      then refused message.idempotency_key
          (provider_failure invalid_input
            "Telegram rejected an outbound message containing a Sensitive Secret.")
          (reason "sensitive-secret-rejected")
      else send_claimed message

  abbrev is_sent : TelegramTransportResult → Bool
  is_sent (TelegramTransportResult.sent deduplicated) = true
  is_sent (TelegramTransportResult.failed failure) = false

  -- The loop of `retryPendingDeliveries`: how many were sent, and how many were not.
  unfoldable pub retry_each : List TelegramPendingDelivery → M (ℕ × ℕ)
  retry_each [] = pure (0, 0)
  retry_each (p ∷ ps) = do
    result ← send_durably (record { outbound = p.message; idempotency_key = p.idempotency_key })
    counts ← retry_each ps
    pure (if is_sent result then (suc counts.0, counts.1) else (counts.0, suc counts.1))

  unfoldable pub retry_pending_deliveries : M RetrySummary
  retry_pending_deliveries = do
    at ← now
    pending ← read (pending_telegram_deliveries channel.parse_date at)
    counts ← retry_each pending
    uncertain ← read telegram_uncertain_delivery_count
    pure (record {
      tried = length pending;
      sent = counts.0;
      failed = counts.1;
      uncertain = uncertain;
    })

  abbrev about_notice : TelegramNotification → Details
  about_notice notification =
      ("notificationKind", text (notification_kind_text notification.kind))
      ∷ ("idempotencyKey", text notification.idempotency_key)
      ∷ []

  abbrev pub notified :
      TelegramNotification → TelegramTransportResult → M TelegramNotificationResult
  notified notification (TelegramTransportResult.failed failure) =
      pure (TelegramNotificationResult.failed notification.kind failure)
  notified notification (TelegramTransportResult.sent true) =
      pure (TelegramNotificationResult.sent notification.kind)
  notified notification (TelegramTransportResult.sent false) = do
    audit notification_sent (about_notice notification)
    pure (TelegramNotificationResult.sent notification.kind)

  -- `notify` of a kind that is not let through.
  abbrev stand_down : TelegramNotification → M TelegramNotificationResult
  stand_down notification = do
    audit notification_suppressed (about_notice notification)
    pure (suppressed notification.kind)

  abbrev message_of : TelegramNotification → TelegramSendRequest
  message_of notification = record {
    outbound = record {
      chat_id = channel.ceo_telegram_chat_id;
      message_text = notification.notice_text;
      controls = none;
    };
    idempotency_key = notification.idempotency_key;
  }

  unfoldable pub notify : TelegramNotification → M TelegramNotificationResult
  notify notification =
      if is_allowed_kind notification.kind
      then send_durably (message_of notification) >>= notified notification
      else stand_down notification
