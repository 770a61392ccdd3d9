-- ===== src/Telegram/Kinds.antt =====
-- src/telegram/contracts.ts and src/providers/adapter-contract.ts: what is sent by Telegram, and how a
-- delivery can end.
use real_ming.Base.{ℕ, String, Bool, Option, List, Eq, holds, holds_iff}

pub data ProviderFailureClass : Type 0 where
  authentication_failed invalid_input permission_denied rate_limited : ProviderFailureClass
  unsupported_capability unavailable provider_error : ProviderFailureClass

pub record ProviderFailure : Type 0 where
  pub failure_class : ProviderFailureClass  -- `class`
  pub retryable : Bool
  pub message : String
  pub retry_after_ms : Option ℕ

pub data TelegramReviewDecision : Type 0 where
  approve request_changes reject cancel : TelegramReviewDecision

pub record TelegramInlineControl : Type 0 where
  pub label : String
  pub decision : TelegramReviewDecision
  pub callback_data : String

pub record TelegramOutboundMessage : Type 0 where
  pub chat_id : String
  pub message_text : String  -- `text`
  pub controls : Option (List TelegramInlineControl)

pub record TelegramSendRequest : Type 0 where
  pub outbound : TelegramOutboundMessage
  pub idempotency_key : String

pub data TelegramTransportResult : Type 0 where
  sent : (deduplicated : Bool) → TelegramTransportResult
  failed : ProviderFailure → TelegramTransportResult

-- `Pick<TelegramAuditEvent, "actorId" | "workspaceId">`
pub record Ownership : Type 0 where
  pub actor_id : String
  pub workspace_id : String

pub data DeliveryState : Type 0 where
  in_flight sent failed uncertain cancelled : DeliveryState

abbrev pub DeliveryState-discrete : Discrete DeliveryState
DeliveryState-discrete = hlevel

instance abbrev pub DeliveryState_eq : Eq DeliveryState
DeliveryState_eq = record {
  test = λ a b. holds (DeliveryState-discrete a b);
  test_iff = λ a b. holds_iff (DeliveryState-discrete a b);
}

pub data TelegramDeliveryClaim : Type 0 where
  send : (attempt : ℕ) → TelegramDeliveryClaim
  sent uncertain conflict : TelegramDeliveryClaim
  deferred : ProviderFailure → TelegramDeliveryClaim
  terminal_failure : ProviderFailure → TelegramDeliveryClaim

-- The answers of `telegramDeliveryStatus`.
pub data DeliveryStatus : Type 0 where
  missing sent pending terminal uncertain in_flight cancelled : DeliveryStatus

pub record TelegramPendingDelivery : Type 0 where
  pub idempotency_key : String
  pub message : TelegramOutboundMessage
  pub payload_digest : String

pub data TelegramAuditType : Type 0 where
  delivery_failed delivery_deduplicated : TelegramAuditType
  notification_sent notification_suppressed : TelegramAuditType

pub data TelegramNotificationKind : Type 0 where
  brief approval material_blocker critical_incident completed_outcome_report recovery_notice :
      TelegramNotificationKind
  entertainment_digest routine_progress : TelegramNotificationKind

pub record TelegramNotification : Type 0 where
  pub kind : TelegramNotificationKind
  pub notice_text : String  -- `text`
  pub idempotency_key : String

pub data TelegramNotificationResult : Type 0 where
  sent suppressed : TelegramNotificationKind → TelegramNotificationResult
  failed : TelegramNotificationKind → ProviderFailure → TelegramNotificationResult

-- `failureClass` in audit details.
abbrev pub failure_class_text : ProviderFailureClass → String
failure_class_text authentication_failed = "authentication-failed"
failure_class_text invalid_input = "invalid-input"
failure_class_text permission_denied = "permission-denied"
failure_class_text rate_limited = "rate-limited"
failure_class_text unsupported_capability = "unsupported-capability"
failure_class_text unavailable = "unavailable"
failure_class_text provider_error = "provider-error"

abbrev pub notification_kind_text : TelegramNotificationKind → String
notification_kind_text brief = "brief"
notification_kind_text approval = "approval"
notification_kind_text material_blocker = "material-blocker"
notification_kind_text critical_incident = "critical-incident"
notification_kind_text completed_outcome_report = "completed-outcome-report"
notification_kind_text recovery_notice = "recovery-notice"
notification_kind_text entertainment_digest = "entertainment-digest"
notification_kind_text routine_progress = "routine-progress"
