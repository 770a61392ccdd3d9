-- ===== src/Telegram/Tables.antt =====
-- src/operations/operations-state.ts: the tables of the Telegram channel and of the exception notices. A
-- column that holds JSON is kept as the value that was stringified into it.
use real_ming.Base.{ℕ, String, Bool, if◌then◌else◌, List, [], ◌∷◌, ◌++◌, Option, suc, length}
use real_ming.Contracts.Json.{Json, Details, fields}
use real_ming.Telegram.Kinds.{
  ProviderFailureClass, TelegramOutboundMessage, DeliveryState, TelegramAuditType, Ownership,
}

-- A row of `telegram_delivery_outbox`.
pub record Delivery : Type 0 where
  pub idempotency_key : String
  pub actor_id : String
  pub workspace_id : String
  pub chat_id : String
  pub payload : TelegramOutboundMessage
  pub payload_digest : String
  pub state : DeliveryState
  pub attempt_count : ℕ
  pub failure_class : Option ProviderFailureClass
  pub failure_retryable : Option Bool
  pub retry_after_ms : Option ℕ
  pub created_at : String
  pub updated_at : String

-- A row of `telegram_delivery_receipts`.
pub record Receipt : Type 0 where
  pub idempotency_key : String
  pub actor_id : String
  pub workspace_id : String
  pub payload_digest : String
  pub delivered_at : String

-- A row of `telegram_audit_events`.
pub record TelegramAuditEvent : Type 0 where
  pub sequence : ℕ
  pub actor_id : String
  pub workspace_id : String
  pub kind : TelegramAuditType
  pub occurred_at : String
  pub details : Details

-- A row of `exception_notice_groups`.
pub record NoticeGroup : Type 0 where
  pub signature : String
  pub first_seen : String
  pub last_seen : String
  pub occurrences : ℕ
  pub recovered_at : Option String

pub data NoticeState : Type 0 where
  held pending delivered cancelled : NoticeState

-- A row of `exception_notice_deliveries`.
pub record NoticeDelivery : Type 0 where
  pub signature : String
  pub idempotency_key : String
  pub state : NoticeState
  pub updated_at : String

-- A row of `held_exception_notices`.
pub record HeldNotice : Type 0 where
  pub idempotency_key : String
  pub kind : String
  pub held_text : String
  pub held_at : String
  pub release_at : String
  pub released_at : Option String

pub record Tables : Type 0 where
  pub deliveries : List Delivery
  pub receipts : List Receipt
  pub audit_events : List TelegramAuditEvent
  pub groups : List NoticeGroup
  pub notice_deliveries : List NoticeDelivery
  pub held_notices : List HeldNotice

abbrev pub empty_tables : Tables
empty_tables = record {
  deliveries = [];
  receipts = [];
  audit_events = [];
  groups = [];
  notice_deliveries = [];
  held_notices = [];
}

-- Each `throw` of the methods on these tables.
pub data Fault : Type 0 where
  sensitive_secret : (label : String) → Fault
  claim_changed_before_completion : Fault
  claim_changed_before_failure_recording : Fault
  cursor_invalid : Fault
  clock_not_canonical : Fault
  clock_unreadable : Fault
  held_kind_unknown : (kind : String) → Fault

pub data Result {ℓ} (A : Type ℓ) : Type ℓ where
  ok : A → Result A
  err : Fault → Result A

-- `#appendTelegramAudit`; the sequence is the row's number, since no row is ever deleted.
unfoldable pub append_telegram_audit :
    (Json → Bool)
    → Ownership
    → TelegramAuditType
    → String
    → Details
    → Tables
    → Result (Unit {0} × Tables)
append_telegram_audit carries_secret ownership kind at details t =
    if carries_secret (fields details)
    then err (sensitive_secret "A Telegram audit event")
    else ok (
      tt,
      record t {
        audit_events =
            t.audit_events
            ++ (record {
              sequence = suc (length t.audit_events);
              actor_id = ownership.actor_id;
              workspace_id = ownership.workspace_id;
              kind = kind;
              occurred_at = at;
              details = details;
            }
                ∷ []);
      },
    )
