-- ===== src/Notices/Kinds.antt =====
-- src/operations/exception-notice-rhythm.ts: what is admitted, and what becomes of it.
use real_ming.Base.{ℕ, String, Bool, Option}
use real_ming.Telegram.Kinds.{ProviderFailure, TelegramNotificationKind, TelegramNotification}

pub record ExceptionNotice : Type 0 where
  pub notification : TelegramNotification
  pub urgent_deadline : Bool  -- `urgentDeadline === true`
  pub signature : Option String

pub data Admission : Type 0 where
  delivered : TelegramNotificationKind → Admission
  failed : TelegramNotificationKind → ProviderFailure → Admission
  held : (release_at reason : String) → Admission
  suppressed : (reason : String) → Admission
  grouped : (occurrences : ℕ) → (is_delivered : Bool) → Admission
  recovered_without_delivery : (reason : String) → Admission
  already_recovered : Admission
