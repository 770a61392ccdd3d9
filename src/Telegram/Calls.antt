-- ===== src/Telegram/Calls.antt =====
-- src/operations/operations-state.ts: the methods that write the outbox, called in any order.
pub mod Moves
pub mod Cancelled
pub mod Keys
use real_ming.Base.{ℕ, String, Option, List, [], ◌∷◌}
use real_ming.Telegram.Kinds.{
  TelegramOutboundMessage, Ownership, ProviderFailure, TelegramDeliveryClaim,
}
use real_ming.Telegram.Tables.{Tables, Result, ok, err}
use real_ming.Telegram.Outbox.{
  claim_telegram_delivery, complete_telegram_delivery, FailureOutcome, fail_telegram_delivery,
}
use real_ming.Telegram.Notices.{cancel_telegram_delivery}

pub data Call : Type 0 where
  claiming : (key : String) → Ownership → TelegramOutboundMessage → (digest at : String) → Call
  completing : (key : String) → Ownership → (digest at : String) → Call
  failing : (key digest : String) → ProviderFailure → (at : String) → FailureOutcome → Call
  cancelling : (key at : String) → Call

-- A method that throws has written nothing.
abbrev pub committed {ℓ} : {A : Type ℓ} → Result (A × Tables) → Tables → Tables
committed (ok (a, t)) before = t
committed (err e) before = before

module _ (parse_date : String → Option ℕ) where
  -- The tables once a call has returned or thrown.
  abbrev pub called : Call → Tables → Tables
  called (claiming key ownership message digest at) t =
      (claim_telegram_delivery parse_date key ownership message digest at t).1
  called (completing key ownership digest at) t =
      committed (complete_telegram_delivery key ownership digest at t) t
  called (failing key digest failure at outcome) t =
      committed (fail_telegram_delivery key digest failure at outcome t) t
  called (cancelling key at) t = cancel_telegram_delivery key at t

  abbrev pub served : List Call → Tables → Tables
  served [] t = t
  served (c ∷ cs) t = served cs (called c t)
