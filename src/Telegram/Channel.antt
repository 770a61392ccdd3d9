-- ===== src/Telegram/Channel.antt =====
-- src/telegram/telegram-front-door.ts: the surroundings of the front door, and the way that its methods run:
-- what a method of the state committed stays when a later one throws.
use real_ming.Base.{ℕ, String, Bool, Option, none, some, List}
use real_ming.Contracts.Json.{Json}
use real_ming.Telegram.Kinds.{TelegramOutboundMessage, TelegramSendRequest, TelegramTransportResult}
use real_ming.Telegram.Tables.{Tables, Fault, Result, ok, err}

-- What `transport.send` does: it returns a result, or throws.
pub data Reply : Type 0 where
  replied : TelegramTransportResult → Reply
  lost : Reply

-- What the front door is given. `sensitive_text` says whether `detectSensitiveFields` finds anything
-- in a text, and `digest` is the SHA-256 of a message.
pub record Channel : Type 0 where
  pub ceo_telegram_chat_id : String
  pub clock : ℕ → String
  pub parse_date : String → Option ℕ
  pub carries_secret : Json → Bool
  pub sensitive_text : String → Bool
  pub digest : TelegramOutboundMessage → String
  pub reply : ℕ → TelegramSendRequest → Reply

pub record Door : Type 0 where
  pub tables : Tables
  pub ticks : ℕ  -- readings of the clock
  pub handed : List TelegramSendRequest  -- what the transport was handed, the latest last

pub data Run (A : Type 0) : Type 0 where
  done : A → Door → Run A
  thrown : Fault → Door → Run A

abbrev pub after : {A : Type 0} → Run A → Door
after (done a w) = w
after (thrown e w) = w

abbrev pub M : Type 0 → Type 0
M A = Door → Run A

unfoldable pub pure : {A : Type 0} → A → M A
pure a w = done a w

abbrev pub throw : {A : Type 0} → Fault → M A
throw e w = thrown e w

abbrev pub continue : {A B : Type 0} → Run A → (A → M B) → Run B
continue (done a w) f = f a w
continue (thrown e w) f = thrown e w

infixl 5 ◌>>=◌ ◌>>◌
unfoldable pub ◌>>=◌ : {A B : Type 0} → M A → (A → M B) → M B
◌>>=◌ m f w = continue (m w) f

abbrev pub ◌>>◌ : {B : Type 0} → M (Unit {0}) → M B → M B
m >> k = m >>= λ _. k

unfoldable pub read : {A : Type 0} → (Tables → A) → M A
read f w = done (f w.tables) w

-- A method of the operations state that cannot throw.
unfoldable pub stated : {A : Type 0} → (Tables → A × Tables) → M A
stated f w = done (f w.tables).0 (record w { tables = (f w.tables).1 })

abbrev pub settled : {A : Type 0} → Result (A × Tables) → M A
settled (ok (a, t)) w = done a (record w { tables = t })
settled (err e) w = thrown e w

-- A method of the operations state that may throw; what throws has written nothing.
unfoldable pub attempted : {A : Type 0} → (Tables → Result (A × Tables)) → M A
attempted f w = settled (f w.tables) w

-- A method of the operations state that returns nothing and cannot throw.
abbrev pub written : (Tables → Tables) → M (Unit {0})
written f = stated λ t. (tt, f t)

abbrev rescued : {A : Type 0} → Run A → Run (Option A)
rescued (done a w) = done (some a) w
rescued (thrown e w) = done none w

-- `try { … } catch { … }`: what was done before the throw stays.
unfoldable pub caught : {A : Type 0} → M A → M (Option A)
caught m w = rescued (m w)
