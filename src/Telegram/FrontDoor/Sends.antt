-- ===== src/Telegram/FrontDoor/Sends.antt =====
-- src/telegram/telegram-front-door.ts: how often the transport is handed a message of one key.
use real_ming.Base.{ℕ, ◌≤◌, String, ◌≡◌, ap, Option, none, some, List, [], ◌∷◌, false, count, arith}
use real_ming.Telegram.Kinds.{TelegramSendRequest, TelegramNotification}
use real_ming.Telegram.Tables.{Delivery}
use real_ming.Telegram.Outbox.{delivery}
use real_ming.Telegram.Channel.{Channel, Door, Run, done, thrown, after}
use real_ming.Telegram.FrontDoor.{send_durably, retry_pending_deliveries, notify}
use real_ming.Telegram.FrontDoor.Spent.{Spent, unknown, known}
use real_ming.Telegram.FrontDoor.Keeps.{
  is_for, Owed, Balanced, Keeps-send_durably, Keeps-retry, Keeps-notify,
}

-- What the front door is asked to do.
pub data Visit : Type 0 where
  sending : TelegramSendRequest → Visit
  retrying : Visit
  notifying : TelegramNotification → Visit

module _ (channel : Channel) where
  abbrev visited : Visit → Door → Door
  visited (sending message) w = after (send_durably channel message w)
  visited retrying w = after (retry_pending_deliveries channel w)
  visited (notifying notification) w = after (notify channel notification w)

  -- The front door after a sequence of visits, whether each returned or threw.
  abbrev pub all_visited : List Visit → Door → Door
  all_visited [] w = w
  all_visited (v ∷ vs) w = all_visited vs (visited v w)

  ended : {A : Type 0} (key : String) (r : Run A) → Balanced key r → Owed key false (after r)
  ended key (done a w) h = h
  ended key (thrown e w) h = h

  visited-Owed :
      (key : String) (v : Visit) (w : Door) → Owed key false w → Owed key false (visited v w)
  visited-Owed key (sending message) w h =
      ended key _ ((Keeps-send_durably key channel message).keeps w h)
  visited-Owed key retrying w h = ended key _ ((Keeps-retry key channel).keeps w h)
  visited-Owed key (notifying notification) w h =
      ended key _ ((Keeps-notify key channel notification).keeps w h)

  all_visited-Owed :
      (key : String) (vs : List Visit) (w : Door)
      → Owed key false w
      → Owed key false (all_visited vs w)
  all_visited-Owed key [] w h = h
  all_visited-Owed key (v ∷ vs) w h = all_visited-Owed key vs (visited v w) (visited-Owed key v w h)

  at_most_three : (n : ℕ) (o : Option Delivery) → Spent n o → n ≤ 3
  at_most_three n none (unknown z) = omega (arith, z)
  at_most_three n (some d) (known less bound h) = omega (arith, less, bound)

  -- From a front door that has handed nothing over and whose outbox does not have the key, and
  -- whatever the transport replies, however the clock runs and whichever calls throw, a sequence
  -- of sends, notifications and retry sweeps hands the transport a message of the key three
  -- times at most.
  pub all_visited-handed :
      (key : String) (vs : List Visit) (w : Door)
      → w.handed ≡ []
      → delivery key w.tables ≡ none
      → count (is_for key) (all_visited vs w).handed ≤ 3
  all_visited-handed key vs w nothing fresh =
      at_most_three _ (delivery key (all_visited vs w).tables)
        (all_visited-Owed key vs w (rw fresh (unknown (ap (λ ms. count (is_for key) ms) nothing))))
