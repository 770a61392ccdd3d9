-- ===== src/Telegram/Outbox/Claims.antt =====
-- src/operations/operations-state.ts: the three ways that `claimTelegramDelivery` can end.
use real_ming.Base.{
  ℕ, suc, String, String_eq, Bool, true, false, ◌||◌, ◌==◌, leb, ◌≡◌, refl, Option, none, some,
  Option-cases, Bool-cases, inl, inr,
}
use real_ming.Telegram.Kinds.{
  TelegramOutboundMessage, Ownership, DeliveryState, DeliveryState_eq, TelegramDeliveryClaim, send,
  conflict,
}
use real_ming.Telegram.Tables.{Delivery, Receipt, Tables}
use real_ming.Telegram.Outbox.{
  delivery, telegram_delivery_receipt, is_retryable, deferral, reopened, inserted, new_delivery,
  claim_retry, claim_known, claim_new, claim_telegram_delivery,
}

abbrev pub is_send : TelegramDeliveryClaim → Bool
is_send (send n) = true
is_send _ = false

pub data Claimed (key at : String) (new : Delivery) (t : Tables)
    : TelegramDeliveryClaim × Tables → Type 0 where
  refused : (c : TelegramDeliveryClaim) → is_send c ≡ false → Claimed key at new t (c, t)
  again :
      (d : Delivery)
      → delivery key t ≡ some d
      → (d.state == DeliveryState.sent) ≡ false
      → (d.state == DeliveryState.in_flight || d.state == DeliveryState.uncertain) ≡ false
      → is_retryable d.failure_retryable ≡ true
      → leb 3 d.attempt_count ≡ false
      → Claimed key at new t (send (suc d.attempt_count), reopened key at t)
  opened : delivery key t ≡ none → Claimed key at new t (send 1, inserted new t)

module _ (parse_date : String → Option ℕ) (key digest at : String) (new : Delivery)
    (t : Tables) where
  known-Claimed :
      (d : Delivery)
      → delivery key t ≡ some d
      → Claimed key at new t (claim_known parse_date d key digest at t)
  unfolding claim_known claim_retry
  known-Claimed d e = elim (Bool-cases (d.payload_digest == digest)) [
    | inr f ↦ rw f (refused conflict refl)
    | inl same ↦ elim (Bool-cases (d.state == DeliveryState.sent)) [
      | inl s ↦ rw (same, s) (refused _ refl)
      | inr unsent ↦
          elim (Bool-cases
            (d.state == DeliveryState.in_flight || d.state == DeliveryState.uncertain)) [
              | inl s ↦ rw (same, unsent, s) (refused _ refl)
              | inr settled ↦ elim (Bool-cases (is_retryable d.failure_retryable)) [
                | inr r ↦ rw (same, unsent, settled, r) (refused _ refl)
                | inl r ↦ elim (Bool-cases (leb 3 d.attempt_count)) [
                  | inl n ↦ rw (same, unsent, settled, r, n) (refused _ refl)
                  | inr n ↦ elim (Option-cases (deferral parse_date d at)) [
                    | inr (left, later) ↦ rw (same, unsent, settled, r, n, later) (refused _ refl)
                    | inl now ↦ rw (same, unsent, settled, r, n, now) (again d e unsent settled r n)
                  ]
                ]
              ]
            ]
    ]
  ]

module _ (parse_date : String → Option ℕ) (key : String) (ownership : Ownership)
    (message : TelegramOutboundMessage) (digest at : String) (t : Tables) where
  abbrev newly : Delivery
  newly = new_delivery key ownership message digest at

  new-Claimed :
      (r : Option Receipt)
      → delivery key t ≡ none
      → Claimed key at newly t (claim_new key ownership message digest at r t)
  unfolding claim_new
  new-Claimed none e = opened e
  new-Claimed (some r) e = elim (Bool-cases (r.payload_digest == digest)) [
    | inl s ↦ rw s (refused _ refl)
    | inr f ↦ rw f (refused _ refl)
  ]

  pub claim-Claimed :
      Claimed key at newly t (claim_telegram_delivery parse_date key ownership message digest at t)
  unfolding claim_telegram_delivery
  claim-Claimed = elim (Option-cases (delivery key t)) [
    | inl e ↦ rw (claim_telegram_delivery, e) (new-Claimed (telegram_delivery_receipt key t) e)
    | inr (d, e) ↦
        rw (claim_telegram_delivery, e) (known-Claimed parse_date key digest at newly t d e)
  ]
