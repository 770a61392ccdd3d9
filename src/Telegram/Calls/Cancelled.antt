-- ===== src/Telegram/Calls/Cancelled.antt =====
-- src/operations/operations-state.ts: claims of a delivery that `cancelTelegramDelivery` called off.
use real_ming.Base.{
  ℕ, suc, String, String_eq, true, false, ◌==◌, leb, ◌≡◌, refl, ap, ◌∙◌, Option, none, some, List,
  [], ◌∷◌, All, update, update-none, find-update_where, find-test, Bool-cases, inl, inr, test_self,
  arith,
}
use real_ming.Telegram.Kinds.{
  TelegramOutboundMessage, Ownership, DeliveryState, DeliveryState_eq, send,
}
use real_ming.Telegram.Tables.{Delivery, Tables}
use real_ming.Telegram.Outbox.{
  delivery, has_key, is_failed_of, sent_again, is_retryable, deferral, claim_retry, claim_known,
  reopened, claim_telegram_delivery, may_retry,
}
use real_ming.Telegram.Notices.{
  is_open, called_off, cancel_telegram_delivery, mark_exception_notice_delivery_by_idempotency,
}

failed_row : (d : Delivery) → may_retry d ≡ true → (d.state == DeliveryState.failed) ≡ true
failed_row d may = ground arith

module _ (key at : String) where
  -- No row of the key is `failed` once the key is called off.
  none_failed :
      (ds : List Delivery)
      → All (λ d. is_failed_of key d ≡ false) (update (is_open key) (called_off at) ds)
  none_failed [] = tt
  none_failed (d ∷ ds) = (
    elim (Bool-cases (is_open key d)) [ inl t ↦ rw t (ground arith) | inr f ↦ rw f (ground arith) ],
    none_failed ds,
  )

reopened_nothing :
    (key at later : String) (t : Tables)
    → reopened key later (cancel_telegram_delivery key at t) ≡ cancel_telegram_delivery key at t
unfolding cancel_telegram_delivery mark_exception_notice_delivery_by_idempotency
reopened_nothing key at later t =
    ap (λ ds. record (cancel_telegram_delivery key at t) { deliveries = ds })
      (update-none (is_failed_of key) (sent_again later)
        (update (is_open key) (called_off at) t.deliveries) (none_failed key at t.deliveries))

module _ (key at : String) where
  cancelled_row :
      (t : Tables) (d : Delivery)
      → delivery key t ≡ some d
      → may_retry d ≡ true
      → delivery key (cancel_telegram_delivery key at t) ≡ some (called_off at d)
  unfolding cancel_telegram_delivery mark_exception_notice_delivery_by_idempotency
  cancelled_row t d found may =
      let open_row : is_open key d ≡ true =
        rw (find-test (has_key key) t.deliveries found, failed_row d may) refl in
      find-update_where (has_key key) (is_open key) (called_off at) (λ x. refl) t.deliveries
      ∙ rw (found, open_row) refl

  module _ (parse_date : String → Option ℕ) (ownership : Ownership)
      (message : TelegramOutboundMessage) (later : String) where
    -- A failed delivery that may be retried and has no retry delay, once it is called off, is still
    -- answered `send` by a claim of it with its own payload, and the claim leaves the tables as they are.
    pub claim-cancel :
        (t : Tables) (d : Delivery)
        → delivery key t ≡ some d
        → may_retry d ≡ true
        → d.retry_after_ms ≡ none
        → claim_telegram_delivery parse_date key ownership message d.payload_digest later
            (cancel_telegram_delivery key at t)
          ≡ (send (suc d.attempt_count), cancel_telegram_delivery key at t)
    unfolding claim_telegram_delivery claim_known claim_retry
    claim-cancel t d found may soon =
        let retryable : is_retryable d.failure_retryable ≡ true = ground arith in
        let few : leb 3 d.attempt_count ≡ false = ground arith in
        rw
          (
            claim_telegram_delivery,
            cancelled_row t d found may,
            test_self d.payload_digest,
            retryable,
            few,
            deferral,
            soon,
          )
          (ap (λ u. (send (suc d.attempt_count), u)) (reopened_nothing key at later t))
