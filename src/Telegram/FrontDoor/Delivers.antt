-- ===== src/Telegram/FrontDoor/Delivers.antt =====
-- src/telegram/telegram-front-door.ts: a message that the transport takes is recorded as delivered.
use real_ming.Base.{
  suc, String, String_eq, Bool, true, false, ◌==◌, ◌≡◌, refl, ap, ◌∙◌, none, some, [], ◌∷◌, ◌++◌,
  length, exists, exists-last, find, update, find-update_where, find-insert, updated, or_row,
  Bool-cases, inl, inr, test_self,
}
use real_ming.Telegram.Kinds.{
  TelegramSendRequest, TelegramTransportResult, Ownership, DeliveryState, DeliveryState_eq,
  DeliveryStatus, send,
}
use real_ming.Telegram.Tables.{Delivery, Tables, ok}
use real_ming.Telegram.Outbox.{
  delivery, has_key, telegram_delivery_receipt, is_flight_of, delivered, new_delivery, inserted,
  claim_telegram_delivery, claim_new, complete_telegram_delivery, record_telegram_delivery_receipt,
  telegram_delivery_status,
}
use real_ming.Telegram.Channel.{Channel, Door, done, replied, pure, ◌>>=◌, stated, attempted, after}
use real_ming.Telegram.FrontDoor.{
  ceo_ownership, now, handing, conclude, after_claim, send_claimed, send_durably,
}

updated-or_row :
    {A : Type 0} (p q : A → Bool) (g : A → A) (x : A)
    → p x ≡ true
    → q x ≡ true
    → updated q g (or_row p x none) ≡ some (g x)
updated-or_row p q g x s t = rw (s, t) refl

-- The tables once a delivery that was just inserted is completed.
abbrev landed : String → String → String → Ownership → Delivery → Tables → Tables
landed key digest at ownership d t =
    record_telegram_delivery_receipt key ownership digest at (record t {
      deliveries = update (is_flight_of key digest) (delivered at) (t.deliveries ++ (d ∷ []));
    })

module _ (key digest at : String) (ownership : Ownership) (d : Delivery)
    (mine : d.idempotency_key ≡ key) (same : d.payload_digest ≡ digest)
    (flies : d.state ≡ DeliveryState.in_flight) (t : Tables) (fresh : delivery key t ≡ none) where
  flight : is_flight_of key digest d ≡ true
  flight = rw (mine, same, flies, test_self key, test_self digest) refl

  arrived :
      find
        (has_key key)
        (update (is_flight_of key digest) (delivered at) (t.deliveries ++ (d ∷ [])))
      ≡ some (delivered at d)
  arrived =
      find-update_where (has_key key) (is_flight_of key digest) (delivered at) (λ x. refl)
        (t.deliveries ++ (d ∷ []))
      ∙ ap (λ o. updated (is_flight_of key digest) (delivered at) o)
          (find-insert (has_key key) t.deliveries d ∙ ap (λ o. or_row (has_key key) d o) fresh)
      ∙ updated-or_row (has_key key) (is_flight_of key digest) (delivered at) d
          (rw (mine, test_self key) refl) flight

  -- Completing a delivery that was just inserted records it as sent.
  completes :
      complete_telegram_delivery key ownership digest at (inserted d t)
      ≡ ok (tt, landed key digest at ownership d t)
  unfolding complete_telegram_delivery
  completes = rw (exists-last (is_flight_of key digest) t.deliveries d flight) refl

  landed-sent :
      telegram_delivery_status key (landed key digest at ownership d t) ≡ DeliveryStatus.sent
  unfolding record_telegram_delivery_receipt telegram_delivery_status
  landed-sent = elim (Bool-cases (exists (λ r. r.idempotency_key == key) t.receipts)) [
    | inl e ↦ rw (e, arrived) refl
    | inr e ↦ rw (e, arrived) refl
  ]

module _ (channel : Channel) (message : TelegramSendRequest) (w : Door) where
  abbrev payload_digest : String
  payload_digest = channel.digest message.outbound

  abbrev first_delivery : Delivery
  first_delivery =
      new_delivery message.idempotency_key ceo_ownership message.outbound payload_digest
        (channel.clock w.ticks)

  abbrev completed_at : String
  completed_at = channel.clock (suc w.ticks)

  -- The front door once the transport has taken the message.
  abbrev door : Tables → Door
  door t = record w { tables = t; ticks = suc (suc w.ticks); handed = w.handed ++ (message ∷ []) }

  abbrev final_tables : Tables
  final_tables =
      landed message.idempotency_key payload_digest completed_at ceo_ownership first_delivery
        w.tables

  claims :
      delivery message.idempotency_key w.tables ≡ none
      → telegram_delivery_receipt message.idempotency_key w.tables ≡ none
      → claim_telegram_delivery channel.parse_date message.idempotency_key ceo_ownership
          message.outbound payload_digest
          (channel.clock w.ticks)
          w.tables
        ≡ (send 1, inserted first_delivery w.tables)
  unfolding claim_telegram_delivery claim_new
  claims fresh unknown = rw (claim_telegram_delivery, fresh, unknown) refl

  runs :
      (deduplicated : Bool)
      → channel.sensitive_text message.outbound.message_text ≡ false
      → delivery message.idempotency_key w.tables ≡ none
      → telegram_delivery_receipt message.idempotency_key w.tables ≡ none
      → channel.reply (length w.handed) message
        ≡ replied (TelegramTransportResult.sent deduplicated)
      → send_durably channel message w
        ≡ done (TelegramTransportResult.sent deduplicated) (door final_tables)
  unfolding send_durably send_claimed ◌>>=◌ now stated after_claim handing conclude attempted pure
  runs deduplicated safe fresh unknown takes =
      rw
        (
          safe,
          claims fresh unknown,
          takes,
          completes message.idempotency_key payload_digest completed_at ceo_ownership first_delivery
              refl refl refl w.tables fresh,
        )
        refl

  -- A message without a secret, of a key that neither the outbox nor the receipts have, which the
  -- transport takes: the caller is told the transport's answer, the transport was handed the
  -- message once more, and the status of its delivery is `sent`.
  pub send_durably-sent :
      (deduplicated : Bool)
      → channel.sensitive_text message.outbound.message_text ≡ false
      → delivery message.idempotency_key w.tables ≡ none
      → telegram_delivery_receipt message.idempotency_key w.tables ≡ none
      → channel.reply (length w.handed) message
        ≡ replied (TelegramTransportResult.sent deduplicated)
      → (send_durably channel message w
          ≡ done
              (TelegramTransportResult.sent deduplicated)
              (after (send_durably channel message w)))
        × (((after (send_durably channel message w)).handed ≡ w.handed ++ (message ∷ []))
            × (telegram_delivery_status message.idempotency_key
                  (after (send_durably channel message w)).tables
                ≡ DeliveryStatus.sent))
  send_durably-sent deduplicated safe fresh unknown takes =
      rw (runs deduplicated safe fresh unknown takes) (
        refl,
        (
          refl,
          landed-sent message.idempotency_key payload_digest completed_at ceo_ownership
              first_delivery refl refl refl w.tables fresh,
        ),
      )
