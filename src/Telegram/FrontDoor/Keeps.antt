-- ===== src/Telegram/FrontDoor/Keeps.antt =====
-- src/telegram/telegram-front-door.ts: the methods of the front door hand over no message but those that
-- claims have allowed.
use real_ming.Base.{
  ℕ, String, String_eq, Bool, true, false, ◌&&◌, ◌==◌, ◌≡◌, refl, sym, ◌∙◌, subst, List, [], ◌∷◌,
  ◌++◌, exists, count, count-append, Bool-cases, inl, inr, arith,
}
use real_ming.Contracts.Json.{Details, fields}
use real_ming.Telegram.Kinds.{
  DeliveryState, DeliveryState_eq, ProviderFailure, TelegramSendRequest, TelegramTransportResult,
  TelegramDeliveryClaim, send, conflict, deferred, terminal_failure, TelegramAuditType,
  TelegramNotification, TelegramPendingDelivery,
}
use real_ming.Telegram.Tables.{Tables, Result, ok, err, append_telegram_audit}
use real_ming.Telegram.Outbox.{
  delivery, is_flight_of, delivered, failed_with, FailureOutcome, state_of_outcome,
  complete_telegram_delivery, record_telegram_delivery_receipt, fail_telegram_delivery,
  claim_telegram_delivery,
}
use real_ming.Telegram.Outbox.Claims.{is_send, claim-Claimed}
use real_ming.Telegram.Calls.{committed}
use real_ming.Telegram.Channel.{
  Reply, replied, lost, Channel, Door, Run, done, thrown, M, pure, continue, ◌>>=◌, read, stated,
  settled, attempted,
}
use real_ming.Telegram.FrontDoor.{
  ceo_ownership, now, audit, refused, handing, uncertain_delivery_failure, conclude, after_claim,
  send_claimed, send_durably, retry_each, retry_pending_deliveries, notify, notified,
  is_allowed_kind,
}
use real_ming.Telegram.FrontDoor.Spent.{Spent, update-Spent, claim-Spent, more_if}

count-last :
    {A : Type 0} (p : A → Bool) (xs : List A) (x : A)
    → count p (xs ++ (x ∷ [])) ≡ more_if (p x) (count p xs)
count-last p xs x =
    count-append p xs (x ∷ [])
    ∙ (elim (Bool-cases (p x)) [ inl t ↦ rw t (omega arith) | inr f ↦ rw f (omega arith) ])

abbrev pub is_for : String → TelegramSendRequest → Bool
is_for key message = message.idempotency_key == key

-- The messages of the key that were handed over, with one more if a claim has just allowed it.
abbrev pub Owed : String → Bool → Door → Type 0
Owed key b w = Spent (more_if b (count (is_for key) w.handed)) (delivery key w.tables)

abbrev pub Ends : {A : Type 0} → String → (A → Door → Type 0) → Run A → Type 0
Ends key Q (done a w) = Q a w
Ends key Q (thrown e w) = Owed key false w

Ends-continue :
    {A B : Type 0} (key : String) (Q : A → Door → Type 0) (R : B → Door → Type 0) (r : Run A)
    (f : A → M B)
    → Ends key Q r
    → ((a : A) (w : Door) → Q a w → Ends key R (f a w))
    → Ends key R (continue r f)
Ends-continue key Q R (done a w) f h k = k a w h
Ends-continue key Q R (thrown e w) f h k = h

abbrev pub Balanced : {A : Type 0} → String → Run A → Type 0
Balanced key r = Ends key (λ _ v. Owed key false v) r

-- A computation that leaves no message unaccounted for.
pub record Keeps {A : Type 0} (key : String) (m : M A) : Type 0 where
  pub keeps : (w : Door) → Owed key false w → Balanced key (m w)

Keeps-bind :
    {A B : Type 0} {key : String} {m : M A} {f : A → M B}
    → Keeps key m
    → ((a : A) → Keeps key (f a))
    → Keeps key (m >>= f)
unfolding ◌>>=◌
Keeps-bind {key = key} {m = m} {f = f} h k = record {
  keeps = λ w o.
      Ends-continue key (λ _ v. Owed key false v) (λ _ v. Owed key false v) (m w) f (h.keeps w o)
        λ a v. (k a).keeps v;
}

Keeps-pure : {A : Type 0} (key : String) (a : A) → Keeps key (pure a)
unfolding pure
Keeps-pure key a = record { keeps = λ w o. o }

Keeps-now : (key : String) (channel : Channel) → Keeps key (now channel)
unfolding now
Keeps-now key channel = record { keeps = λ w o. o }

Keeps-read : {A : Type 0} (key : String) (f : Tables → A) → Keeps key (read f)
unfolding read
Keeps-read key f = record { keeps = λ w o. o }

settled-Balanced :
    {A : Type 0} (key : String) (r : Result (A × Tables)) (w : Door)
    → Spent (count (is_for key) w.handed) (delivery key (committed r w.tables))
    → Balanced key (settled r w)
settled-Balanced key (ok (a, t)) w h = h
settled-Balanced key (err e) w h = h

-- A method of the state that throws, or keeps what is spent of every delivery.
Keeps-attempted :
    {A : Type 0} (key : String) (f : Tables → Result (A × Tables))
    → ((n : ℕ) (t : Tables) → Spent n (delivery key t) → Spent n (delivery key (committed (f t) t)))
    → Keeps key (attempted f)
unfolding attempted
Keeps-attempted key f h = record {
  keeps = λ w o. settled-Balanced key (f w.tables) w (h _ w.tables o);
}

module _ (key : String) (channel : Channel) where
  Keeps-audit :
      (kind : TelegramAuditType) (details : Details) → Keeps key (audit channel kind details)
  unfolding append_telegram_audit
  Keeps-audit kind details = Keeps-bind (Keeps-now key channel) λ at.
      Keeps-attempted key
        (append_telegram_audit channel.carries_secret ceo_ownership kind at details)
        λ n t h. audited at n t h
    where
      audited :
          (at : String) (n : ℕ) (t : Tables)
          → Spent n (delivery key t)
          → Spent n (
              delivery key (
                committed
                  (append_telegram_audit channel.carries_secret ceo_ownership kind at details t)
                  t))
      audited at n t h = elim (Bool-cases (channel.carries_secret (fields details))) [
        | inl s ↦ rw s h
        | inr s ↦ rw s h
      ]

  completed-Spent :
      (k : String) (digest at : String) (n : ℕ) (t : Tables)
      → Spent n (delivery key t)
      → Spent n
          (delivery key (committed (complete_telegram_delivery k ceo_ownership digest at t) t))
  unfolding complete_telegram_delivery record_telegram_delivery_receipt
  completed-Spent k digest at n t h =
      elim (Bool-cases (exists (is_flight_of k digest) t.deliveries)) [
        | inr f ↦ rw f h
        | inl g ↦
            let kept =
              update-Spent key (is_flight_of k digest) (delivered at) (λ d. refl) (λ d. refl)
                (λ d. refl) n t h in
            elim (Bool-cases (exists (λ r. r.idempotency_key == k) t.receipts)) [
              | inl e ↦ rw (g, e) kept
              | inr e ↦ rw (g, e) kept
            ]
      ]

  failed-Spent :
      (k digest : String) (failure : ProviderFailure) (at : String) (outcome : FailureOutcome)
      (n : ℕ) (t : Tables)
      → Spent n (delivery key t)
      → Spent n (delivery key (committed (fail_telegram_delivery k digest failure at outcome t) t))
  unfolding fail_telegram_delivery
  failed-Spent k digest failure at outcome n t h =
      elim (Bool-cases (exists (is_flight_of k digest) t.deliveries)) [
        | inr f ↦ rw f h
        | inl g ↦ rw g (
            update-Spent key (is_flight_of k digest) (failed_with failure outcome at) (λ d. refl)
              (λ d. refl) (λ d. lives outcome) n t h)
      ]
    where
      lives : (o : FailureOutcome) → (state_of_outcome o == DeliveryState.cancelled) ≡ false
      lives FailureOutcome.failed = refl
      lives FailureOutcome.uncertain = refl

  Keeps-refused :
      (k : String) (failure : ProviderFailure) (why : Details)
      → Keeps key (refused channel k failure why)
  Keeps-refused k failure why = Keeps-bind (Keeps-audit _ _) λ u. Keeps-pure key _

  Keeps-conclude : (k digest : String) (reply : Reply) → Keeps key (conclude channel k digest reply)
  unfolding conclude
  Keeps-conclude k digest lost = Keeps-bind (Keeps-now key channel) λ at.
      Keeps-bind
        (Keeps-attempted key
          (fail_telegram_delivery k digest uncertain_delivery_failure at FailureOutcome.uncertain)
          λ n t. failed-Spent k digest uncertain_delivery_failure at FailureOutcome.uncertain n t)
        λ u. Keeps-refused k _ _
  Keeps-conclude k digest (replied (TelegramTransportResult.failed failure)) =
      Keeps-bind (Keeps-now key channel) λ at.
        Keeps-bind
          (Keeps-attempted key (fail_telegram_delivery k digest failure at FailureOutcome.failed)
            λ n t. failed-Spent k digest failure at FailureOutcome.failed n t)
          λ u. Keeps-refused k failure _
  Keeps-conclude k digest (replied (TelegramTransportResult.sent deduplicated)) =
      Keeps-bind (Keeps-now key channel) λ at.
        Keeps-bind
          (Keeps-attempted key (complete_telegram_delivery k ceo_ownership digest at)
            λ n t. completed-Spent k digest at n t)
          λ u. Keeps-pure key _

  Keeps-after_claim :
      (message : TelegramSendRequest) (digest : String) (c : TelegramDeliveryClaim)
      → is_send c ≡ false
      → Keeps key (after_claim channel message digest c)
  unfolding after_claim
  Keeps-after_claim message digest conflict h = Keeps-refused _ _ _
  Keeps-after_claim message digest TelegramDeliveryClaim.sent h =
      Keeps-bind (Keeps-audit _ _) λ u. Keeps-pure key _
  Keeps-after_claim message digest TelegramDeliveryClaim.uncertain h = Keeps-refused _ _ _
  Keeps-after_claim message digest (deferred failure) h = Keeps-refused _ _ _
  Keeps-after_claim message digest (terminal_failure failure) h = Keeps-refused _ _ _
  Keeps-after_claim message digest (send attempt) h = cc

  handed_over :
      (message : TelegramSendRequest) (w : Door)
      → Owed key (is_for key message) w
      → Owed key false (record w { handed = w.handed ++ (message ∷ []) })
  handed_over message w h =
      subst (λ n. Spent n (delivery key w.tables)) (sym (count-last (is_for key) w.handed message))
        h

  -- What follows a claim hands over at most the one message that the claim allowed.
  after_claim-Balanced :
      (message : TelegramSendRequest) (digest : String) (c : TelegramDeliveryClaim) (w : Door)
      → Owed key (is_send c && is_for key message) w
      → Balanced key (after_claim channel message digest c w)
  unfolding after_claim handing ◌>>=◌
  after_claim-Balanced message digest (send attempt) w o =
      (Keeps-conclude message.idempotency_key digest _).keeps _ (handed_over message w o)
  after_claim-Balanced message digest conflict w o =
      (Keeps-after_claim message digest conflict refl).keeps w o
  after_claim-Balanced message digest TelegramDeliveryClaim.sent w o =
      (Keeps-after_claim message digest TelegramDeliveryClaim.sent refl).keeps w o
  after_claim-Balanced message digest TelegramDeliveryClaim.uncertain w o =
      (Keeps-after_claim message digest TelegramDeliveryClaim.uncertain refl).keeps w o
  after_claim-Balanced message digest (deferred failure) w o =
      (Keeps-after_claim message digest (deferred failure) refl).keeps w o
  after_claim-Balanced message digest (terminal_failure failure) w o =
      (Keeps-after_claim message digest (terminal_failure failure) refl).keeps w o

  claimed-Balanced :
      (message : TelegramSendRequest) (at : String) (w : Door)
      → Owed key false w
      → Balanced key (
          continue
            (stated
              (claim_telegram_delivery channel.parse_date message.idempotency_key ceo_ownership
                message.outbound
                (channel.digest message.outbound)
                at)
              w)
            (after_claim channel message (channel.digest message.outbound)))
  unfolding stated
  claimed-Balanced message at w o =
      after_claim-Balanced message (channel.digest message.outbound) _ _ (
        claim-Spent key message.idempotency_key at _ w.tables (count (is_for key) w.handed) refl
          refl refl
          (claim-Claimed channel.parse_date message.idempotency_key ceo_ownership message.outbound
            (channel.digest message.outbound) at w.tables)
          o)

  Keeps-send_claimed : (message : TelegramSendRequest) → Keeps key (send_claimed channel message)
  unfolding send_claimed ◌>>=◌ now
  Keeps-send_claimed message = record {
    keeps = λ w o. claimed-Balanced message (channel.clock w.ticks) _ o;
  }

  pub Keeps-send_durably :
      (message : TelegramSendRequest) → Keeps key (send_durably channel message)
  unfolding send_durably
  Keeps-send_durably message =
      elim (Bool-cases (channel.sensitive_text message.outbound.message_text)) [
        | inl s ↦ rw s (Keeps-refused _ _ _)
        | inr s ↦ rw s (Keeps-send_claimed message)
      ]

  Keeps-retry_each : (ps : List TelegramPendingDelivery) → Keeps key (retry_each channel ps)
  unfolding retry_each
  Keeps-retry_each [] = Keeps-pure key (0, 0)
  Keeps-retry_each (p ∷ ps) =
      Keeps-bind (Keeps-send_durably _)
        λ result. Keeps-bind (Keeps-retry_each ps) λ counts. Keeps-pure key _

  pub Keeps-retry : Keeps key (retry_pending_deliveries channel)
  unfolding retry_pending_deliveries
  Keeps-retry = Keeps-bind (Keeps-now key channel) λ at. Keeps-bind (Keeps-read key _) λ pending.
      Keeps-bind (Keeps-retry_each pending)
        λ counts. Keeps-bind (Keeps-read key _) λ uncertain. Keeps-pure key _

  Keeps-notified :
      (notification : TelegramNotification) (result : TelegramTransportResult)
      → Keeps key (notified channel notification result)
  Keeps-notified notification (TelegramTransportResult.failed failure) = Keeps-pure key _
  Keeps-notified notification (TelegramTransportResult.sent true) = Keeps-pure key _
  Keeps-notified notification (TelegramTransportResult.sent false) =
      Keeps-bind (Keeps-audit _ _) λ u. Keeps-pure key _

  pub Keeps-notify : (notification : TelegramNotification) → Keeps key (notify channel notification)
  unfolding notify
  Keeps-notify notification = elim (Bool-cases (is_allowed_kind notification.kind)) [
    | inl s ↦ rw s (Keeps-bind (Keeps-send_durably _) λ result. Keeps-notified notification result)
    | inr s ↦ rw s (Keeps-bind (Keeps-audit _ _) λ u. Keeps-pure key _)
  ]
