-- ===== src/Telegram/Outbox/Pending.antt =====
-- src/operations/operations-state.ts: the deliveries that `pendingTelegramDeliveries` lists are those whose
-- claim may send again.
use mathlib.Core.Bool.{true≢false as true-ne-false}
use real_ming.Base.{
  ℕ, ◌+◌, String, String_eq, Bool, true, false, ◌&&◌, ◌||◌, ◌==◌, leb, ltb, ◌⊎◌, text_leb, ◌≡◌,
  refl, sym, ap, ◌∙◌, Option, none, some, List, [], ◌∷◌, exists, select, Distinct, exists-map,
  exists-select, exists-Distinct, Bool-cases, inl, inr, eq_test, test_self, arith, exists-same,
}
use real_ming.Telegram.Kinds.{
  TelegramOutboundMessage, Ownership, DeliveryState, DeliveryState_eq, TelegramPendingDelivery,
}
use real_ming.Telegram.Tables.{Delivery, Tables}
use real_ming.Telegram.Outbox.{
  delivery, has_key, is_retryable, deferral, retry_at, claim_retry, claim_known,
  claim_telegram_delivery, may_retry, is_due, by_time, insert_by_time, pending_delivery,
  pending_telegram_deliveries,
}
use real_ming.Telegram.Outbox.Claims.{is_send}

-- The primary key of the outbox.
abbrev pub same_key : Delivery → Delivery → Bool
same_key a b = a.idempotency_key == b.idempotency_key

abbrev pub Keyed : Tables → Type 0
Keyed t = Distinct same_key t.deliveries

and_assoc : (a b c : Bool) → (a && (b && c)) ≡ ((a && b) && c)
and_assoc true b c = refl
and_assoc false b c = refl

and_false : (a : Bool) → (a && false) ≡ false
and_false true = refl
and_false false = refl

exists-insert_by_time :
    (q : Delivery → Bool) (d : Delivery) (ds : List Delivery)
    → exists q (insert_by_time d ds) ≡ (q d || exists q ds)
exists-insert_by_time q d [] = refl
exists-insert_by_time q d (e ∷ es) = elim (Bool-cases (text_leb d.created_at e.created_at)) [
  | inl t ↦ rw t refl
  | inr f ↦ rw (f, exists-insert_by_time q d es) (ground arith)
]

exists-by_time : (q : Delivery → Bool) (ds : List Delivery) → exists q (by_time ds) ≡ exists q ds
exists-by_time q [] = refl
exists-by_time q (d ∷ ds) =
    exists-insert_by_time q d (by_time ds) ∙ ap (λ b. q d || b) (exists-by_time q ds)

abbrev pub is_pending_of : String → TelegramPendingDelivery → Bool
is_pending_of key p = p.idempotency_key == key

-- A delivery that was not cancelled has failed, or no claim sends it.
state-cases :
    (s : DeliveryState)
    → (s == DeliveryState.cancelled) ≡ false
    → (((s == DeliveryState.failed) ≡ true)
        × (((s == DeliveryState.sent) ≡ false)
            × ((s == DeliveryState.in_flight || s == DeliveryState.uncertain) ≡ false)))
      ⊎ (((s == DeliveryState.failed) ≡ false)
          × ((s == DeliveryState.sent
                || (s == DeliveryState.in_flight || s == DeliveryState.uncertain))
              ≡ true))
state-cases DeliveryState.in_flight h = inr (refl, refl)
state-cases DeliveryState.sent h = inr (refl, refl)
state-cases DeliveryState.failed h = inl (refl, (refl, refl))
state-cases DeliveryState.uncertain h = inr (refl, refl)
state-cases DeliveryState.cancelled h = absurd (true-ne-false h)

abbrev is_at_once : Option ℕ → Bool
is_at_once none = true
is_at_once (some left) = false

module _ (parse_date : String → Option ℕ) (key now : String) (t : Tables) where
  abbrev by_age : List Delivery
  by_age = by_time (select may_retry t.deliveries)

  only_key :
      (x y : Delivery)
      → same_key y x ≡ false
      → has_key key x ≡ true
      → ((may_retry y && is_due parse_date now y) && has_key key y) ≡ false
  only_key x y apart h = elim (Bool-cases (has_key key y)) [
    | inr f ↦ rw f (and_false _)
    | inl g ↦ absurd (
        true-ne-false (
          sym
            (rw (eq_test y.idempotency_key key g, eq_test x.idempotency_key key h) (test_self key))
          ∙ apart))
  ]

  pub pending_exists :
      exists (is_pending_of key) (pending_telegram_deliveries parse_date now t)
      ≡ exists (λ x. may_retry x && (is_due parse_date now x && has_key key x)) t.deliveries
  unfolding pending_telegram_deliveries
  pending_exists =
      exists-map (is_pending_of key) pending_delivery (select (is_due parse_date now) by_age)
      ∙ exists-select (has_key key) (is_due parse_date now) by_age
      ∙ exists-by_time (λ x. is_due parse_date now x && has_key key x)
          (select may_retry t.deliveries)
      ∙ exists-select (λ x. is_due parse_date now x && has_key key x) may_retry t.deliveries

  -- Whether a key is listed, read off its own row.
  listed :
      (d : Delivery)
      → Keyed t
      → delivery key t ≡ some d
      → exists (is_pending_of key) (pending_telegram_deliveries parse_date now t)
        ≡ (may_retry d && is_due parse_date now d)
  listed d keyed found =
      pending_exists
      ∙ exists-same (λ x. may_retry x && (is_due parse_date now x && has_key key x))
          (λ x. (may_retry x && is_due parse_date now x) && has_key key x)
          (λ x. and_assoc (may_retry x) _ _) t.deliveries
      ∙ exists-Distinct same_key (has_key key) (λ x. may_retry x && is_due parse_date now x)
          (λ x y apart h. only_key x y apart h) t.deliveries keyed found

  retry_sends : (o : Option ℕ) (d : Delivery) → is_send (claim_retry o d key now t).0 ≡ is_at_once o
  unfolding claim_retry
  retry_sends none d = refl
  retry_sends (some left) d = refl

  at_once :
      (wait : Option ℕ) (d : Delivery) (moment changed : ℕ)
      → d.retry_after_ms ≡ wait
      → parse_date now ≡ some moment
      → parse_date d.updated_at ≡ some changed
      → is_at_once (deferral parse_date d now) ≡ is_due parse_date now d
  at_once none d moment changed h e f = rw (deferral, is_due, h) refl
  at_once (some wait) d moment changed h e f = elim (Bool-cases (ltb moment (changed + wait))) [
    | inl early ↦
        let not_yet : leb (changed + wait) moment ≡ false = ground arith in
        rw (deferral, is_due, h, retry_at, f, e, early, not_yet) refl
    | inr late ↦
        let by_now : leb (changed + wait) moment ≡ true = ground arith in
        rw (deferral, is_due, h, retry_at, f, e, late, by_now) refl
  ]

  -- Whether a claim sends, read off the row.
  claimed :
      (d : Delivery) (moment changed : ℕ)
      → parse_date now ≡ some moment
      → parse_date d.updated_at ≡ some changed
      → (d.state == DeliveryState.cancelled) ≡ false
      → is_send (claim_known parse_date d key d.payload_digest now t).0
        ≡ (may_retry d && is_due parse_date now d)
  unfolding claim_known
  claimed d moment changed e f live = elim (state-cases d.state live) [
    | inr (unfailed, over) ↦ elim (Bool-cases (d.state == DeliveryState.sent)) [
      | inl s ↦ rw (test_self d.payload_digest, s, unfailed) refl
      | inr n ↦
          let rest : (d.state == DeliveryState.in_flight || d.state == DeliveryState.uncertain)
              ≡ true =
            ground arith in
          rw (test_self d.payload_digest, n, rest, unfailed) refl
    ]
    | inl (s, (unsent, settled)) ↦ elim (Bool-cases (is_retryable d.failure_retryable)) [
      | inr r ↦ rw (test_self d.payload_digest, s, unsent, settled, r) refl
      | inl r ↦ elim (Bool-cases (leb 3 d.attempt_count)) [
        | inl many ↦
            let none_left : ltb d.attempt_count 3 ≡ false = ground arith in
            rw (test_self d.payload_digest, s, unsent, settled, r, many, none_left) refl
        | inr few ↦
            let some_left : ltb d.attempt_count 3 ≡ true = ground arith in
            rw (test_self d.payload_digest, s, unsent, settled, r, few, some_left)
              (retry_sends (deferral parse_date d now) d
                ∙ at_once d.retry_after_ms d moment changed refl e f)
      ]
    ]
  ]

  -- A stored delivery that was not cancelled, in an outbox with one row for each key and at times
  -- that can be parsed, is listed as pending exactly where a claim of it with its own payload is
  -- answered `send`.
  pub pending-claim :
      (ownership : Ownership) (message : TelegramOutboundMessage) (d : Delivery)
      (moment changed : ℕ)
      → Keyed t
      → delivery key t ≡ some d
      → (d.state == DeliveryState.cancelled) ≡ false
      → parse_date now ≡ some moment
      → parse_date d.updated_at ≡ some changed
      → exists (is_pending_of key) (pending_telegram_deliveries parse_date now t)
        ≡ is_send
            (claim_telegram_delivery parse_date key ownership message d.payload_digest now t).0
  unfolding claim_telegram_delivery
  pending-claim ownership message d moment changed keyed found live e f =
      listed d keyed found
      ∙ sym (rw (claim_telegram_delivery, is_send, found) (claimed d moment changed e f live))
