-- ===== src/Telegram/Calls/Moves.antt =====
-- src/operations/operations-state.ts: the delivery of one key as a state machine, whose states are the
-- answers of `telegramDeliveryStatus`.
use real_ming.Base.{
  ℕ, String, String_eq, Bool, true, false, ◌&&◌, ◌==◌, leb, ltb, ◌≡◌, refl, sym, ◌∙◌, ap, subst,
  Option, some, List, [], ◌∷◌, exists, update, find-update_where, find-insert, find-test,
  Option-cases, Bool-cases, inl, inr, eq_test, arith, some-injective,
}
use real_ming.Telegram.Kinds.{
  Ownership, ProviderFailure, DeliveryState, DeliveryState_eq, TelegramDeliveryClaim,
  DeliveryStatus, missing, pending, terminal,
}
use real_ming.Telegram.Tables.{Delivery, Tables}
use real_ming.Telegram.Outbox.{
  delivery, has_key, is_failed_of, sent_again, is_retryable, is_flight_of, delivered, failed_with,
  FailureOutcome, complete_telegram_delivery, record_telegram_delivery_receipt,
  fail_telegram_delivery, status_of, status_at, telegram_delivery_status,
}
use real_ming.Telegram.Outbox.Claims.{Claimed, refused, again, opened, claim-Claimed}
use real_ming.Telegram.Notices.{
  is_open, called_off, cancel_telegram_delivery, mark_exception_notice_delivery_by_idempotency,
}
use real_ming.Telegram.Calls.{
  Call, claiming, completing, failing, cancelling, called, committed, served,
}

-- The machine of one delivery.
pub data Moves : DeliveryStatus → DeliveryStatus → Type 0 where
  stays : (s : DeliveryStatus) → Moves s s
  begins : Moves missing DeliveryStatus.in_flight
  begins_again : Moves pending DeliveryStatus.in_flight
  arrives : Moves DeliveryStatus.in_flight DeliveryStatus.sent
  may_be_retried : Moves DeliveryStatus.in_flight pending
  gives_up : Moves DeliveryStatus.in_flight terminal
  is_lost : Moves DeliveryStatus.in_flight DeliveryStatus.uncertain
  called_off_flying : Moves DeliveryStatus.in_flight DeliveryStatus.cancelled
  called_off_pending : Moves pending DeliveryStatus.cancelled
  called_off_terminal : Moves terminal DeliveryStatus.cancelled

-- An update of the outbox moves each delivery, if it moves the rows that it changes.
update-Moves :
    (q : Delivery → Bool) (g : Delivery → Delivery)
    → ((d : Delivery) → (g d).idempotency_key ≡ d.idempotency_key)
    → (key : String) (t : Tables)
    → ((d : Delivery)
        → delivery key t ≡ some d
        → q d ≡ true
        → Moves (status_of d) (status_of (g d)))
    → Moves
        (status_at (delivery key t))
        (status_at (delivery key (record t { deliveries = update q g t.deliveries })))
update-Moves q g keeps key t step =
    rw (find-update_where (has_key key) q g (λ d. ap (λ k. k == key) (keeps d)) t.deliveries)
      (elim (Option-cases (delivery key t)) [
        | inl e ↦ rw e (stays missing)
        | inr (d, e) ↦ rw e (elim (Bool-cases (q d)) [
          | inr f ↦ rw f (stays (status_of d))
          | inl h ↦ rw h (step d e h)
        ])
      ])

-- What the guards of the updates say of a row's state.
flying :
    (key digest : String) (d : Delivery)
    → is_flight_of key digest d ≡ true
    → d.state ≡ DeliveryState.in_flight
flying key digest d h = eq_test d.state DeliveryState.in_flight (ground arith)

failing-Moves :
    (failure : ProviderFailure) (outcome : FailureOutcome) (at : String) (d : Delivery)
    → d.state ≡ DeliveryState.in_flight
    → Moves (status_of d) (status_of (failed_with failure outcome at d))
failing-Moves failure FailureOutcome.uncertain at d e = rw e is_lost
failing-Moves failure FailureOutcome.failed at d e =
    elim (Bool-cases (failure.retryable && ltb d.attempt_count 3)) [
      | inl h ↦ rw (e, h) may_be_retried
      | inr h ↦ rw (e, h) gives_up
    ]

failed_state :
    (key : String) (d : Delivery) → is_failed_of key d ≡ true → d.state ≡ DeliveryState.failed
failed_state key d h = eq_test d.state DeliveryState.failed (ground arith)

called_off-Moves :
    (key at : String) (d : Delivery)
    → is_open key d ≡ true
    → Moves (status_of d) (status_of (called_off at d))
called_off-Moves key at d h = elim (Bool-cases (d.state == DeliveryState.failed)) [
  | inr f ↦ rw (eq_test d.state DeliveryState.in_flight (ground arith)) called_off_flying
  | inl s ↦ elim (Bool-cases (is_retryable d.failure_retryable && ltb d.attempt_count 3)) [
    | inl r ↦ rw (eq_test d.state DeliveryState.failed s, r) called_off_pending
    | inr r ↦ rw (eq_test d.state DeliveryState.failed s, r) called_off_terminal
  ]
]

again-Moves :
    (key at : String) (d : Delivery)
    → is_retryable d.failure_retryable ≡ true
    → leb 3 d.attempt_count ≡ false
    → is_failed_of key d ≡ true
    → Moves (status_of d) (status_of (sent_again at d))
again-Moves key at d r n h =
    let few : ltb d.attempt_count 3 ≡ true = ground arith in
    rw (failed_state key d h, r, few) begins_again

-- The row that a scan for one key finds, and that another key's guard lets through, is that key's.
pub delivery_same :
    (k key : String) (t : Tables) (x : Delivery)
    → delivery key t ≡ some x
    → (x.idempotency_key == k) ≡ true
    → delivery k t ≡ some x
delivery_same k key t x found h =
    let mine : key ≡ k =
      sym (eq_test x.idempotency_key key (find-test (has_key key) t.deliveries found))
      ∙ eq_test x.idempotency_key k h in
    subst (λ q. delivery q t ≡ some x) mine found

module _ (key : String) (t : Tables) where
  claim-Moves :
      {k at : String} {new : Delivery} {r : TelegramDeliveryClaim × Tables}
      → new.idempotency_key ≡ k
      → status_of new ≡ DeliveryStatus.in_flight
      → Claimed k at new t r
      → Moves (status_at (delivery key t)) (status_at (delivery key r.1))
  claim-Moves mine flies (refused c _) = stays _
  claim-Moves {k} {at} mine flies (again d e _ _ r n) =
      update-Moves (is_failed_of k) (sent_again at) (λ x. refl) key t
        λ x found h.
          let same : d ≡ x =
            some-injective _ _ (sym e ∙ delivery_same k key t x found (ground arith)) in
          again-Moves k at x (subst (λ y. is_retryable y.failure_retryable ≡ true) same r)
            (subst (λ y. leb 3 y.attempt_count ≡ false) same n) h
  claim-Moves {k} {new = new} mine flies (opened e) =
      rw (find-insert (has_key key) t.deliveries new) (elim (Option-cases (delivery key t)) [
        | inr (d, f) ↦ rw f (stays _)
        | inl f ↦ rw f (elim (Bool-cases (has_key key new)) [
          | inl h ↦ rw h (rw flies begins)
          | inr h ↦ rw h (stays missing)
        ])
      ])

  complete-Moves :
      (k : String) (ownership : Ownership) (digest at : String)
      → Moves (status_at (delivery key t)) (
          status_at
            (delivery key (committed (complete_telegram_delivery k ownership digest at t) t)))
  unfolding complete_telegram_delivery record_telegram_delivery_receipt
  complete-Moves k ownership digest at =
      elim (Bool-cases (exists (is_flight_of k digest) t.deliveries)) [
        | inr f ↦ rw f (stays _)
        | inl h ↦ elim (Bool-cases (exists (λ r. r.idempotency_key == k) t.receipts)) [
          | inl e ↦
              rw (h, e)
                (update-Moves (is_flight_of k digest) (delivered at) (λ x. refl) key t
                  λ d found g. rw (flying k digest d g) arrives)
          | inr e ↦
              rw (h, e)
                (update-Moves (is_flight_of k digest) (delivered at) (λ x. refl) key t
                  λ d found g. rw (flying k digest d g) arrives)
        ]
      ]

  fail-Moves :
      (k digest : String) (failure : ProviderFailure) (at : String) (outcome : FailureOutcome)
      → Moves (status_at (delivery key t)) (
          status_at
            (delivery key (committed (fail_telegram_delivery k digest failure at outcome t) t)))
  unfolding fail_telegram_delivery
  fail-Moves k digest failure at outcome =
      elim (Bool-cases (exists (is_flight_of k digest) t.deliveries)) [
        | inr f ↦ rw f (stays _)
        | inl h ↦ rw h (
            update-Moves (is_flight_of k digest) (failed_with failure outcome at) (λ x. refl) key t
              λ d found g. failing-Moves failure outcome at d (flying k digest d g))
      ]

  cancel-Moves :
      (k at : String)
      → Moves
          (status_at (delivery key t))
          (status_at (delivery key (cancel_telegram_delivery k at t)))
  unfolding cancel_telegram_delivery mark_exception_notice_delivery_by_idempotency
  cancel-Moves k at =
      update-Moves (is_open k) (called_off at) (λ x. refl) key t
        λ d found g. called_off-Moves k at d g

module _ (parse_date : String → Option ℕ) where
  -- Whichever call of whichever key is made, each key's delivery makes at most one step of the
  -- machine.
  pub called-Moves :
      (key : String) (c : Call) (t : Tables)
      → Moves
          (telegram_delivery_status key t)
          (telegram_delivery_status key (called parse_date c t))
  unfolding telegram_delivery_status
  called-Moves key (claiming k ownership message digest at) t =
      claim-Moves key t refl refl (claim-Claimed parse_date k ownership message digest at t)
  called-Moves key (completing k ownership digest at) t = complete-Moves key t k ownership digest at
  called-Moves key (failing k digest failure at outcome) t =
      fail-Moves key t k digest failure at outcome
  called-Moves key (cancelling k at) t = cancel-Moves key t k at

  -- A delivery that was sent, that is uncertain or that was cancelled stays so, whichever calls
  -- follow.
  abbrev pub is_final : DeliveryStatus → Bool
  is_final s = elim s [
    | DeliveryStatus.sent ↦ true
    | DeliveryStatus.uncertain ↦ true
    | DeliveryStatus.cancelled ↦ true
    | _ ↦ false
  ]

  final : {s r : DeliveryStatus} → Moves s r → is_final s ≡ true → r ≡ s
  final (stays s) h = refl
  final begins h = cc
  final begins_again h = cc
  final arrives h = cc
  final may_be_retried h = cc
  final gives_up h = cc
  final is_lost h = cc
  final called_off_flying h = cc
  final called_off_pending h = cc
  final called_off_terminal h = cc

  pub served-final :
      (key : String) (cs : List Call) (t : Tables)
      → is_final (telegram_delivery_status key t) ≡ true
      → telegram_delivery_status key (served parse_date cs t) ≡ telegram_delivery_status key t
  served-final key [] t h = refl
  served-final key (c ∷ cs) t h =
      let same = final (called-Moves key c t) h in
      served-final key cs (called parse_date c t) (rw same h) ∙ same
