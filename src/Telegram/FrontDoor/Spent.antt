-- ===== src/Telegram/FrontDoor/Spent.antt =====
-- src/operations/operations-state.ts: how many messages the attempts of a delivery account for.
use real_ming.Base.{
  ℕ, suc, ◌≤◌, String, String_eq, Bool, true, false, ◌&&◌, ◌||◌, ◌==◌, leb, ◌≡◌, refl, sym, ap,
  subst, Option, none, some, update, find-update_where, find-update_elsewhere, find-insert,
  find-test, updated, or_row, Bool-cases, inl, inr, eq_test, test_sym, arith,
}
use real_ming.Telegram.Kinds.{DeliveryState, DeliveryState_eq, TelegramDeliveryClaim}
use real_ming.Telegram.Tables.{Delivery, Tables}
use real_ming.Telegram.Outbox.{delivery, has_key, is_failed_of, sent_again, reopened}
use real_ming.Telegram.Outbox.Claims.{is_send, Claimed, refused, again, opened}

-- At most `n` messages were handed over for a delivery's attempts, of which there are three at most.
pub data Spent (n : ℕ) : Option Delivery → Type 0 where
  unknown : n ≡ 0 → Spent n none
  known :
      {d : Delivery}
      → n ≤ d.attempt_count
      → d.attempt_count ≤ 3
      → (d.state == DeliveryState.cancelled) ≡ false
      → Spent n (some d)

module _ (key : String) where
  pub update-Spent :
      (q : Delivery → Bool) (g : Delivery → Delivery)
      → ((d : Delivery) → (g d).idempotency_key ≡ d.idempotency_key)
      → ((d : Delivery) → (g d).attempt_count ≡ d.attempt_count)
      → ((d : Delivery) → ((g d).state == DeliveryState.cancelled) ≡ false)
      → (n : ℕ) (t : Tables) → Spent n (delivery key t)
      → Spent n (delivery key (record t { deliveries = update q g t.deliveries }))
  update-Spent q g keeps counts lives n t h =
      rw (find-update_where (has_key key) q g (λ d. ap (λ k. k == key) (keeps d)) t.deliveries)
        (changed (delivery key t) h)
    where
      changed : (o : Option Delivery) → Spent n o → Spent n (updated q g o)
      changed none h = h
      changed (some d) (known few bound live) = elim (Bool-cases (q d)) [
        | inr f ↦ rw f (known few bound live)
        | inl s ↦ rw s (known (rw (counts d) few) (rw (counts d) bound) (lives d))
      ]

failed_left :
    (s : DeliveryState)
    → (s == DeliveryState.sent) ≡ false
    → (s == DeliveryState.in_flight || s == DeliveryState.uncertain) ≡ false
    → (s == DeliveryState.cancelled) ≡ false
    → (s == DeliveryState.failed) ≡ true
failed_left DeliveryState.failed a b c = refl
failed_left DeliveryState.sent a b c = sym a
failed_left DeliveryState.in_flight a b c = sym b
failed_left DeliveryState.uncertain a b c = sym b
failed_left DeliveryState.cancelled a b c = sym c

module _ (k at : String) (t : Tables) where
  -- A delivery that a claim sends again has one attempt more.
  again-Spent :
      (n : ℕ) (d : Delivery)
      → delivery k t ≡ some d
      → is_failed_of k d ≡ true
      → leb 3 d.attempt_count ≡ false
      → Spent n (delivery k t)
      → Spent (suc n) (delivery k (reopened k at t))
  again-Spent n d found failed few h =
      rw
        (
          find-update_where (has_key k) (is_failed_of k) (sent_again at) (λ d. refl) t.deliveries,
          found,
          failed,
        )
        (more (subst (Spent n) found h))
    where
      more : Spent n (some d) → Spent (suc n) (some (sent_again at d))
      more (known less bound live) = known (ground arith) (ground arith) refl

  -- A claim of another key leaves a delivery as it is.
  again_elsewhere :
      (key : String) → (k == key) ≡ false → delivery key (reopened k at t) ≡ delivery key t
  again_elsewhere key apart =
      find-update_elsewhere (has_key key) (is_failed_of k) (sent_again at) (λ d. refl)
        (λ x mine. rw (eq_test x.idempotency_key key mine, test_sym key k, apart) refl) t.deliveries

abbrev pub more_if : Bool → ℕ → ℕ
more_if true n = suc n
more_if false n = n

live : {n : ℕ} {d : Delivery} → Spent n (some d) → (d.state == DeliveryState.cancelled) ≡ false
live (known less bound h) = h

own-Spent :
    (k at : String) (t : Tables) (n : ℕ) (d : Delivery)
    → delivery k t ≡ some d
    → (d.state == DeliveryState.sent) ≡ false
    → (d.state == DeliveryState.in_flight || d.state == DeliveryState.uncertain) ≡ false
    → leb 3 d.attempt_count ≡ false
    → Spent n (delivery k t)
    → Spent (suc n) (delivery k (reopened k at t))
own-Spent k at t n d found unsent settled few h =
    let failed = failed_left d.state unsent settled (live (subst (Spent n) found h)) in
    let mine : (d.idempotency_key == k) ≡ true = find-test (has_key k) t.deliveries found in
    again-Spent k at t n d found (rw (mine, failed) refl) few h

opened_none :
    (n : ℕ) (p : Delivery → Bool) (new : Delivery) (o : Option Delivery)
    → p new ≡ false
    → Spent n o
    → Spent n (or_row p new o)
opened_none n p new none differs h = rw differs h
opened_none n p new (some d) differs h = h

opened_own :
    (n : ℕ) (p : Delivery → Bool) (new : Delivery)
    → p new ≡ true
    → new.attempt_count ≡ 1
    → (new.state == DeliveryState.cancelled) ≡ false
    → Spent n none
    → Spent (suc n) (or_row p new none)
opened_own n p new it one lives (unknown z) =
    rw it (known (omega (arith, z, one)) (omega (arith, one)) lives)

-- A claim that may send uses up one attempt of its own key, and no claim uses up another's.
pub claim-Spent :
    (key k at : String) (new : Delivery) (t : Tables) (n : ℕ) {r : TelegramDeliveryClaim × Tables}
    → new.idempotency_key ≡ k
    → new.attempt_count ≡ 1
    → (new.state == DeliveryState.cancelled) ≡ false
    → Claimed k at new t r
    → Spent n (delivery key t)
    → Spent (more_if (is_send r.0 && (k == key)) n) (delivery key r.1)
claim-Spent key k at new t n mine one lives (refused c unsent) h = rw unsent h
claim-Spent key k at new t n mine one lives (again d found unsent settled _ few) h =
    elim (Bool-cases (k == key)) [
      | inr apart ↦ rw (apart, again_elsewhere k at t key apart) h
      | inl same ↦
          let it : k ≡ key = eq_test k key same in
          let before = subst (λ q. Spent n (delivery q t)) (sym it) h in
          rw same (
            subst (λ q. Spent (suc n) (delivery q (reopened k at t))) it
              (own-Spent k at t n d found unsent settled few before))
    ]
claim-Spent key k at new t n mine one lives (opened fresh) h =
    rw (find-insert (has_key key) t.deliveries new) (elim (Bool-cases (k == key)) [
      | inr apart ↦
          rw apart (opened_none n (has_key key) new (delivery key t) (rw (mine, apart) refl) h)
      | inl same ↦
          let it : k ≡ key = eq_test k key same in
          let gone : delivery key t ≡ none = subst (λ q. delivery q t ≡ none) it fresh in
          rw (same, gone)
            (opened_own n (has_key key) new (rw (mine, same) refl) one lives
              (subst (Spent n) gone h))
    ])
