-- ===== src/Telegram/Calls/Keys.antt =====
-- src/operations/operations-state.ts: the primary key of the outbox, kept by every method.
use real_ming.Base.{
  ℕ, String, Bool, false, ◌==◌, String_eq, if◌then◌else◌, ◌≡◌, refl, sym, ◌∙◌, subst, Option, List,
  [], ◌∷◌, exists, update, Distinct, Distinct-insert, Distinct-update, Bool-cases, inl, inr,
  test_sym, find-eq-none, exists-none, All-weaken,
}
use real_ming.Telegram.Kinds.{TelegramDeliveryClaim}
use real_ming.Telegram.Tables.{Delivery, Tables}
use real_ming.Telegram.Outbox.{
  has_key, is_failed_of, sent_again, is_flight_of, delivered, failed_with,
  complete_telegram_delivery, record_telegram_delivery_receipt, fail_telegram_delivery,
}
use real_ming.Telegram.Outbox.Claims.{Claimed, refused, again, opened, claim-Claimed}
use real_ming.Telegram.Outbox.Pending.{same_key, Keyed}
use real_ming.Telegram.Notices.{
  is_open, called_off, cancel_telegram_delivery, mark_exception_notice_delivery_by_idempotency,
}
use real_ming.Telegram.Calls.{Call, claiming, completing, failing, cancelling, called, served}

update-Keyed :
    (q : Delivery → Bool) (g : Delivery → Delivery)
    → ((d : Delivery) → (g d).idempotency_key ≡ d.idempotency_key)
    → (ds : List Delivery) → Distinct same_key ds
    → Distinct same_key (update q g ds)
update-Keyed q g keeps ds h = Distinct-update same_key q g same ds h
  where
    kept : (d : Delivery) → (if q d then g d else d).idempotency_key ≡ d.idempotency_key
    kept d = elim (Bool-cases (q d)) [ inl t ↦ rw t (keeps d) | inr f ↦ rw f refl ]

    same :
        (x y : Delivery) → same_key (if q x then g x else x) (if q y then g y else y) ≡ same_key x y
    same x y = rw (kept x, kept y) refl

claim-Keyed :
    {key at : String} {new : Delivery} {t : Tables} {r : TelegramDeliveryClaim × Tables}
    → new.idempotency_key ≡ key
    → Claimed key at new t r
    → Keyed t
    → Keyed r.1
claim-Keyed mine (refused c _) h = h
claim-Keyed {key} {at} {t = t} mine (again d _ _ _ _ _) h =
    update-Keyed (is_failed_of key) (sent_again at) (λ d. refl) t.deliveries h
claim-Keyed {key} {new = new} {t = t} mine (opened e) h =
    Distinct-insert same_key new t.deliveries
      (exists-none (same_key new) t.deliveries (
        All-weaken (λ d. has_key key d ≡ false) (λ d. same_key new d ≡ false)
          (λ d differs.
            subst (λ k. (k == d.idempotency_key) ≡ false) (sym mine)
              (test_sym key d.idempotency_key ∙ differs))
          t.deliveries (find-eq-none (has_key key) t.deliveries e)))
      h

module _ (parse_date : String → Option ℕ) where
  called-Keyed : (c : Call) (t : Tables) → Keyed t → Keyed (called parse_date c t)
  unfolding complete_telegram_delivery record_telegram_delivery_receipt fail_telegram_delivery
      cancel_telegram_delivery mark_exception_notice_delivery_by_idempotency
  called-Keyed (claiming key ownership message digest at) t h =
      claim-Keyed refl (claim-Claimed parse_date key ownership message digest at t) h
  called-Keyed (completing key ownership digest at) t h =
      elim (Bool-cases (exists (is_flight_of key digest) t.deliveries)) [
        | inr f ↦ rw f h
        | inl g ↦
            let kept =
              update-Keyed (is_flight_of key digest) (delivered at) (λ d. refl) t.deliveries h in
            elim (Bool-cases (exists (λ r. r.idempotency_key == key) t.receipts)) [
              | inl e ↦ rw (g, e) kept
              | inr e ↦ rw (g, e) kept
            ]
      ]
  called-Keyed (failing key digest failure at outcome) t h =
      elim (Bool-cases (exists (is_flight_of key digest) t.deliveries)) [
        | inr f ↦ rw f h
        | inl g ↦ rw g (
            update-Keyed (is_flight_of key digest) (failed_with failure outcome at) (λ d. refl)
              t.deliveries h)
      ]
  called-Keyed (cancelling key at) t h =
      update-Keyed (is_open key) (called_off at) (λ d. refl) t.deliveries h

  -- After any calls on an empty outbox, no two deliveries have one key.
  pub served-Keyed : (cs : List Call) (t : Tables) → Keyed t → Keyed (served parse_date cs t)
  served-Keyed [] t h = h
  served-Keyed (c ∷ cs) t h = served-Keyed cs (called parse_date c t) (called-Keyed c t h)
