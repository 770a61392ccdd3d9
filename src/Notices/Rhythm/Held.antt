-- ===== src/Notices/Rhythm/Held.antt =====
-- src/operations/exception-notice-rhythm.ts: a notice that is held over the night is stored, and not sent.
use real_ming.Base.{
  ℕ, String, String_eq, Bool, true, false, not, ◌&&◌, ◌==◌, ◌≡◌, refl, ◌∙◌, Option, none, some,
  List, [], ◌∷◌, exists, exists-last, update, Bool-cases, inl, inr, test_self,
}
use real_ming.Telegram.Kinds.{
  TelegramNotification, TelegramNotificationResult, notification_kind_text,
}
use real_ming.Telegram.Tables.{NoticeState, HeldNotice, Tables}
use real_ming.Telegram.Notices.{
  GroupKind, first, grouped, exception_notice_delivery, is_notice, is_held, hold_exception_notice,
  held_again, record_exception_notice_delivery,
}
use real_ming.Telegram.Channel.{
  Channel, Door, Run, done, thrown, after, M, pure, continue, ◌>>=◌, read, stated,
}
use real_ming.Telegram.FrontDoor.{now, notify}
use real_ming.Notices.Kinds.{ExceptionNotice, Admission}
use real_ming.Notices.Schedule.{Calendar, minutes_into_day, is_night}
use real_ming.Notices.Rhythm.{
  bypasses, must_reopen, reopened_group, group_of, record_delivery, delivery_state, admission_of,
  deliver, release_at_for, hold, by_minute, by_clock, by_group, by_signature, stands_down, admit,
}

-- A stored notice of the key that has not been released.
abbrev pub waits : String → Tables → Bool
waits key t = exists (λ h. is_notice key h && is_held h) t.held_notices

held_update :
    (key at release_at : String) (hs : List HeldNotice)
    → exists (is_notice key) hs ≡ true
    → exists
        (λ h. is_notice key h && is_held h)
        (update (is_notice key) (held_again at release_at) hs)
      ≡ true
held_update key at release_at [] e = cc
held_update key at release_at (h ∷ hs) e = elim (Bool-cases (is_notice key h)) [
  | inr f ↦ rw (f, f) (held_update key at release_at hs (rw f at e))
  | inl s ↦ elim (Bool-cases (is_held h)) [
    | inl k ↦ rw (s, k, s, k) refl
    | inr k ↦ rw (s, k, s) refl
  ]
]

-- Storing a notice makes it wait, whether or not the table has its key.
hold-waits :
    (key kind notice_text at release_at : String) (t : Tables)
    → waits key (hold_exception_notice key kind notice_text at release_at t) ≡ true
unfolding hold_exception_notice
hold-waits key kind notice_text at release_at t =
    elim (Bool-cases (exists (is_notice key) t.held_notices)) [
      | inl e ↦ rw e (held_update key at release_at t.held_notices e)
      | inr e ↦ rw e (
          exists-last (λ h. is_notice key h && is_held h) t.held_notices _
            (rw (test_self key) refl))
    ]

pub record-waits :
    (key : String) (signature k : String) (state : NoticeState) (at : String) (t : Tables)
    → waits key (record_exception_notice_delivery signature k state at t) ≡ waits key t
unfolding record_exception_notice_delivery
record-waits key signature k state at t =
    elim (Bool-cases (exists (λ d. d.signature == signature) t.notice_deliveries)) [
      | inl e ↦ rw e refl
      | inr e ↦ rw e refl
    ]

abbrev pub Told : {A : Type 0} → (A → Door → Type 0) → Run A → Type 0
Told Q (done a w) = Q a w
Told Q (thrown e w) = Unit

Told-continue :
    {A B : Type 0} (Q : A → Door → Type 0) (R : B → Door → Type 0) (r : Run A) (f : A → M B)
    → Told Q r
    → ((a : A) (w : Door) → Q a w → Told R (f a w))
    → Told R (continue r f)
Told-continue Q R (done a w) f h k = k a w h
Told-continue Q R (thrown e w) f h k = tt

Told-any :
    {A B : Type 0} (R : B → Door → Type 0) (r : Run A) (f : A → M B)
    → ((a : A) (w : Door) → Told R (f a w))
    → Told R (continue r f)
Told-any R (done a w) f k = k a w
Told-any R (thrown e w) f k = tt

-- What an answer of `held` promises about the notice and about the transport.
abbrev pub HeldSafely : String → Door → Admission → Door → Type 0
HeldSafely key w (Admission.held release_at reason) v =
    (waits key v.tables ≡ true) × (v.handed ≡ w.handed)
HeldSafely key w _ v = Unit

module _ (calendar : Calendar) (channel : Channel) (w : Door) where
  answered :
      (key : String) (r : TelegramNotificationResult) (v : Door)
      → HeldSafely key w (admission_of calendar channel r) v
  answered key (TelegramNotificationResult.sent k) v = tt
  answered key (TelegramNotificationResult.suppressed k) v = tt
  answered key (TelegramNotificationResult.failed k f) v = tt

  after_deliver :
      (key : String) (signature : Option String) (n : TelegramNotification) (at : String) (v : Door)
      → Told (HeldSafely key w) (deliver calendar channel signature n at v)
  unfolding deliver ◌>>=◌ pure
  after_deliver key signature n at v = Told-any (HeldSafely key w) (notify channel n v) _ λ r u.
      Told-any (HeldSafely key w)
        (record_delivery calendar channel signature n.idempotency_key
          (delivery_state calendar channel r) at u)
        _ λ x z. answered key r z

  after_hold :
      (signature : Option String) (n : TelegramNotification) (at release_at : String) (v : Door)
      → v.handed ≡ w.handed
      → Told (HeldSafely n.idempotency_key w) (hold calendar channel signature n at release_at v)
  unfolding hold ◌>>=◌ pure stated
  after_hold none n at release_at v same = (
    hold-waits n.idempotency_key (notification_kind_text n.kind) n.notice_text at release_at
        v.tables,
    same,
  )
  after_hold (some signature) n at release_at v same = (
    record-waits n.idempotency_key signature n.idempotency_key NoticeState.held at (
          hold_exception_notice n.idempotency_key (notification_kind_text n.kind) n.notice_text at
            release_at v.tables)
        ∙ hold-waits n.idempotency_key (notification_kind_text n.kind) n.notice_text at release_at
            v.tables,
    same,
  )

  by_minute_fine :
      (signature : Option String) (notice : ExceptionNotice) (at : String) (instant : ℕ)
      (o : Option ℕ) (v : Door)
      → v.handed ≡ w.handed
      → Told
          (HeldSafely notice.notification.idempotency_key w)
          (by_minute calendar channel signature notice at instant o v)
  by_minute_fine signature notice at instant none v same = tt
  by_minute_fine signature notice at instant (some minute) v same =
      elim (Bool-cases (is_night minute && not (bypasses notice))) [
        | inl s ↦ rw s (
            after_hold signature notice.notification at
              (release_at_for calendar channel instant minute) v same)
        | inr s ↦
            rw s
              (after_deliver notice.notification.idempotency_key signature notice.notification at v)
      ]

  by_clock_fine :
      (signature : Option String) (notice : ExceptionNotice) (at : String) (o : Option ℕ) (v : Door)
      → v.handed ≡ w.handed
      → Told
          (HeldSafely notice.notification.idempotency_key w)
          (by_clock calendar channel signature notice at o v)
  by_clock_fine signature notice at none v same = tt
  by_clock_fine signature notice at (some instant) v same =
      by_minute_fine signature notice at instant (minutes_into_day calendar instant) v same

  abbrev Silent : {A : Type 0} → A → Door → Type 0
  Silent a v = v.handed ≡ w.handed

  reopened-Silent :
      (signature at : String) (g : GroupKind × ℕ) (v : Door)
      → v.handed ≡ w.handed
      → Told Silent (reopened_group calendar channel signature at g v)
  unfolding ◌>>=◌ pure stated read
  reopened-Silent signature at (first, n) v same = same
  reopened-Silent signature at (grouped, n) v same =
      elim (Bool-cases (must_reopen (exception_notice_delivery signature v.tables) v.tables)) [
        | inl s ↦ rw s same
        | inr s ↦ rw s same
      ]

  group-Silent :
      (signature at : String) (v : Door)
      → v.handed ≡ w.handed
      → Told Silent (group_of calendar channel signature at v)
  unfolding group_of ◌>>=◌ stated
  group-Silent signature at v same = reopened-Silent signature at _ _ same

  by_group_fine :
      (signature : String) (notice : ExceptionNotice) (at : String) (g : GroupKind × ℕ) (v : Door)
      → v.handed ≡ w.handed
      → Told
          (HeldSafely notice.notification.idempotency_key w)
          (by_group calendar channel signature notice at g v)
  unfolding ◌>>=◌ read pure
  by_group_fine signature notice at (first, n) v same =
      by_clock_fine (some signature) notice at (calendar.parse_date at) v same
  by_group_fine signature notice at (grouped, n) v same = tt

  by_signature_fine :
      (o : Option String) (notice : ExceptionNotice) (at : String) (v : Door)
      → v.handed ≡ w.handed
      → Told
          (HeldSafely notice.notification.idempotency_key w)
          (by_signature calendar channel o notice at v)
  unfolding ◌>>=◌
  by_signature_fine none notice at v same =
      by_clock_fine none notice at (calendar.parse_date at) v same
  by_signature_fine (some signature) notice at v same =
      Told-continue Silent (HeldSafely notice.notification.idempotency_key w)
        (group_of calendar channel signature at v) _ (group-Silent signature at v same)
        λ g u. by_group_fine signature notice at g u

-- Whatever the hour, the groups and the transport: where `admit` answers that a notice is held, the
-- notice waits in the table of held notices, unreleased, and nothing was handed to the transport.
pub admit-HeldSafely :
    (calendar : Calendar) (channel : Channel) (notice : ExceptionNotice) (w : Door)
    → Told (HeldSafely notice.notification.idempotency_key w) (admit calendar channel notice w)
unfolding admit ◌>>=◌ now pure
admit-HeldSafely calendar channel notice w =
    elim (Bool-cases
      (stands_down calendar channel notice.notification.kind (channel.clock w.ticks))) [
        | inl s ↦ rw s tt
        | inr s ↦ rw s (
            by_signature_fine calendar channel w notice.signature notice (channel.clock w.ticks) _
              refl)
      ]

-- A notice outside any group that comes in the night, when the clock can be read, and that neither
-- may wake the CEO nor is stood down for the weekend: `admit` answers that it is held until the
-- end of the night, the notice waits in the table, and nothing was handed to the transport.
pub admit-hold :
    (calendar : Calendar) (channel : Channel) (notification : TelegramNotification) (urgent : Bool)
    (w : Door) (instant minute : ℕ)
    → calendar.parse_date (channel.clock w.ticks) ≡ some instant
    → minutes_into_day calendar instant ≡ some minute
    → is_night minute ≡ true
    → bypasses (record { notification = notification; urgent_deadline = urgent; signature = none })
      ≡ false
    → stands_down calendar channel notification.kind (channel.clock w.ticks) ≡ false
    → (admit calendar channel
          (record { notification = notification; urgent_deadline = urgent; signature = none })
          w
        ≡ done (Admission.held (release_at_for calendar channel instant minute) "do-not-disturb") (
            after (
              admit calendar channel
                (record { notification = notification; urgent_deadline = urgent; signature = none })
                w)))
      × ((waits notification.idempotency_key
              (after (
                admit calendar channel
                  (record {
                    notification = notification;
                    urgent_deadline = urgent;
                    signature = none;
                  })
                  w)).tables
            ≡ true)
          × ((after (
                admit calendar channel
                  (record {
                    notification = notification;
                    urgent_deadline = urgent;
                    signature = none;
                  })
                  w)).handed
              ≡ w.handed))
unfolding admit ◌>>=◌ now pure hold stated
admit-hold calendar channel notification urgent w instant minute reads shows night sleeps weekday =
    rw (weekday, reads, shows, night, sleeps)
      (
        refl,
        (
          hold-waits notification.idempotency_key (notification_kind_text notification.kind)
              notification.notice_text _ _ w.tables,
          refl,
        ),
      )
