-- ===== src/Notices/Schedule.antt =====
-- src/operations/daily-schedule.ts: the day, the weekend and the night of the operating zone.
use real_ming.Base.{ℕ, ◌+◌, ◌*◌, ◌%◌, String, Bool, ◌||◌, ◌==◌, ℕ_eq, ltb, leb, Option, none, some}

-- What the source asks of `Date` and `Intl`. Moments count milliseconds from the earliest that a
-- JavaScript date can hold, and NaN is `none`.
pub record Calendar : Type 0 where
  pub parse_date : String → Option ℕ
  pub operating_day_of : Option ℕ → String
  pub local_clock : ℕ → Option (ℕ × ℕ)  -- hour and minute, where both are integers
  pub utc_day : String → ℕ  -- the day of the week at noon, Sunday is 0
  pub instant_at_local_time : String → ℕ → ℕ → String

abbrev pub do_not_disturb_end_hour : ℕ
do_not_disturb_end_hour = 7

abbrev pub do_not_disturb_start_minute : ℕ
do_not_disturb_start_minute = 23 * 60

abbrev do_not_disturb_end_minute : ℕ
do_not_disturb_end_minute = do_not_disturb_end_hour * 60

-- Past 23:00 or before 07:00.
abbrev pub is_night : ℕ → Bool
is_night minute = leb do_not_disturb_start_minute minute || ltb minute do_not_disturb_end_minute

module _ (calendar : Calendar) where
  -- `none` where the source throws.
  unfoldable pub minutes_into_day : ℕ → Option ℕ
  minutes_into_day instant = elim (calendar.local_clock instant) [
    | none ↦ none
    | some c ↦ some (c.0 % 24 * 60 + c.1)
  ]

  unfoldable pub is_weekend : String → Bool
  is_weekend date = calendar.utc_day date == 0 || calendar.utc_day date == 6
