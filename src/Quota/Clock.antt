-- ===== src/Quota/Clock.antt =====
-- The UTC moments of app/quota/service.py: `strftime`, and the seconds to the next day and month.
use ai_platform_mini.Prelude.{
  ℕ, ◌+◌, ◌-◌, ◌*◌, ◌/◌, ◌%◌, ◌≤◌, ◌<◌, ◌≡◌, refl, Bool, not, ◌&&◌, ◌||◌, [], ◌∷◌, ◌++◌, Text, take,
  ◌==◌, if◌then◌else◌, arith,
}

-- A `datetime` in UTC: its date, and the microseconds since midnight.
pub record Moment : Type 0 where
  pub year : ℕ
  pub month : ℕ
  pub day : ℕ
  pub micros : ℕ

abbrev pub micros_per_second : ℕ
micros_per_second = 1000000

abbrev pub micros_per_day : ℕ
micros_per_day = 86400000000

abbrev pub is_leap : ℕ → Bool
is_leap y = (y % 4 == 0 && not (y % 100 == 0)) || y % 400 == 0

-- The days of a month of the calendar.
abbrev pub days_in_month : ℕ → ℕ → ℕ
days_in_month y m =
    if m == 2
    then (if is_leap y then 29 else 28)
    else if m == 4 || m == 6 || m == 9 || m == 11
    then 30
    else 31

pub record IsMoment (t : Moment) : Type 0 where
  pub month_in_year : (1 ≤ t.month) × (t.month ≤ 12)
  pub day_in_month : (1 ≤ t.day) × (t.day ≤ days_in_month t.year t.month)
  pub micros_in_day : t.micros < micros_per_day

-- `%d` and `%m` have two digits, `%Y` four.
abbrev pub digit : ℕ → ℕ
digit n = 48 + n % 10

abbrev pub two_digits : ℕ → Text
two_digits n = digit (n / 10) ∷ digit n ∷ []

abbrev pub four_digits : ℕ → Text
four_digits n = digit (n / 1000) ∷ digit (n / 100) ∷ two_digits n

-- `now.strftime("%Y-%m")` and `now.strftime("%Y-%m-%d")`
abbrev pub year_month : Moment → Text
year_month t = four_digits t.year ++ 45 ∷ two_digits t.month

abbrev pub date : Moment → Text
date t = four_digits t.year ++ 45 ∷ (two_digits t.month ++ 45 ∷ two_digits t.day)

-- Midnight of the next day, and of the first day of the next month, less the moment.
abbrev pub to_next_day : Moment → ℕ
to_next_day t = micros_per_day - t.micros

abbrev pub to_next_month : Moment → ℕ
to_next_month t = (days_in_month t.year t.month - t.day) * micros_per_day + to_next_day t

-- `int((next_day - now).total_seconds())`
unfoldable pub seconds_until_next_day : Moment → ℕ
seconds_until_next_day t = to_next_day t / micros_per_second

unfoldable pub seconds_until_next_month : Moment → ℕ
seconds_until_next_month t = to_next_month t / micros_per_second

-- The month that the repository cuts out of a usage date is the month that the service names.
pub take-date : (t : Moment) → take 7 (date t) ≡ year_month t
take-date t = refl

-- The seconds that a refused call is told to wait end in the last second before the limit is
-- reset, never behind the reset; a day's wait is at most 24 hours, a month's at most 31 days and
-- never shorter than the day's.
pub seconds_until_lem :
    (t : Moment)
    → IsMoment t
    → let d = seconds_until_next_day t in
      let m = seconds_until_next_month t in
      ((d * micros_per_second ≤ to_next_day t) × (to_next_day t < (d + 1) * micros_per_second))
      × ((m * micros_per_second ≤ to_next_month t)
          × (to_next_month t < (m + 1) * micros_per_second))
      × (d ≤ 86400)
      × (m ≤ 31 * 86400)
      × (d ≤ m)
unfolding seconds_until_next_day seconds_until_next_month
seconds_until_lem t v =
    let few = few_days t.year t.month in
    (
      (omega arith, omega arith),
      (omega arith, omega arith),
      omega arith,
      omega (arith, few, v.day_in_month.0, v.micros_in_day),
      omega arith,
    )
  where
    few_days : (y m : ℕ) → days_in_month y m ≤ 31
    few_days y m = ground arith
