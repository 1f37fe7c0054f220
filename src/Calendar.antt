-- ===== src/Calendar.antt =====
-- The part of Go's package time that the source uses, in the proleptic Gregorian calendar. A
-- `Time` is the number of nanoseconds since its zero value, 0001-01-01 00:00:00; `time.Local` is
-- read as a zone of constant offset zero. A `Duration` is a number of nanoseconds.
pub mod Inverse
use go_elite_log.Base.{
  ℕ, zero, suc, ◌+◌, ◌-◌, ◌*◌, ◌/◌, ◌%◌, Bool, true, false, ◌&&◌, ◌||◌, List, [], ◌∷◌, ltb, ◌==◌,
  ◌!=◌, if◌then◌else◌, get_or, take,
}
use go_elite_log.Base.Int.{ℤ, pos, negsuc, sub_ℕ}

abbrev pub Time : Type 0
Time = ℤ

abbrev pub second : ℕ
second = 1_000_000_000

abbrev pub millisecond : ℕ
millisecond = 1_000_000

abbrev pub minute : ℕ
minute = 60 * second

abbrev pub hour : ℕ
hour = 60 * minute

-- The zero value of `time.Time`.
abbrev pub zero_time : Time
zero_time = pos 0

abbrev pub is_zero : Time → Bool
is_zero (pos n) = n == 0
is_zero (negsuc n) = false

unfoldable pub is_leap : ℕ → Bool
is_leap y = (y % 4 == 0) && ((y % 100 != 0) || (y % 400 == 0))

unfoldable pub year_length : ℕ → ℕ
unfolding is_leap
year_length y = if is_leap y then 366 else 365

-- The lengths of the months; the argument tells a leap year.
abbrev pub month_lengths : Bool → List ℕ
month_lengths leap =
    31 ∷ (if leap then 29 else 28) ∷ 31 ∷ 30 ∷ 31 ∷ 30 ∷ 31 ∷ 31 ∷ 30 ∷ 31 ∷ 30 ∷ 31 ∷ []

unfoldable pub days_in : ℕ → ℕ → ℕ
days_in y m = get_or (month_lengths (is_leap y)) (m - 1) 0

-- The days of `k` years from `y` on.
unfoldable pub span : ℕ → ℕ → ℕ
span y zero = 0
span y (suc k) = year_length y + span (suc y) k

unfoldable pub total : List ℕ → ℕ
total [] = 0
total (x ∷ xs) = x + total xs

-- The day number of a date, from 0001-01-01 on; a day past the month's end runs into the next.
unfoldable pub day_number : ℕ → ℕ → ℕ → ℕ
day_number y m d = span 1 (y - 1) + (total (take (m - 1) (month_lengths (is_leap y))) + (d - 1))

-- `time.Date`, for a month of 1 to 12 and a day of 1 or more.
unfoldable pub date : ℕ → ℕ → ℕ → ℕ → ℕ → ℕ → Time
date y m d h mi s = pos ((day_number y m d * 86400 + (h * 3600 + mi * 60 + s)) * second)

pub record Civil : Type 0 where
  pub year : ℤ
  pub month : ℕ
  pub day : ℕ
  pub weekday : ℕ
  pub hours : ℕ
  pub minutes : ℕ
  pub seconds : ℕ

-- The year that `d` days after the start of year `y` lie in, and the day in it.
unfoldable pub find_year : ℕ → ℕ → ℕ → ℕ × ℕ
find_year zero y d = (y, d)
find_year (suc f) y d = elim (ltb d (year_length y)) [
  | true ↦ (y, d)
  | false ↦ find_year f (suc y) (d - year_length y)
]

unfoldable pub find_month : List ℕ → ℕ → ℕ → ℕ × ℕ
find_month [] m d = (m, d)
find_month (l ∷ ls) m d = elim (ltb d l) [ true ↦ (m, d) | false ↦ find_month ls (suc m) (d - l) ]

-- The date and clock of a number of seconds since 0001-01-01; the years are searched one by one.
unfoldable pub civil_ℕ : ℕ → Civil
civil_ℕ secs =
    let days = secs / 86400 in
    let (y, yday) = find_year (suc days) 1 days in
    let (m, mday) = find_month (month_lengths (is_leap y)) 1 yday in
    record {
      year = pos y;
      month = m;
      day = mday + 1;
      weekday = (days + 1) % 7;
      hours = secs % 86400 / 3600;
      minutes = secs % 3600 / 60;
      seconds = secs % 60;
    }

-- Before the zero time: the same clock 400 years, a whole number of weeks, later.
abbrev cycle : ℕ
cycle = 146097 * 86400

abbrev back_400 : Civil → Civil
back_400 c = record c { year = elim c.year [ pos y ↦ sub_ℕ y 400 | negsuc y ↦ negsuc y ] }

unfoldable pub civil : Time → Civil
unfolding civil_ℕ
civil (pos n) = civil_ℕ (n / second)
civil (negsuc n) = back_400 (civil_ℕ (cycle - (n / second + 1)))
