-- ===== src/Calendar/Inverse.antt =====
-- `Day`, `Month` and the rest read back what `time.Date` was given, if the day is in the month.
use go_elite_log.Base.{
  ℕ, zero, suc, ◌+◌, ◌-◌, ◌*◌, ◌/◌, ◌%◌, ◌≤◌, ◌<◌, ◌≡◌, ap, arith, List, [], ◌∷◌, true, false, Bool,
  length, All, get_or-All, get_or, take,
}
use native.Mathlib.Decide.{ℕ_discrete}
use go_elite_log.Base.Int.{pos}
use go_elite_log.Calendar.{
  second, is_leap, year_length, month_lengths, days_in, span, total, day_number, date, find_year,
  find_month, civil_ℕ, civil,
}

find_year-span :
    (k f y r : ℕ) → k < f → r < year_length (y + k) → find_year f y (span y k + r) ≡ (y + k, r)
unfolding find_year span
find_year-span k zero y r h lt = absurd (omega arith)
find_year-span zero (suc f) y r h lt =
    let e : y + 0 ≡ y = omega arith in let lt' : r < year_length y = rw e at lt in ground arith
find_year-span (suc k) (suc f) y r h lt =
    let e : y + suc k ≡ suc y + k = omega arith in
    ground (arith, e, find_year-span k f (suc y) r (omega arith))

find_month-total :
    (ls : List ℕ) (k m r : ℕ)
    → k < length ls
    → r < get_or ls k 0
    → find_month ls m (total (take k ls) + r) ≡ (m + k, r)
unfolding find_month total
find_month-total [] k m r h lt = absurd (omega arith)
find_month-total (l ∷ ls) zero m r h lt = ground arith
find_month-total (l ∷ ls) (suc k) m r h lt =
    ground (arith, find_month-total ls k (suc m) r (omega arith) lt)

month_lengths-All : (leap : Bool) → All (λ l. (28 ≤ l) × (l ≤ 31)) (month_lengths leap)
month_lengths-All true = omega arith
month_lengths-All false = omega arith

pub days_in_bounds : (y m : ℕ) → 1 ≤ m → m ≤ 12 → (28 ≤ days_in y m) × (days_in y m ≤ 31)
unfolding days_in
days_in_bounds y m lo hi =
    get_or-All (λ l. (28 ≤ l) × (l ≤ 31)) (month_lengths (is_leap y)) (m - 1) 0
      (month_lengths-All (is_leap y)) (omega arith)

-- December has the 31 days that the range check on a day allows.
days_in_december : (y : ℕ) → days_in y 12 ≡ 31
unfolding days_in
days_in_december y = ground arith

total-take :
    (ls : List ℕ) (k : ℕ)
    → k < length ls
    → total (take (suc k) ls) ≡ total (take k ls) + get_or ls k 0
unfolding total
total-take [] k h = absurd (omega arith)
total-take (l ∷ ls) zero h = omega arith
total-take (l ∷ ls) (suc k) h = omega (arith, total-take ls k (omega arith))

total-take_le : (ls : List ℕ) (k : ℕ) → total (take k ls) ≤ total ls
unfolding total
total-take_le ls zero = omega arith
total-take_le [] (suc k) = omega arith
total-take_le (l ∷ ls) (suc k) = omega (arith, total-take_le ls k)

total-month_lengths : (y : ℕ) → total (month_lengths (is_leap y)) ≡ year_length y
unfolding total year_length
total-month_lengths y = ground arith

le-span : (y k : ℕ) → k ≤ span y k
unfolding span year_length
le-span y zero = omega arith
le-span y (suc k) = ground (arith, le-span (suc y) k)

-- The start of month number `k`, counted from 0, in its year.
abbrev month_start : ℕ → ℕ → ℕ
month_start y k = total (take k (month_lengths (is_leap y)))

month_start_step :
    (y m : ℕ) → 1 ≤ m → m ≤ 12 → month_start y m ≡ month_start y (m - 1) + days_in y m
unfolding days_in
month_start_step y (suc k) lo hi =
    let e : suc k - 1 ≡ k = omega arith in
    ground (
      arith,
      ap (λ i. month_start y i) e,
      ap (λ i. get_or (month_lengths (is_leap y)) i 0) e,
      total-take (month_lengths (is_leap y)) k (omega arith),
    )
month_start_step y zero lo hi = absurd (omega arith)

month_start_le : (y k : ℕ) → month_start y k ≤ year_length y
month_start_le y k =
    omega (arith, total-take_le (month_lengths (is_leap y)) k, total-month_lengths y)

-- The clock of an instant on day `j` of month `m` of year `y`.
civil_ℕ_at :
    (y m j c : ℕ)
    → 1 ≤ y
    → 1 ≤ m
    → m ≤ 12
    → j < days_in y m
    → c < 86400
    → let days = span 1 (y - 1) + (month_start y (m - 1) + j) in
      civil_ℕ (days * 86400 + c) ≡ record {
        year = pos y;
        month = m;
        day = j + 1;
        weekday = (days + 1) % 7;
        hours = c / 3600;
        minutes = c % 3600 / 60;
        seconds = c % 60;
      }
unfolding civil_ℕ
civil_ℕ_at y m j c hy lo hi hj hc = ground (
  arith,
  find_year-span (y - 1) (suc days) 1 (month_start y (m - 1) + j)
      (omega (arith, le-span 1 (y - 1))),
  find_month-total (month_lengths (is_leap y)) (m - 1) 1 j (omega arith) (unfold days_in in hj),
  month_start_step y m lo hi,
  month_start_le y m,
  days_of,
  (let e : 1 + (y - 1) ≡ y = omega arith in e),
)
  where
    days : ℕ
    days = span 1 (y - 1) + (month_start y (m - 1) + j)

    days_of : (days * 86400 + c) / 86400 ≡ days
    days_of = omega arith

whole_seconds : (n : ℕ) → n * second / second ≡ n
whole_seconds n = omega arith

clock_fields :
    (h mi s : ℕ)
    → mi < 60
    → s < 60
    → ((h * 3600 + mi * 60 + s) / 3600 ≡ h)
      × ((h * 3600 + mi * 60 + s) % 3600 / 60 ≡ mi)
      × ((h * 3600 + mi * 60 + s) % 60 ≡ s)
clock_fields h mi s hmi hs = omega arith

-- The clock at the start of month `m` and `d - 1` days, `h` hours, `mi` minutes and `s` seconds.
pub civil-date :
    (y m d h mi s : ℕ)
    → 1 ≤ y
    → 1 ≤ m
    → m ≤ 12
    → 1 ≤ d
    → d ≤ days_in y m
    → h < 24
    → mi < 60
    → s < 60
    → civil (date y m d h mi s) ≡ record {
      year = pos y;
      month = m;
      day = d;
      weekday = (day_number y m d + 1) % 7;
      hours = h;
      minutes = mi;
      seconds = s;
    }
unfolding civil date day_number
civil-date y m d h mi s hy lo hi d1 dn hh hmi hs = ground (
  arith,
  civil_ℕ_at y m (d - 1) (h * 3600 + mi * 60 + s) hy lo hi (omega arith) (omega arith),
  whole_seconds (day_number y m d * 86400 + (h * 3600 + mi * 60 + s)),
  clock_fields h mi s,
)

-- A day past the end of its month lies in the next one.
pub civil-date_past :
    (y m d h mi s : ℕ)
    → 1 ≤ y
    → 1 ≤ m
    → m ≤ 12
    → days_in y m < d
    → d ≤ 31
    → h < 24
    → mi < 60
    → s < 60
    → (civil (date y m d h mi s)).day ≡ d - days_in y m
unfolding civil date day_number
civil-date_past y m d h mi s hy lo hi dn d31 hh hmi hs = ground (
  arith,
  civil_ℕ_at y (m + 1) (d - 1 - days_in y m) (h * 3600 + mi * 60 + s) hy (omega arith)
      before_december short (omega arith),
  whole_seconds (day_number y m d * 86400 + (h * 3600 + mi * 60 + s)),
  month_start_step y m lo hi,
  (let e : m + 1 - 1 ≡ m = omega arith in ap (month_start y) e),
)
  where
    before_december : m + 1 ≤ 12
    before_december = elim (ℕ_discrete m 12) [
      | yes e ↦ absurd (omega (arith, ap (days_in y) e, days_in_december y))
      | no e ↦ omega arith
    ]

    short : d - 1 - days_in y m < days_in y (m + 1)
    short =
        omega
          (arith, days_in_bounds y m lo hi, days_in_bounds y (m + 1) (omega arith) before_december)
