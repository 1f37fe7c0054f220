-- ===== src/Web/Controls.antt =====
-- internal/web/web.go, `renderControls` and `parseInterval`: the fields of the sampling interval as
-- they are filled in, and what the form makes of them.
use go_elite_log.Base.{
  ℕ, zero, suc, ◌+◌, ◌*◌, ◌/◌, ◌%◌, ◌^◌, ◌≤◌, ◌<◌, ◌≡◌, ◌≢◌, ap, ◌∙◌, arith, Bool, true, some, List,
  [], ◌∷◌, ◌==◌, if◌then◌else◌,
}
use go_elite_log.Base.Int.{pos}
use go_elite_log.Base.Result.{ok}
use go_elite_log.Calendar.{second, minute}
use go_elite_log.Logger.Configure.{valid_interval}
use go_elite_log.Text.{Text, atoi_ok, itoa_ℕ, itoa, if_parsed}
use go_elite_log.Text.Decimal.{atoi-itoa, itoa_ℕ-IsNumeral, IsNumeral}
use go_elite_log.Web.{parse_interval}
use go_elite_log.Web.Interval.{parse_interval_reaches}

-- An option of a drop-down list: its value, and whether it is marked as selected.
abbrev pub Choice : Type 0
Choice = ℕ × Bool

-- `for sec := 0; sec < 60; sec += 10`, from `sec` on with a number of options left.
unfoldable pub choices_from : ℕ → ℕ → ℕ → List Choice
choices_from zero sec seconds = []
choices_from (suc n) sec seconds = (sec, sec == seconds) ∷ choices_from n (sec + 10) seconds

unfoldable pub second_choices : ℕ → List Choice
unfolding choices_from
second_choices seconds = choices_from 6 0 seconds

-- The minutes, and the choice of seconds.
unfoldable pub interval_controls : ℕ → Text × List Choice
unfolding second_choices
interval_controls interval =
    (itoa_ℕ (interval / minute), second_choices (interval % minute / second))

-- The options that are marked.
abbrev pub marked : List Choice → List ℕ
marked [] = []
marked ((sec, chosen) ∷ cs) = let rest = marked cs in if chosen then sec ∷ rest else rest

marked_tens : (k : ℕ) → k < 6 → marked (second_choices (k * 10)) ≡ k * 10 ∷ []
unfolding second_choices choices_from
marked_tens k h = ground arith

marked-second_choices : (s : ℕ) → s < 60 → s % 10 ≡ 0 → marked (second_choices s) ≡ s ∷ []
marked-second_choices s h t =
    let e : s ≡ s / 10 * 10 = omega arith in rw e (marked_tens (s / 10) (omega arith))

atoi_ok-itoa_ℕ : (n : ℕ) → n < 2 ^ 63 → atoi_ok (itoa_ℕ n) ≡ some (pos n)
unfolding itoa
atoi_ok-itoa_ℕ n h = ap if_parsed (atoi-itoa (pos n) h)

numeral-ne-empty : (s : Text) → IsNumeral s → s ≢ []
numeral-ne-empty [] h = elim h [ ]
numeral-ne-empty (c ∷ s) h = λ e. cc

valid_bounds :
    (i : ℕ)
    → valid_interval i ≡ true
    → (i / minute ≤ 1440) × (i % minute / second < 60) × (i % minute / second % 10 ≡ 0)
valid_bounds i v = (ground arith, omega arith, ground arith)

module _ (trim_space : Text → Text)
    (keeps_numerals : (s : Text) → IsNumeral s → trim_space s ≡ s) where
  -- For each interval that `Configure` accepts, the form of the settings marks exactly one choice
  -- of seconds, and the form's minutes with that choice are read back as the interval, where
  -- trimming leaves a text of digits as it is.
  pub parse_interval-interval_controls :
      (interval : ℕ)
      → valid_interval interval ≡ true
      → (s : ℕ) × (marked (interval_controls interval).1 ≡ s ∷ [])
        × (parse_interval trim_space atoi_ok (interval_controls interval).0 (itoa_ℕ s)
            ≡ ok interval)
  unfolding interval_controls
  parse_interval-interval_controls interval v =
      let (m, s, t) = valid_bounds interval v in
      let trimmed : (n : ℕ) → trim_space (itoa_ℕ n) ≡ itoa_ℕ n =
        λ n. keeps_numerals (itoa_ℕ n) (itoa_ℕ-IsNumeral n) in
      let read : (n : ℕ) → n < 2 ^ 63 → atoi_ok (trim_space (itoa_ℕ n)) ≡ some (pos n) =
        λ n h. ap atoi_ok (trimmed n) ∙ atoi_ok-itoa_ℕ n h in
      (
        interval % minute / second,
        marked-second_choices _ s t,
        parse_interval_reaches trim_space atoi_ok _ _ interval v
            (rw (trimmed (interval % minute / second)) (numeral-ne-empty _ (itoa_ℕ-IsNumeral _)))
            (read (interval / minute) (omega arith))
            (read (interval % minute / second) (omega arith)),
      )
