-- ===== src/Tests/Forms.antt =====
-- The form of the interval, with a reader of one decimal digit or two, and texts of durations.
use go_elite_log.Base.{
  arith, ◌%◌, ◌≤◌, ◌<◌, ℕ, ◌≡◌, refl, true, ◌+◌, ◌*◌, ◌-◌, Option, none, some, List, [], ◌∷◌,
}
use go_elite_log.Base.Int.{ℤ, pos}
use go_elite_log.Base.Result.{ok}
use go_elite_log.Calendar.{second, minute, hour}
use go_elite_log.Logger.Configure.{valid_interval}
use go_elite_log.Web.{Part, parse_interval, format_span, duration_text}
use go_elite_log.Web.Interval.{valid_interval-parse_interval, parse_interval_reaches}
use go_elite_log.Web.Span.{span_of, span_of-format_span, span_of-duration_text}

abbrev digits : List ℕ → Option ℤ
digits (a ∷ []) = some (pos (a - 48))
digits (a ∷ b ∷ []) = some (pos ((a - 48) * 10 + (b - 48)))
digits _ = none

abbrev untrimmed : List ℕ → List ℕ
untrimmed b = b

-- "10" minutes and "30" seconds.
parse_run :
    parse_interval untrimmed digits (b'1' ∷ b'0' ∷ []) (b'3' ∷ b'0' ∷ []) ≡ ok (630 * second)
unfolding parse_interval
parse_run = refl

valid_interval-parse_interval_example : valid_interval (630 * second) ≡ true
valid_interval-parse_interval_example =
    valid_interval-parse_interval untrimmed digits (b'1' ∷ b'0' ∷ []) (b'3' ∷ b'0' ∷ []) parse_run

parse_interval_reaches_example :
    parse_interval untrimmed digits (b'1' ∷ b'0' ∷ []) (b'3' ∷ b'0' ∷ []) ≡ ok (630 * second)
parse_interval_reaches_example =
    parse_interval_reaches untrimmed digits (b'1' ∷ b'0' ∷ []) (b'3' ∷ b'0' ∷ []) (630 * second)
      refl (λ e. cc) refl refl

-- 5 h 19 min 30 s, to 5 h 20 min.
span_of-format_span_example :
    (span_of (format_span (pos (19170 * second))) % minute ≡ 0)
    × (span_of (format_span (pos (19170 * second))) ≤ 19170 * second + 30 * second)
    × (19170 * second < span_of (format_span (pos (19170 * second))) + 30 * second)
span_of-format_span_example = span_of-format_span (pos (19170 * second)) (omega arith)

abbrev some_parts : List Part
some_parts = (1, hour) ∷ (30, second) ∷ []

text_run : duration_text (3630 * second + 1) ≡ some some_parts
unfolding duration_text
text_run = refl

span_of-duration_text_example : span_of some_parts ≡ 3630 * second
span_of-duration_text_example = span_of-duration_text (3630 * second + 1) text_run
