-- ===== src/Web/Span.antt =====
-- internal/web/web.go: the parts of a duration's text, and the duration.
use go_elite_log.Base.{ℕ, ◌+◌, ◌*◌, ◌/◌, ◌%◌, ◌^◌, ◌<◌, ◌≤◌, ◌≡◌, arith, some, List, [], ◌∷◌}
use go_elite_log.Base.Int.{ℤ, pos, negsuc, pos_part}
use go_elite_log.Calendar.{second, minute}
use go_elite_log.Web.{Part, span_parts, format_span, duration_text}

-- The duration that a text stands for.
abbrev pub span_of : List Part → ℕ
span_of [] = 0
span_of ((n, unit) ∷ ps) = n * unit + span_of ps

minutes :
    (d : ℕ)
    → d + 30 * second < 2 ^ 63
    → span_of (span_parts d) ≡ (d + 30 * second) / minute * minute
unfolding span_parts
minutes d h = ground arith

-- For a duration at least half a minute below the greatest, the days, hours and minutes of
-- `formatSpan` add up to whole minutes: those nearest to the duration, half a minute upwards, and
-- none for a negative duration.
pub span_of-format_span :
    (v : ℤ)
    → pos_part v + 30 * second < 2 ^ 63
    → let s = span_of (format_span v) in
      (s % minute ≡ 0) × (s ≤ pos_part v + 30 * second) × (pos_part v < s + 30 * second)
unfolding format_span
span_of-format_span (pos d) h = rw (minutes d h) (omega arith, omega arith, omega arith)
span_of-format_span (negsuc n) h = rw (minutes 0 h) (omega arith, omega arith, omega arith)

-- If `durationText` gives a text, its hours, minutes and seconds add up to the duration without
-- its fraction of a second.
pub span_of-duration_text :
    (d : ℕ) {ps : List Part} → duration_text d ≡ some ps → span_of ps ≡ d / second * second
unfolding duration_text
span_of-duration_text d e = ground arith
