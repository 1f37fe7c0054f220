-- ===== src/Web.antt =====
-- internal/web/web.go: the form of the sampling interval, the texts of durations, and the headline
-- state. Texts are kept as what they are made of; markup is left out.
pub mod Interval
pub mod Span
pub mod Form
pub mod Controls
pub mod View
pub mod Site
pub mod Router
pub mod Sent
pub mod Facts
use go_elite_log.Base.{
  ℕ, ◌+◌, ◌-◌, ◌*◌, ◌/◌, ◌%◌, ◌^◌, Bool, true, false, not, ◌&&◌, ◌||◌, Option, none, some, List, [],
  ◌∷◌, ◌++◌, ltb, leb, ◌==◌, ◌!=◌, if◌then◌else◌,
}
use go_elite_log.Base.Int.{ℤ, pos, negsuc, ◌-ℤ◌, ltb_ℤ, signed64, wrap64}
use go_elite_log.Base.Result.{
  Result, ok, err, ◌>>=◌, ◌>>◌, guard, bad_minutes, bad_seconds, interval_short, interval_long,
}
use go_elite_log.Calendar.{Time, second, minute, hour, civil, is_zero}
use go_elite_log.Logger.Identity.{DeviceInfo}

-- The range tests on what `strconv.Atoi` read.
abbrev pub minutes_of : Option ℤ → Result ℕ
minutes_of (some (pos m)) = if ltb 1440 m then err bad_minutes else ok m
minutes_of (some (negsuc n)) = err bad_minutes
minutes_of none = err bad_minutes

abbrev pub seconds_of : Option ℤ → Result ℕ
seconds_of (some (pos s)) = if leb 60 s || (s % 10 != 0) then err bad_seconds else ok s
seconds_of (some (negsuc n)) = err bad_seconds
seconds_of none = err bad_seconds

abbrev pub checked_span : ℕ → Result ℕ
checked_span d =
    if ltb d (10 * second)
    then err interval_short
    else if ltb (24 * hour) d
    then err interval_long
    else ok d

-- A field is a list of bytes; `strings.TrimSpace` and `strconv.Atoi` are any functions.
module _ (trim_space : List ℕ → List ℕ) (atoi : List ℕ → Option ℤ) where
  abbrev pub seconds_field : List ℕ → Result ℕ
  seconds_field [] = ok 0
  seconds_field (c ∷ cs) = seconds_of (atoi (c ∷ cs))

  unfoldable pub parse_interval : List ℕ → List ℕ → Result ℕ
  parse_interval minutes_text seconds_text = do
    minutes ← minutes_of (atoi (trim_space minutes_text))
    seconds ← seconds_field (trim_space seconds_text)
    checked_span (minutes * minute + seconds * second)

-- A part of a duration's text: a number and its unit in nanoseconds.
abbrev pub Part : Type 0
Part = ℕ × ℕ

abbrev pub part_if : Bool → ℕ → ℕ → List Part
part_if b n unit = if b then (n, unit) ∷ [] else []

abbrev pub none_yet : List Part → Bool
none_yet [] = true
none_yet (p ∷ ps) = false

abbrev pub day : ℕ
day = 24 * hour

-- `d.Round(time.Minute)` of a duration that is not negative, at most the greatest duration.
abbrev pub round_minute : ℕ → ℕ
round_minute d =
    let r = (d + 30 * second) / minute * minute in if ltb r (2 ^ 63) then r else 2 ^ 63 - 1

-- The parts of `formatSpan`; a negative duration is zero.
unfoldable pub span_parts : ℕ → List Part
span_parts d =
    let r = round_minute d in
    let days = r / day in
    let hours = r % day / hour in
    let mins = r % hour / minute in
    let front = part_if (ltb 0 days) days day ++ part_if (ltb 0 hours) hours hour in
    front ++ part_if (ltb 0 mins || none_yet front) mins minute

unfoldable pub format_span : ℤ → List Part
unfolding span_parts
format_span (pos d) = span_parts d
format_span (negsuc n) = span_parts 0

-- `durationText`, with `none` for "unknown".
unfoldable pub duration_text : ℕ → Option (List Part)
duration_text d =
    let h = d / hour in
    let m = d % hour / minute in
    let s = d % minute / second in
    if d == 0
    then none
    else some
        (part_if (ltb 0 h) h hour ++ (part_if (ltb 0 m) m minute ++ part_if (ltb 0 s) s second))

-- `loggingTimeText`: the total, the recorded and the remaining span, each wrapped around to an int64.
unfoldable pub logging_time : DeviceInfo → Option (List Part × List Part × List Part)
unfolding span_parts format_span
logging_time info =
    let total = signed64 (info.capacity * info.interval) in
    let elapsed = signed64 (info.record_count * info.interval) in
    if not info.count_known || (info.interval == 0)
    then none
    else some (format_span total, format_span elapsed, format_span (wrap64 (total -ℤ elapsed)))

-- The headline state of `recordingState`.
pub data Headline : Type 0 where
  stopped_at : Time → Headline
  recording_since_time : Time → Headline
  holding_records not_started : Headline

unfoldable pub recording_state : DeviceInfo → Headline
recording_state info =
    if not (is_zero info.stopped_at)
    then stopped_at info.stopped_at
    else if info.recording
    then recording_since_time info.started_at
    else if info.count_known && ltb 0 info.record_count
    then holding_records
    else not_started

-- `recordingSince`
unfoldable pub recording_since : DeviceInfo → Time
recording_since info =
    if not (is_zero info.started_at) && ltb_ℤ (pos 2012) (civil info.started_at).year
    then info.started_at
    else info.configured_at
