-- ===== src/Web/View.antt =====
-- internal/web/web.go: what the blocks of the pages show of the records and of the state. The text
-- of a time is a parameter; the mean of `renderSummary` and the drawing of the charts are left out.
pub mod Readings
use go_elite_log.Base.{
  ℕ, zero, suc, ◌+◌, ◌*◌, ◌/◌, ◌%◌, Bool, true, false, not, ◌&&◌, ◌||◌, Option, none, some, List,
  [], ◌∷◌, ◌++◌, map, length, ltb, leb, ◌==◌, if◌then◌else◌, option_or,
}
use go_elite_log.Base.Int.{ℤ, pos, negsuc, ◌+ℤ◌, ◌-ℤ◌, ltb_ℤ}
use go_elite_log.Calendar.{Time, hour, is_zero}
use go_elite_log.Text.{Text, codes, itoa, itoa_ℕ}
use go_elite_log.Record.{Sample, RecordStatus, measurement, status_text, Tenths}
use go_elite_log.Record.Shown.{tenths_text}
use go_elite_log.Service.Csv.{if_measured}
use go_elite_log.Info.{StartMode, start_immediate, start_manual, start_timer}
use go_elite_log.Logger.Identity.{DeviceInfo}
use go_elite_log.Web.{recording_since}
use Prim.Native.String.{String}

abbrev pub is_measured : Sample → Bool
is_measured r = if_measured r.status true false

-- The loop of `renderLatestReading` over what stands before index `n`.
abbrev pub reading_if : Bool → Sample → Option Sample → Option Sample
reading_if true r older = some r
reading_if false r older = older

unfoldable pub get : List Sample → ℕ → Option Sample
get [] i = none
get (r ∷ rs) zero = some r
get (r ∷ rs) (suc i) = get rs i

unfoldable pub latest_below : List Sample → ℕ → Option Sample
unfolding get
latest_below recs zero = none
latest_below recs (suc i) =
    let older = latest_below recs i in
    option_or older (λ r. reading_if (is_measured r) r older) (get recs i)

-- The record that `renderLatestReading` shows, if it shows one.
unfoldable pub latest_of : List Sample → Option Sample
unfolding latest_below
latest_of recs = latest_below recs (length recs)

-- `<` on tenths, where a negative zero is below zero as for `math.Min` and `math.Max`.
abbrev pub below : Tenths → Tenths → Bool
below a b =
    if a.negative
    then (if b.negative then ltb b.magnitude a.magnitude else true)
    else (if b.negative then false else ltb a.magnitude b.magnitude)

abbrev pub least : Tenths → Tenths → Tenths
least a b = if below b a then b else a

abbrev pub greatest : Tenths → Tenths → Tenths
greatest a b = if below a b then b else a

-- `minT` and `maxT`, none while they are infinite, and `n`.
pub record Summary : Type 0 where
  pub count : ℕ
  pub lowest : Option Tenths
  pub highest : Option Tenths

abbrev pub no_summary : Summary
no_summary = record { count = 0; lowest = none; highest = none }

abbrev pub with_reading : Tenths → Summary → Summary
with_reading t s = record {
  count = s.count + 1;
  lowest = some (option_or t (λ m. least m t) s.lowest);
  highest = some (option_or t (λ m. greatest m t) s.highest);
}

-- The loop of `renderSummary`.
unfoldable pub summary_from : Summary → List Sample → Summary
summary_from s [] = s
summary_from s (r ∷ rs) = summary_from (if_measured r.status (with_reading r.temperature s) s) rs

unfoldable pub summary : List Sample → Summary
unfolding summary_from
summary recs = summary_from no_summary recs

-- The points of `chartSVG` and of `humidityChartSVG`.
unfoldable pub temperature_points : List Sample → List (Time × Tenths)
temperature_points [] = []
temperature_points (r ∷ rs) =
    if_measured r.status ((r.time, r.temperature) ∷ []) [] ++ temperature_points rs

unfoldable pub humidity_points : List Sample → List (Time × Tenths)
humidity_points [] = []
humidity_points (r ∷ rs) =
    if_measured r.status (if r.has_humidity then (r.time, r.humidity) ∷ [] else []) []
    ++ humidity_points rs

-- `timeFormatFor`
unfoldable pub time_format_for : Time → Time → String
time_format_for first last =
    if ltb_ℤ (last -ℤ first) (pos (36 * hour)) then "15:04" else "02 Jan 15:04"

unfoldable pub any_humidity : List Sample → Bool
any_humidity [] = false
any_humidity (r ∷ rs) = let rest = any_humidity rs in if r.has_humidity then true else rest

-- The cells of a row of `renderRecordTable`; the humidity is none where there is no column.
pub record Row : Type 0 where
  pub number : Text
  pub time : Text
  pub temperature : Text
  pub humidity : Option Text
  pub status : String
  pub events : List String

abbrev pub event_if : Bool → String → List String
event_if b name = if b then name ∷ [] else []

abbrev pub row_of : (Time → Text) → Bool → Sample → Row
row_of show_time wh r = record {
  number = itoa (r.index +ℤ pos 1);
  time = show_time r.time;
  temperature = if_measured r.status (tenths_text r.temperature) [];
  humidity = if wh then some (if r.has_humidity then tenths_text r.humidity else []) else none;
  status = status_text r.status;
  events = event_if r.mark "mark" ++ (event_if r.light "light" ++ event_if r.vibration "vibration");
}

-- `renderRecordTable`
unfoldable pub table_rows : (Time → Text) → List Sample → List Row
unfolding any_humidity
table_rows show_time recs = map (row_of show_time (any_humidity recs)) recs

-- `lastQuery`
unfoldable pub last_query : ℤ → Text
last_query (pos zero) = []
last_query (pos (suc n)) = codes "?last=" ++ itoa (pos (suc n))
last_query (negsuc n) = []

-- `countText`
unfoldable pub count_text : DeviceInfo → Text
count_text i =
    if i.count_known
    then itoa_ℕ i.record_count ++ (codes " of " ++ itoa_ℕ i.capacity)
    else codes "unknown"

-- `batteryText`
unfoldable pub battery_text : ℤ → Text
battery_text (pos n) = itoa_ℕ n ++ codes " / 15"
battery_text (negsuc n) = codes "unknown"

-- `extremes`, none for the dash.
unfoldable pub extremes : Tenths → Tenths → Option Text
unfolding tenths_text
extremes lo hi =
    if (lo.magnitude == 0) && (hi.magnitude == 0)
    then none
    else some (tenths_text lo ++ (codes " / " ++ tenths_text hi))

-- `yesNo` and `checked`
abbrev pub yes_no : Bool → String
yes_no b = if b then "yes" else "no"

abbrev pub checked : Bool → String
checked b = if b then "checked" else ""

-- The status of `renderRecordingControls`.
pub data ControlStatus : Type 0 where
  control_stopped : Time → ControlStatus
  control_recording : Time → ControlStatus
  control_armed control_idle : ControlStatus

abbrev pub is_immediate : StartMode → Bool
is_immediate m = (m == start_immediate)

unfoldable pub control_status : DeviceInfo → ControlStatus
unfolding recording_since
control_status i =
    if not (is_zero i.stopped_at)
    then control_stopped i.stopped_at
    else if i.count_known && ltb 0 i.record_count
    then control_recording (recording_since i)
    else if is_immediate i.start.mode
    then control_armed
    else control_idle
