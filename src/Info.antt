-- ===== src/Info.antt =====
-- internal/elitech/info.go: the blocks of the parameter space and of the status space.
pub mod RoundTrip
pub mod Capacity
pub mod Emptied
use go_elite_log.Base.{
  ℕ, ◌+◌, ◌-◌, ◌*◌, ◌/◌, ◌%◌, ◌^◌, Bool, true, false, ◌&&◌, ◌||◌, not, Option, none, some, List, [],
  ◌∷◌, ltb, leb, ◌==◌, ◌!=◌, if◌then◌else◌, low_bits, test_bit, bit, length, take, slice,
}
use go_elite_log.Base.Int.{ℤ, pos, negsuc}
use go_elite_log.Calendar.{Time, Civil, date, civil, zero_time, second}
use go_elite_log.Frame.{at}
use go_elite_log.Record.{Tenths, no_tenths, decode_tenths, all_ff}
use Prim.Native.String.{String}

-- `type StartMode int`: what the three low bits of the start byte may hold, 0 to 7.
abbrev pub StartMode : Type 0
StartMode = ℕ

abbrev pub start_immediate : StartMode
start_immediate = 0

abbrev pub start_manual : StartMode
start_manual = 1

abbrev pub start_timer : StartMode
start_timer = 2

unfoldable pub mode_text : StartMode → String
mode_text m =
    if m == start_immediate
    then "immediate"
    else if m == start_manual
    then "manual (button)"
    else if m == start_timer
    then "timer"
    else "unknown"

pub record StartSettings : Type 0 where
  pub mode : StartMode
  pub button_stop : Bool
  pub software_stop : Bool

unfoldable pub decode_start_byte : ℕ → StartSettings
decode_start_byte b = record {
  mode = low_bits b 3;
  button_stop = test_bit b 3;
  software_stop = test_bit b 4;
}

-- `old & 0xE0` keeps the upper three bits; the bits that are or-ed in are clear until then.
unfoldable pub encode_start_byte : ℕ → Bool → Bool → Bool → ℕ
encode_start_byte old immediate button_stop software_stop =
    old / 32 * 32
    + (if immediate then start_immediate else start_manual)
    + (if button_stop then 0x08 else 0)
    + (if software_stop then 0x10 else 0)

-- Every byte is zero; with `all_ff`, the loop of `decodeDateTime`.
unfoldable pub all_zero : List ℕ → Bool
all_zero [] = true
all_zero (x ∷ xs) = (x == 0) && all_zero xs

abbrev blank_field : List ℕ → Bool
blank_field b =
    (at b 0 == 0xFF)
    || ((at b 1 == 0xFF)
        || ((at b 3 == 0xFF) || ((at b 4 == 0xFF) || ((at b 5 == 0xFF) || (at b 6 == 0xFF)))))

abbrev out_of_range : List ℕ → Bool
out_of_range b =
    ltb (at b 1) 1
    || (ltb 12 (at b 1)
        || (ltb (at b 3) 1
            || (ltb 31 (at b 3) || (ltb 23 (at b 4) || (ltb 59 (at b 5) || ltb 59 (at b 6))))))

-- `none` is the zero time with `false`. `time.Local` is a zone whose offset never changes: where a
-- change of the clock skips an hour, Go gives another time for the clock readings in it.
unfoldable pub decode_date_time : List ℕ → Option Time
unfolding all_zero all_ff
decode_date_time b =
    let t = date (2000 + at b 0) (at b 1) (at b 3) (at b 4) (at b 5) (at b 6) in
    if ltb (length b) 7
    then none
    else if all_zero (take 7 b) || all_ff (take 7 b)
    then none
    else if blank_field b
    then none
    else if out_of_range b
    then none
    else if (civil t).day != at b 3
    then none
    else some t

-- The value of `t, _ := decodeDateTime(b)`.
abbrev pub or_zero : Option Time → Time
or_zero none = zero_time
or_zero (some t) = t

-- `byte(y - 2000)`.
abbrev year_byte : ℤ → ℕ
year_byte (pos y) = (y + 256 * 2000 - 2000) % 256
year_byte (negsuc n) = (256 * (n + 2001) - (n + 2001)) % 256

-- The clock is read in the same zone.
unfoldable pub encode_date_time : Time → List ℕ
encode_date_time t =
    let c = civil t in
    year_byte c.year
    ∷ c.month % 256
    ∷ c.weekday % 256
    ∷ c.day % 256
    ∷ c.hours % 256
    ∷ c.minutes % 256
    ∷ c.seconds % 256
    ∷ []

-- `binary.BigEndian`
abbrev pub be16 : List ℕ → ℕ
be16 b = at b 0 * 256 + at b 1

abbrev pub be32 : List ℕ → ℕ
be32 b = at b 0 * 16777216 + at b 1 * 65536 + at b 2 * 256 + at b 3

-- `isFF`: not empty, and every byte 0xFF.
unfoldable pub is_ff : List ℕ → Bool
unfolding all_ff
is_ff b = all_ff b && ltb 0 (length b)

pub record Counts : Type 0 where
  pub capacity : ℕ
  pub count : ℕ

-- The two halves of `decodeCapacityCount`, each `none` where it returns at once.
unfoldable pub capacity_of : List ℕ → Option ℕ
unfolding is_ff
capacity_of b =
    if is_ff (slice 0 4 b)
    then none
    else if is_ff (slice 0 2 b) && not (is_ff (slice 2 4 b))
    then some (be16 (slice 2 4 b))
    else some (be32 (slice 0 4 b))

unfoldable pub count_of : List ℕ → ℕ → Option ℕ
unfolding is_ff
count_of b protocol =
    if leb 0x24 protocol
    then if is_ff (slice 4 8 b) then none else some (be32 (slice 4 8 b))
    else if is_ff (slice 6 8 b)
    then none
    else some (be16 (slice 6 8 b))

abbrev pub checked_counts : Option ℕ → Option ℕ → Option Counts
checked_counts none count = none
checked_counts (some capacity) none = none
checked_counts (some capacity) (some count) =
    if ltb capacity count then none else some (record { capacity = capacity; count = count })

unfoldable pub decode_capacity_count : List ℕ → ℕ → Option Counts
unfolding capacity_of count_of
decode_capacity_count b protocol =
    if ltb (length b) 10 then none else checked_counts (capacity_of b) (count_of b protocol)

-- A duration in nanoseconds, from a number of ten seconds; `none` is zero with `false`.
unfoldable pub decode_interval : List ℕ → Option ℕ
unfolding is_ff
decode_interval b =
    let v = be16 (take 2 b) in
    if ltb (length b) 2 || is_ff (take 2 b)
    then none
    else if v == 0
    then none
    else some (v * 10 * second)

-- `uint16(d / (10 * time.Second))`, in big-endian order.
unfoldable pub encode_interval : ℕ → List ℕ
encode_interval d = let v = d / (10 * second) % 65536 in v / 256 ∷ v % 256 ∷ []

pub record Status : Type 0 where
  pub recording : Bool
  pub started_at : Time
  pub record_count : ℕ
  pub max_temperature : Tenths
  pub min_temperature : Tenths
  pub max_humidity : Tenths
  pub min_humidity : Tenths

abbrev pub no_status : Status
no_status = record {
  recording = false;
  started_at = zero_time;
  record_count = 0;
  max_temperature = no_tenths;
  min_temperature = no_tenths;
  max_humidity = no_tenths;
  min_humidity = no_tenths;
}

abbrev pub or_none : Option Tenths → Tenths
or_none none = no_tenths
or_none (some t) = t

abbrev tenths_at : List ℕ → ℕ → Tenths
tenths_at b i = or_none (decode_tenths (at b i) (at b (i + 1)))

abbrev with_head : List ℕ → Status → Status
with_head h st =
    if leb 0x0F (length h)
    then record st {
      recording = at h 0 == 1;
      started_at = or_zero (decode_date_time (slice 8 15 h));
    }
    else st

abbrev with_tail : List ℕ → Status → Status
with_tail b st =
    if leb 0x40 (length b)
    then record st {
      record_count = at b 0x0A + at b 0x0B * 256;
      max_temperature = tenths_at b 0x10;
      min_temperature = tenths_at b 0x18;
      max_humidity = tenths_at b 0x30;
      min_humidity = tenths_at b 0x38;
    }
    else st

unfoldable pub decode_status : List ℕ → List ℕ → Status
unfolding decode_date_time decode_tenths
decode_status h b = with_tail b (with_head h no_status)
