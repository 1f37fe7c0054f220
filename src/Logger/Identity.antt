-- ===== src/Logger/Identity.antt =====
-- internal/elitech/logger.go: `prime`, the capacity and count, `readStatus` and `Info`.
use go_elite_log.Base.{
  ℕ, zero, suc, ◌+◌, ◌*◌, Bool, true, false, ◌&&◌, ◌||◌, Option, none, some, List, ◌++◌, length,
  slice, take, ◌==◌, ◌!=◌, if◌then◌else◌, option_or, low_bits, test_bit,
}
use go_elite_log.Base.Int.{ℤ, pos, negsuc}
use go_elite_log.Calendar.{Time, zero_time, is_zero, millisecond}
use go_elite_log.Frame.{at}
use go_elite_log.Info.{
  StartSettings, decode_start_byte, decode_date_time, or_zero, Counts, decode_capacity_count,
  decode_interval, Status, no_status, decode_status,
}
use go_elite_log.Logger.Transport.{
  Transport, World, Action, pure, gets, attempt, Outcome, got, lost, ◌>>=◌, ◌>>◌, set_protocol,
  sleep,
}
use go_elite_log.Logger.Exchange.{timeout_get, get_with, get, read_op5}
use Prim.Native.String.{String}

pub record Identity : Type 0 where
  pub model : ℕ
  pub serial : List ℕ
  pub protocol : ℕ

pub record DeviceInfo : Type 0 where
  pub identity : Identity
  pub capacity : ℕ
  pub record_count : ℕ
  pub count_known : Bool
  pub interval : ℕ
  pub start : StartSettings
  pub recording : Bool
  pub status : Status
  pub fahrenheit : Bool
  pub battery : ℤ
  pub configured_at : Time
  pub started_at : Time
  pub stopped_at : Time
  pub device_time : Time

-- `TemperatureUnit`
unfoldable pub temperature_unit : DeviceInfo → String
temperature_unit info = if info.fahrenheit then "°F" else "°C"

abbrev pub pause_capacity_retry : ℕ
pause_capacity_retry = 60 * millisecond

-- The loop of `trimASCII`: what is left of the first `end` bytes.
abbrev is_padding : ℕ → Bool
is_padding c = (c == 0) || ((c == b' ') || (c == 0xFF))

unfoldable pub trim_end : List ℕ → ℕ → ℕ
trim_end b zero = zero
trim_end b (suc e) = elim (is_padding (at b e)) [ true ↦ trim_end b e | false ↦ suc e ]

unfoldable pub trim_ascii : List ℕ → List ℕ
unfolding trim_end
trim_ascii b = take (trim_end b (length b)) b

-- `v, _ := decodeInterval(b)`
abbrev pub or_no_interval : Option ℕ → ℕ
or_no_interval none = 0
or_no_interval (some d) = d

-- `if b, err := call(); err == nil { … }`: the value, or what stands there without it.
abbrev pub value_or : {A B : Type 0} → B → (A → B) → Outcome A → B
value_or d f (got a) = f a
value_or d f (lost e) = d

abbrev no_start : StartSettings
no_start = record { mode = 0; button_stop = false; software_stop = false }

abbrev pub battery_of : List ℕ → ℤ
battery_of b = if at b 1 != 0xFF then pos (low_bits (at b 1) 4) else negsuc 0

abbrev pub fahrenheit_of : List ℕ → Bool
fahrenheit_of b = (at b 0 != 0xFF) && test_bit (at b 0) 3

abbrev pub date_time_of : List ℕ → Time
date_time_of b = or_zero (decode_date_time b)

module _ (T : Transport) where
  -- `primeWith`
  unfoldable pub prime_with : ℕ → Action (World T) Identity
  unfolding trim_ascii
  prime_with wait = do
    idb ← get_with T 0x00 14 wait
    pb ← get_with T 0x94 2 wait
    set_protocol (at pb 1)
    pure (record {
      model = at idb 0 * 256 + at idb 1;
      serial = trim_ascii (slice 2 14 idb);
      protocol = at pb 1;
    })

  unfoldable pub prime : Action (World T) Identity
  prime = prime_with timeout_get

  abbrev pub decode_counts : ℕ → Outcome (List ℕ) → Option Counts
  decode_counts protocol (got b) = decode_capacity_count b protocol
  decode_counts protocol (lost e) = none

  -- The tries that are left of `readCapacityCount`; a pause stands before each but the first.
  unfoldable pub count_tries : ℕ → Bool → Action (World T) (Option Counts)
  count_tries zero first = pure none
  count_tries (suc tries) first = do
    if first then pure tt else sleep T pause_capacity_retry
    b ← attempt (get T 0x42 10)
    p ← gets (λ s. s.protocol)
    option_or (count_tries tries false) (λ c. pure (some c)) (decode_counts p b)

  unfoldable pub read_capacity_count : Action (World T) (Option Counts)
  read_capacity_count = count_tries 3 true

  unfoldable pub status_blocks : Action (World T) Status
  status_blocks = do
    head ← read_op5 T 0x00 0x20
    tail ← read_op5 T 0x80 0x30
    more ← read_op5 T 0xB0 0x10
    pure (decode_status head (tail ++ more))

  -- `readStatus`: a failure of any of the three reads gives the zero status.
  unfoldable pub read_status : Action (World T) Status
  unfolding status_blocks
  read_status = do st ← attempt status_blocks; pure (value_or no_status (λ x. x) st)

  -- `Info`
  unfoldable pub info : Action (World T) DeviceInfo
  info = do
    id ← prime
    counts ← read_capacity_count
    iv ← attempt (get T 0x4C 2)
    start ← attempt (get T 0x20 1)
    unit ← attempt (get T 0x21 1)
    battery ← attempt (get T 0x26 2)
    configured ← attempt (get T 0x28 7)
    runtime ← attempt (get T 0x30 15)
    clock ← attempt (get T 0x88 7)
    st ← read_status
    pure (record {
      identity = id;
      capacity = option_or 0 (λ c. c.capacity) counts;
      record_count = option_or 0 (λ c. c.count) counts;
      count_known = option_or false (λ c. true) counts;
      interval = value_or 0 (λ b. or_no_interval (decode_interval b)) iv;
      start = value_or no_start (λ b. decode_start_byte (at b 0)) start;
      recording = st.recording;
      status = st;
      fahrenheit = value_or false fahrenheit_of unit;
      battery = value_or (negsuc 0) battery_of battery;
      configured_at = value_or zero_time date_time_of configured;
      started_at =
          if is_zero st.started_at
          then value_or zero_time (λ b. date_time_of (slice 0 7 b)) runtime
          else st.started_at;
      stopped_at = value_or zero_time (λ b. date_time_of (slice 8 15 b)) runtime;
      device_time = value_or zero_time date_time_of clock;
    })
