-- ===== src/Record.antt =====
-- internal/elitech/record.go: the two record formats. A float64 that the source makes by dividing
-- an integer by ten is kept as its sign and its magnitude in tenths (negative zero included).
pub mod Shown
pub mod SignBit
pub mod Word
use go_elite_log.Base.{
  ℕ, ◌+◌, ◌*◌, ◌/◌, ◌%◌, Bool, true, false, ◌&&◌, ◌||◌, not, List, [], ◌∷◌, ltb, leb, ◌==◌, ◌!=◌,
  if◌then◌else◌, Option, none, some, low_bits, shr, test_bit, length, slice,
}
use go_elite_log.Base.Int.{ℤ, pos}
use go_elite_log.Base.Result.{
  Result, ok, err, guard, ◌>>◌, ◌>>=◌, no_record, no_temperature, invalid_timestamp, invalid_date,
  unsupported_width,
}
use go_elite_log.Calendar.{Time, date, civil, Civil, zero_time}
use go_elite_log.Frame.{at}
use Prim.Native.String.{String}

abbrev pub record_size : ℕ
record_size = 8

abbrev pub records_per_packet : ℕ
records_per_packet = 6

pub data RecordStatus : Type 0 where
  measurement pause stop error : RecordStatus

unfoldable pub status_text : RecordStatus → String
status_text measurement = "measurement"
status_text pause = "pause"
status_text stop = "stop"
status_text error = "error"

pub record Tenths : Type 0 where
  pub negative : Bool
  pub magnitude : ℕ

abbrev pub no_tenths : Tenths
no_tenths = record { negative = false; magnitude = 0 }

-- `type Record struct`
pub record Sample : Type 0 where
  pub index : ℤ
  pub time : Time
  pub temperature : Tenths
  pub humidity : Tenths
  pub has_humidity : Bool
  pub status : RecordStatus
  pub mark : Bool
  pub light : Bool
  pub vibration : Bool

abbrev pub no_sample : Sample
no_sample = record {
  index = pos 0;
  time = zero_time;
  temperature = no_tenths;
  humidity = no_tenths;
  has_humidity = false;
  status = measurement;
  mark = false;
  light = false;
  vibration = false;
}

-- Every byte of the array is 0xFF.
unfoldable pub all_ff : List ℕ → Bool
all_ff [] = true
all_ff (x ∷ xs) = (x == 0xFF) && all_ff xs

-- The flags that are interpreted: from protocol 0x35 on, the top two bits are a format marker.
abbrev pub flags_of : ℕ → ℕ → ℕ
flags_of b0 protocol = if leb 0x35 protocol then low_bits b0 6 else b0

abbrev pub raw_of : List ℕ → ℕ → ℕ
raw_of b protocol =
    let raw = at b 5 * 8 + shr (at b 4) 5 in
    if leb 0x23 protocol then raw + low_bits (shr (at b 1) 1) 1 * 2048 else raw

-- The `switch` on the flags.
abbrev pub status_of : ℕ → ℕ → RecordStatus
status_of flags protocol =
    if test_bit flags 1
    then pause
    else if test_bit flags 2
    then stop
    else if test_bit flags 7 && ltb protocol 0x35
    then error
    else measurement

abbrev pub temperature_if : RecordStatus → Tenths → Tenths
temperature_if measurement t = t
temperature_if pause t = no_tenths
temperature_if stop t = no_tenths
temperature_if error t = no_tenths

-- The range test on the fields of a timestamp.
abbrev pub in_range : ℕ → ℕ → ℕ → ℕ → ℕ → Bool
in_range mo d h mi s =
    not
      (ltb mo 1 || (ltb 12 mo || (ltb d 1 || (ltb 31 d || (ltb 23 h || (ltb 59 mi || ltb 59 s))))))

-- `ts.Day() != day || ts.Month() != month`, negated.
abbrev pub same_day : Civil → ℕ → ℕ → Bool
same_day c mo d = (c.day == d) && (c.month == mo)

unfoldable pub decode_record : List ℕ → ℕ → Result Sample
unfolding all_ff
decode_record b protocol =
    let flags = flags_of (at b 0) protocol in
    let s = low_bits (shr (at b 1) 2) 6 in
    let y = 2000 + low_bits (at b 2) 7 in
    let mo = low_bits (at b 3) 3 * 2 + shr (at b 2) 7 in
    let d = low_bits (shr (at b 3) 3) 5 in
    let h = low_bits (at b 4) 5 in
    let mi = low_bits (at b 6) 6 in
    let ts = date y mo d h mi s in
    do
      guard (not (all_ff b)) no_record
      guard (in_range mo d h mi s) invalid_timestamp
      guard (same_day (civil ts) mo d) invalid_date
      ok (record {
        index = pos 0;
        time = ts;
        temperature =
            temperature_if (status_of flags protocol)
              (record { negative = test_bit flags 3; magnitude = raw_of b protocol });
        humidity = no_tenths;
        has_humidity = false;
        status = status_of flags protocol;
        mark = test_bit flags 0;
        light = test_bit flags 4;
        vibration = test_bit flags 5;
      })

-- `decodeRecordTenths`: bit 12 negative, the low 12 bits the magnitude, 0xFFFF absent.
unfoldable pub decode_record_tenths : ℕ → ℕ → Option Tenths
decode_record_tenths hi lo =
    let v = hi * 256 + lo in
    if v == 0xFFFF
    then none
    else some (record { negative = test_bit v 12; magnitude = low_bits v 12 })

-- `decodeTenths`: bit 15 negative, the low 15 bits the magnitude, 0xFFFF absent.
unfoldable pub decode_tenths : ℕ → ℕ → Option Tenths
decode_tenths hi lo =
    let v = hi * 256 + lo in
    if v == 0xFFFF
    then none
    else some (record { negative = test_bit v 15; magnitude = low_bits v 15 })

abbrev pub with_humidity : Sample → Option Tenths → Sample
with_humidity r none = r
with_humidity r (some h) = record r { humidity = h; has_humidity = true }

abbrev pub with_temperature : List ℕ → Option Tenths → Result Sample
with_temperature b none = err no_temperature
with_temperature b (some t) =
    ok (
      with_humidity (record no_sample { temperature = t }) (decode_record_tenths (at b 2) (at b 3)))

unfoldable pub decode_record_th : List ℕ → Result Sample
unfolding all_ff decode_record_tenths
decode_record_th b = do
  guard (not (all_ff b)) no_record
  with_temperature b (decode_record_tenths (at b 0) (at b 1))

-- internal/elitech/logger.go, `decodeRecordAt`.
unfoldable pub decode_record_at : List ℕ → ℕ → Result Sample
unfolding decode_record decode_record_th
decode_record_at b protocol =
    if length b == 4
    then decode_record_th b
    else if length b == record_size
    then decode_record b protocol
    else err unsupported_width
