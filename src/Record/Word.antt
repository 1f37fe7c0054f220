-- ===== src/Record/Word.antt =====
-- The record as PROTOCOL.md 6.2 lays it out: the 8 bytes form a little-endian 64-bit word whose
-- bit fields are the flags, the timestamp and the temperature.
use go_elite_log.Base.{
  ℕ, ◌+◌, ◌-◌, ◌*◌, ◌/◌, ◌%◌, ◌^◌, ◌<◌, ◌≡◌, ◌≤◌, Bool, true, false, ◌&&◌, ◌||◌, not, List, [], ◌∷◌,
  ltb, leb, ◌==◌, arith, if◌then◌else◌, test_bit, low_bits, shr, refl, ◌∙◌,
}
use go_elite_log.Base.Result.{
  Result, guard, ◌>>◌, ok, err, no_record, invalid_timestamp, invalid_date,
}
use go_elite_log.Base.Int.{pos}
use go_elite_log.Calendar.{date, days_in, civil}
use go_elite_log.Calendar.Inverse.{civil-date, civil-date_past, days_in_bounds}
use go_elite_log.Record.{
  Sample, Tenths, decode_record, no_tenths, temperature_if, status_of, flags_of, RecordStatus,
  in_range, same_day, all_ff, measurement, pause, stop, error,
}
use native.Mathlib.Decide.{dec_le}
use go_elite_log.Frame.{at}

-- The bits `lo` to `lo + k - 1` of a word.
abbrev field : ℕ → ℕ → ℕ → ℕ
field q lo k = q / 2 ^ lo % 2 ^ k

abbrev pub bytes_of : ℕ → List ℕ
bytes_of q =
    field q 0 8
    ∷ field q 8 8
    ∷ field q 16 8
    ∷ field q 24 8
    ∷ field q 32 8
    ∷ field q 40 8
    ∷ field q 48 8
    ∷ field q 56 8
    ∷ []

-- A flag, where the top two are read as flags only before protocol 0x35.
abbrev flag : ℕ → ℕ → ℕ → Bool
flag q protocol k = (field q k 1 == 1) && (ltb k 6 || ltb protocol 0x35)

pub word_status : ℕ → ℕ → RecordStatus
word_status q protocol =
    if flag q protocol 1
    then pause
    else if flag q protocol 2
    then stop
    else if flag q protocol 7
    then error
    else measurement

fields :
    (q : ℕ)
    → q < 2 ^ 64
    → let b = bytes_of q in
      (low_bits (shr (at b 1) 2) 6 ≡ field q 10 6)
      × (low_bits (at b 2) 7 ≡ field q 16 7)
      × (low_bits (at b 3) 3 * 2 + shr (at b 2) 7 ≡ field q 23 4)
      × (low_bits (shr (at b 3) 3) 5 ≡ field q 27 5)
      × (low_bits (at b 4) 5 ≡ field q 32 5)
      × (low_bits (at b 6) 6 ≡ field q 48 6)
      × (at b 5 * 8 + shr (at b 4) 5 ≡ field q 37 11)
      × (low_bits (shr (at b 1) 1) 1 ≡ field q 9 1)
fields q h = omega arith

-- Six readings of a word: month, day, hour, minute, second, and the magnitude in tenths.
abbrev month_field : ℕ → ℕ
month_field q = field q 23 4

abbrev magnitude_field : ℕ → ℕ → ℕ
magnitude_field q protocol =
    if leb 0x23 protocol then field q 37 11 + field q 9 1 * 2 ^ 11 else field q 37 11

-- The fields of a timestamp that a calendar and a clock have.
abbrev fields_fit : ℕ → ℕ → ℕ → ℕ → ℕ → Bool
fields_fit mo d h mi s =
    (leb 1 mo && leb mo 12) && ((leb 1 d && leb d 31) && (ltb h 24 && (ltb mi 60 && ltb s 60)))

-- A word with one of the flags pause, stop and error carries no temperature.
abbrev word_temperature : ℕ → ℕ → Tenths
word_temperature q protocol =
    if flag q protocol 1 || (flag q protocol 2 || flag q protocol 7)
    then no_tenths
    else record { negative = flag q protocol 3; magnitude = magnitude_field q protocol }

-- What a word means, by the document.
pub decode_word : ℕ → ℕ → Result Sample
decode_word q protocol =
    let y = 2000 + field q 16 7 in
    let mo = month_field q in
    let d = field q 27 5 in
    let h = field q 32 5 in
    let mi = field q 48 6 in
    let s = field q 10 6 in
    if q == 2 ^ 64 - 1
    then err no_record
    else if not (fields_fit mo d h mi s)
    then err invalid_timestamp
    else if ltb (days_in y mo) d
    then err invalid_date
    else ok (record {
      index = pos 0;
      time = date y mo d h mi s;
      temperature = word_temperature q protocol;
      humidity = no_tenths;
      has_humidity = false;
      status = word_status q protocol;
      mark = flag q protocol 0;
      light = flag q protocol 4;
      vibration = flag q protocol 5;
    })

-- The test of the source on the calendar date is the test on the length of the month.
pub same_day-days_in :
    (y mo d h mi s : ℕ)
    → 1 ≤ y
    → fields_fit mo d h mi s ≡ true
    → same_day (civil (date y mo d h mi s)) mo d ≡ leb d (days_in y mo)
same_day-days_in y mo d h mi s hy r = elim (dec_le d (days_in y mo)) [
  | yes fits ↦ ground (arith, civil-date y mo d h mi s hy)
  | no past ↦ ground (arith, civil-date_past y mo d h mi s hy, days_in_bounds y mo)
]

in_range-fits : (mo d h mi s : ℕ) → in_range mo d h mi s ≡ fields_fit mo d h mi s
in_range-fits mo d h mi s = ground arith

temperature_if-word_status :
    (q protocol : ℕ)
    → temperature_if
        (word_status q protocol)
        (record { negative = flag q protocol 3; magnitude = magnitude_field q protocol })
      ≡ word_temperature q protocol
unfolding word_status
temperature_if-word_status q protocol =
    chosen (flag q protocol 1) (flag q protocol 2) (flag q protocol 7) _
  where
    chosen :
        (p s e : Bool) (t : Tenths)
        → temperature_if
            (if p then pause else if s then stop else if e then error else measurement)
            t
          ≡ (if p || (s || e) then no_tenths else t)
    chosen true s e t = refl
    chosen false true e t = refl
    chosen false false true t = refl
    chosen false false false t = refl

all_ff-bytes_of : (q : ℕ) → q < 2 ^ 64 → all_ff (bytes_of q) ≡ (q == 2 ^ 64 - 1)
unfolding all_ff
all_ff-bytes_of q h = ground arith

flag-flags_of :
    (q protocol : ℕ)
    → q < 2 ^ 64
    → let f = flags_of (field q 0 8) protocol in
      (test_bit f 0 ≡ flag q protocol 0)
      × (test_bit f 3 ≡ flag q protocol 3)
      × (test_bit f 4 ≡ flag q protocol 4)
      × (test_bit f 5 ≡ flag q protocol 5)
      × (status_of f protocol ≡ word_status q protocol)
unfolding word_status
flag-flags_of q protocol h = ground arith

-- The chain of guards as a chain of tests; the third guard is only known where the second holds.
guards_ladder :
    (a b c past : Bool) (x : Result Sample)
    → (b ≡ true → c ≡ not past)
    → (guard (not a) no_record >> (guard b invalid_timestamp >> (guard c invalid_date >> x))) ≡ (
        if a
        then err no_record
        else if not b
        then err invalid_timestamp
        else if past
        then err invalid_date
        else x)
guards_ladder true b c past x h = refl
guards_ladder false false c past x h = refl
guards_ladder false true c past x h = rw (h refl) (unless past)
  where
    unless :
        (past : Bool)
        → (guard (not past) invalid_date >> x) ≡ (if past then err invalid_date else x)
    unless true = refl
    unless false = refl

leb-not : (a b : ℕ) → leb a b ≡ not (ltb b a)
leb-not a b = ground arith

-- In a zone whose offset never changes, decoding the eight bytes of any 64-bit word gives what
-- the layout of PROTOCOL.md says of the word's bit fields: the same error, or the same record.
pub decode_record-bytes_of :
    (q protocol : ℕ) → q < 2 ^ 64 → decode_record (bytes_of q) protocol ≡ decode_word q protocol
unfolding decode_record decode_word
decode_record-bytes_of q protocol h =
    let (fs, fy, fmo, fd, fh, fmi, fraw, fext) = fields q h in
    let (g0, g3, g4, g5, gs) = flag-flags_of q protocol h in
    let range =
      in_range-fits (month_field q) (field q 27 5) (field q 32 5) (field q 48 6) (field q 10 6) in
    let shown = temperature_if-word_status q protocol in
    rw (fs, fy, fmo, fd, fh, fmi, fraw, fext, g0, g3, g4, g5, gs, range, shown, all_ff-bytes_of q h)
      (guards_ladder (q == 2 ^ 64 - 1)
        (fields_fit (month_field q) (field q 27 5) (field q 32 5) (field q 48 6) (field q 10 6)) _
        (ltb (days_in (2000 + field q 16 7) (month_field q)) (field q 27 5)) _
        (λ r.
          same_day-days_in (2000 + field q 16 7) (month_field q) (field q 27 5) (field q 32 5)
            (field q 48 6) (field q 10 6) (omega arith) r
          ∙ leb-not _ _))
