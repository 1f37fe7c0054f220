-- ===== src/Info/RoundTrip.antt =====
-- internal/elitech/info.go: encoding for the logger, and reading back.
use go_elite_log.Base.{
  ℕ, ◌+◌, ◌-◌, ◌*◌, ◌/◌, ◌%◌, ◌≤◌, ◌<◌, ◌≡◌, arith, Bool, some, List, [], ◌∷◌, if◌then◌else◌,
}
use native.Mathlib.Decide.{dec_le}
use go_elite_log.Calendar.{Time, date, civil, days_in, day_number, second}
use go_elite_log.Calendar.Inverse.{civil-date, civil-date_past, days_in_bounds}
use go_elite_log.Info.{
  decode_start_byte, encode_start_byte, decode_interval, encode_interval, decode_date_time,
  encode_date_time, start_immediate, start_manual,
}

-- Whatever the byte was before, the start byte that is written reads back as the start mode and
-- the two stop bits.
pub decode-encode_start_byte :
    (old : ℕ) (immediate button software : Bool)
    → decode_start_byte (encode_start_byte old immediate button software) ≡ record {
      mode = if immediate then start_immediate else start_manual;
      button_stop = button;
      software_stop = software;
    }
unfolding decode_start_byte encode_start_byte
decode-encode_start_byte old i b s = ground arith

-- For a byte, the start byte that is written keeps the upper three bits and is a byte again.
pub encode_start_byte_keeps :
    (old : ℕ) (immediate button software : Bool)
    → old < 256
    → (encode_start_byte old immediate button software / 32 ≡ old / 32)
      × (encode_start_byte old immediate button software < 256)
unfolding encode_start_byte
encode_start_byte_keeps old i b s h = ground arith

-- An interval of 1 to 65534 times ten seconds is read back from its two bytes.
pub decode-encode_interval :
    (u : ℕ)
    → 1 ≤ u
    → u < 65535
    → decode_interval (encode_interval (u * 10 * second)) ≡ some (u * 10 * second)
unfolding decode_interval encode_interval
decode-encode_interval u lo hi = ground arith

-- Seven bytes of a date and clock in range, whatever the day of the week says.
pub decode_date_time_bytes :
    (y m w d h mi s : ℕ)
    → y < 255
    → 1 ≤ m
    → m ≤ 12
    → 1 ≤ d
    → d ≤ days_in (2000 + y) m
    → h < 24
    → mi < 60
    → s < 60
    → decode_date_time (y ∷ m ∷ w ∷ d ∷ h ∷ mi ∷ s ∷ []) ≡ some (date (2000 + y) m d h mi s)
unfolding decode_date_time
decode_date_time_bytes y m w d h mi s y1 m0 m1 d0 d1 h1 mi1 s1 = ground (
  arith,
  days_in_bounds (2000 + y) m m0 m1,
  civil-date (2000 + y) m d h mi s (omega arith) m0 m1 d0 d1 h1 mi1 s1,
)

-- In a zone whose offset never changes, a calendar date from 2000 to 2254 with a time of day is
-- read back from its seven bytes.
pub decode-encode_date_time :
    (y m d h mi s : ℕ)
    → 2000 ≤ y
    → y < 2255
    → 1 ≤ m
    → m ≤ 12
    → 1 ≤ d
    → d ≤ days_in y m
    → h < 24
    → mi < 60
    → s < 60
    → decode_date_time (encode_date_time (date y m d h mi s)) ≡ some (date y m d h mi s)
unfolding encode_date_time
decode-encode_date_time y m d h mi s y0 y1 m0 m1 d0 d1 h1 mi1 s1 =
    let dm : d ≤ 31 = omega (arith, days_in_bounds y m m0 m1) in
    let ey : (y + 512000 - 2000) % 256 ≡ y - 2000 = omega arith in
    let em : m % 256 ≡ m = omega arith in
    let ed : d % 256 ≡ d = omega arith in
    let eh : h % 256 ≡ h = omega arith in
    let emi : mi % 256 ≡ mi = omega arith in
    let es : s % 256 ≡ s = omega arith in
    let back : 2000 + (y - 2000) ≡ y = omega arith in
    let d1' : d ≤ days_in (2000 + (y - 2000)) m = rw back d1 in
    rw (civil-date y m d h mi s (omega arith) m0 m1 d0 d1 h1 mi1 s1, ey, em, ed, eh, emi, es)
      (rw back at (
        decode_date_time_bytes (y - 2000) m ((day_number y m d + 1) % 7 % 256) d h mi s
          (omega arith) m0 m1 d0 d1' h1 mi1 s1))

bytes_eq :
    (y m w d h mi s : ℕ)
    → y < 256
    → m < 256
    → w < 256
    → d < 256
    → h < 256
    → mi < 256
    → s < 256
    → ◌≡◌ {A = List ℕ}
        ((2000 + y + 256 * 2000 - 2000) % 256
          ∷ m % 256
          ∷ w % 256
          ∷ d % 256
          ∷ h % 256
          ∷ mi % 256
          ∷ s % 256
          ∷ [])
        (y ∷ m ∷ w ∷ d ∷ h ∷ mi ∷ s ∷ [])
bytes_eq y m w d h mi s a b c e f g i = ground arith

-- What a decoded date has passed.
decode_date_time_inv :
    (y m w d h mi s : ℕ) {t : Time}
    → decode_date_time (y ∷ m ∷ w ∷ d ∷ h ∷ mi ∷ s ∷ []) ≡ some t
    → (t ≡ date (2000 + y) m d h mi s)
      × (1 ≤ m)
      × (m ≤ 12)
      × (1 ≤ d)
      × (d ≤ 31)
      × (h < 24)
      × (mi < 60)
      × (s < 60)
      × ((civil (date (2000 + y) m d h mi s)).day ≡ d)
unfolding decode_date_time
decode_date_time_inv y m w d h mi s e = ground arith

-- In a zone whose offset never changes, seven bytes with a year byte that decode to a time are
-- written back as the same bytes, but for the day of the week, which becomes the one of the date.
pub encode-decode_date_time :
    (y m w d h mi s : ℕ) {t : Time}
    → y < 256
    → decode_date_time (y ∷ m ∷ w ∷ d ∷ h ∷ mi ∷ s ∷ []) ≡ some t
    → encode_date_time t ≡ y ∷ m ∷ (day_number (2000 + y) m d + 1) % 7 ∷ d ∷ h ∷ mi ∷ s ∷ []
unfolding encode_date_time
encode-decode_date_time y m w d h mi s hy e =
    let (et, m0, m1, d0, d31, h1, mi1, s1, eday) = decode_date_time_inv y m w d h mi s e in
    let fits : d ≤ days_in (2000 + y) m = elim (dec_le d (days_in (2000 + y) m)) [
      | yes p ↦ p
      | no p ↦ absurd (
          omega (
            arith,
            eday,
            days_in_bounds (2000 + y) m m0 m1,
            civil-date_past (2000 + y) m d h mi s (omega arith) m0 m1 (omega arith) d31 h1 mi1 s1,
          ))
    ] in
    rw (et, civil-date (2000 + y) m d h mi s (omega arith) m0 m1 d0 fits h1 mi1 s1)
      (bytes_eq y m ((day_number (2000 + y) m d + 1) % 7) d h mi s hy (omega arith) (omega arith)
        (omega arith) (omega arith) (omega arith) (omega arith))
