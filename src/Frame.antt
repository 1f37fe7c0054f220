-- ===== src/Frame.antt =====
-- internal/elitech/frame.go: the 64-byte report. A byte slice is a list of numbers below 256.
pub mod Corruption
pub mod RoundTrip
use go_elite_log.Base.{
  ℕ, zero, suc, ◌+◌, ◌-◌, ◌*◌, ◌/◌, ◌%◌, ◌≤◌, ◌<◌, Bool, true, false, ◌&&◌, ◌||◌, List, [], ◌∷◌,
  ◌++◌, ltb, leb, ◌==◌, ◌!=◌, if◌then◌else◌, length, get_or, take, replicate, slice, All, IsByte,
}
use go_elite_log.Base.Result.{Result, ok, err, panicked, bad_frame}

abbrev pub report_size : ℕ
report_size = 64

abbrev pub max_data : ℕ
max_data = 52

-- `type op uint16`
abbrev pub op_get_record : ℕ
op_get_record = 0x0001

abbrev pub op_get_parameter : ℕ
op_get_parameter = 0x0003

abbrev pub op_set_parameter : ℕ
op_set_parameter = 0x0004

abbrev pub op_read05 : ℕ
op_read05 = 0x0005

abbrev pub op_format : ℕ
op_format = 0x02C0

abbrev pub op_stop : ℕ
op_stop = 0x03C0

pub record Frame : Type 0 where
  pub op : ℕ
  pub offset : ℕ
  pub n : ℕ
  pub payload : List ℕ

-- The loop of `checksum`, which adds in a byte.
unfoldable pub checksum_from : ℕ → List ℕ → ℕ
checksum_from sum [] = sum
checksum_from sum (x ∷ xs) = checksum_from ((sum + x) % 256) xs

unfoldable pub checksum : List ℕ → ℕ
unfolding checksum_from
checksum b = checksum_from 0 b

-- The bytes before the checksum: the eleven of the header, then the payload.
abbrev pub frame_prefix : ℕ → ℕ → ℕ → List ℕ → List ℕ
frame_prefix o offset n payload =
    0x33
    ∷ 0xCC
    ∷ 0x00
    ∷ (11 + length payload + 1) % 256
    ∷ o % 256
    ∷ o / 256 % 256
    ∷ 0
    ∷ offset / 256 % 256
    ∷ offset % 256
    ∷ offset / 65536 % 256
    ∷ n
    ∷ payload

-- What stands behind the checksum are the zeros of `make([]byte, reportSize)`.
unfoldable pub encode_frame : ℕ → ℕ → ℕ → List ℕ → Result (List ℕ)
encode_frame o offset n payload =
    let length' = 11 + length payload + 1 in
    let front = frame_prefix o offset n payload in
    if ltb max_data (length payload)
    then panicked
    else ok (front ++ (checksum front ∷ replicate (report_size - length') 0))

-- `data[i]`, at an index that the tests before it keep in range.
abbrev pub at : List ℕ → ℕ → ℕ
at buf i = get_or buf i 0

abbrev bad_header : List ℕ → Bool
bad_header buf = ltb (length buf) 12 || (at buf 0 != 0x33 || (at buf 1 != 0xCC || at buf 2 != 0x00))

unfoldable pub decode_frame : List ℕ → Result Frame
decode_frame buf =
    let length' = at buf 3 in
    if bad_header buf
    then err bad_frame
    else if ltb length' 12 || ltb (length buf) length'
    then err bad_frame
    else if at buf (length' - 1) != checksum (take (length' - 1) buf)
    then err bad_frame
    else ok (record {
      op = at buf 4 + at buf 5 * 256;
      offset = at buf 9 * 65536 + at buf 7 * 256 + at buf 8;
      n = at buf 10;
      payload = slice 11 (length' - 1) buf;
    })

unfoldable pub is_record_ack : Frame → Bool
is_record_ack f = f.op == op_get_record && (f.n == 0 && length f.payload == 0)

-- `head`, the part of a report that an error message shows.
unfoldable pub head : List ℕ → List ℕ
head b = if ltb 12 (length b) then take 12 b else b
