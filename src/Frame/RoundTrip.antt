-- ===== src/Frame/RoundTrip.antt =====
-- internal/elitech/frame.go: encoding a report, and reading it back.
use go_elite_log.Base.{
  ℕ, ◌+◌, ◌-◌, ◌%◌, ◌^◌, ◌≤◌, ◌<◌, ◌≡◌, arith, List, ◌∷◌, ◌++◌, length, get_or, take, replicate,
  length-append, length-replicate, take-append_length, get_or-append_length,
}
use go_elite_log.Base.Result.{ok, panicked}
use go_elite_log.Frame.{checksum, frame_prefix, encode_frame, decode_frame}

pub encode_frame-eq :
    (o offset n : ℕ) (d : List ℕ)
    → length d ≤ 52
    → encode_frame o offset n d
      ≡ ok (
          frame_prefix o offset n d
          ++ (checksum (frame_prefix o offset n d) ∷ replicate (64 - (11 + length d + 1)) 0))
unfolding encode_frame
encode_frame-eq o offset n d h = ground arith

-- A report that is encoded has 64 bytes.
pub length-encode_frame :
    (o offset n : ℕ) (d buf : List ℕ) → encode_frame o offset n d ≡ ok buf → length buf ≡ 64
unfolding encode_frame
length-encode_frame o offset n d buf h = ground (
  arith,
  length-append d (checksum (frame_prefix o offset n d) ∷ replicate (64 - (11 + length d + 1)) 0),
  length-replicate {A = ℕ} (64 - (11 + length d + 1)) 0,
)

pub encode_frame_panics :
    (o offset n : ℕ) (d : List ℕ) → 52 < length d → encode_frame o offset n d ≡ panicked
unfolding encode_frame
encode_frame_panics o offset n d h = ground arith

-- Decoding what was encoded gives back the operation, the offset, N and the payload.
abbrev pub report : ℕ → ℕ → ℕ → List ℕ → List ℕ
report o offset n d =
    frame_prefix o offset n d
    ++ (checksum (frame_prefix o offset n d) ∷ replicate (64 - (11 + length d + 1)) 0)

module _ (o offset n : ℕ) (d : List ℕ) (h : length d ≤ 52) where
  length_byte : (11 + length d + 1) % 256 ≡ length (frame_prefix o offset n d) + 1
  length_byte = omega arith

  body : take ((11 + length d + 1) % 256 - 1) (report o offset n d) ≡ frame_prefix o offset n d
  body =
      let e : (11 + length d + 1) % 256 - 1 ≡ length (frame_prefix o offset n d) = omega arith in
      rw e (take-append_length (frame_prefix o offset n d) _)

  last :
      get_or (report o offset n d) ((11 + length d + 1) % 256 - 1) 0
      ≡ checksum (frame_prefix o offset n d)
  last =
      let e : (11 + length d + 1) % 256 - 1 ≡ length (frame_prefix o offset n d) = omega arith in
      rw e (get_or-append_length (frame_prefix o offset n d) _ _ 0)

  rest :
      take
        ((11 + length d + 1) % 256 - 1 - 11)
        (d ++ (checksum (frame_prefix o offset n d) ∷ replicate (64 - (11 + length d + 1)) 0))
      ≡ d
  rest =
      let e : (11 + length d + 1) % 256 - 1 - 11 ≡ length d = omega arith in
      rw e (take-append_length d _)

  pub decode-report :
      o < 65536
      → offset < 2 ^ 24
      → decode_frame (report o offset n d)
        ≡ ok (record { op = o; offset = offset; n = n; payload = d })
  unfolding decode_frame
  decode-report ho hoff = ground (
    arith,
    body,
    last,
    rest,
    length-append d (checksum (frame_prefix o offset n d) ∷ replicate (64 - (11 + length d + 1)) 0),
  )

-- A report encoded from an operation below 2^16, an offset below 2^24 and a payload of at most 52
-- bytes decodes to the same operation, offset, N and payload.
pub decode-encode :
    (o offset n : ℕ) (d buf : List ℕ)
    → o < 65536
    → offset < 2 ^ 24
    → length d ≤ 52
    → encode_frame o offset n d ≡ ok buf
    → decode_frame buf ≡ ok (record { op = o; offset = offset; n = n; payload = d })
decode-encode o offset n d buf ho hoff hd h =
    let e : encode_frame o offset n d ≡ ok (report o offset n d) =
      encode_frame-eq o offset n d hd in
    ground (arith, e, decode-report o offset n d hd ho hoff)
