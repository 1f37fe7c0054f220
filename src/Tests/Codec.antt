-- ===== src/Tests/Codec.antt =====
-- Reports, records and settings of the documents and tests, and the codec theorems at some of them.
use go_elite_log.Base.{
  ℕ, true, false, ◌+◌, ◌%◌, ◌≡◌, refl, arith, some, List, [], ◌∷◌, set, replicate,
}
use go_elite_log.Base.Result.{ok, err, bad_frame}
use go_elite_log.Calendar.{days_in, is_leap, date, day_number}
use go_elite_log.Frame.{Frame, checksum, encode_frame, decode_frame}
use go_elite_log.Frame.RoundTrip.{decode-encode}
use go_elite_log.Frame.Corruption.{decode-set}
use go_elite_log.Record.{no_sample, decode_record, decode_record_th}
use go_elite_log.Record.Word.{decode_word, decode_record-bytes_of}
use go_elite_log.Record.SignBit.{decode_record_th_lem}
use go_elite_log.Info.{decode_date_time, encode_date_time, decode_capacity_count}
use go_elite_log.Info.RoundTrip.{
  decode_date_time_bytes, decode-encode_date_time, encode-decode_date_time,
}
use go_elite_log.Info.Capacity.{decode_capacity_count-block, decode_capacity_count-stop_marks}

-- The request for 14 bytes at 0x00.
abbrev get_identity : List ℕ
get_identity =
    0x33
    ∷ 0xCC
    ∷ 0x00
    ∷ 0x0C
    ∷ 0x03
    ∷ 0x00
    ∷ 0x00
    ∷ 0x00
    ∷ 0x00
    ∷ 0x00
    ∷ 0x0E
    ∷ 0x1C
    ∷ replicate 52 0

encode_run : encode_frame 3 0 14 [] ≡ ok get_identity
unfolding encode_frame checksum
encode_run = refl

abbrev identity_request : Frame
identity_request = record { op = 3; offset = 0; n = 14; payload = [] }

decode-encode_example : decode_frame get_identity ≡ ok identity_request
decode-encode_example =
    decode-encode 3 0 14 [] get_identity (omega arith) (omega arith) (omega arith) encode_run

decode-set_example : decode_frame (set get_identity 10 0x0F) ≡ err bad_frame
decode-set_example =
    decode-set get_identity 10 0x0F decode-encode_example (omega arith) (omega arith) (omega arith)
      (omega arith) (omega arith)

-- C0 78 9A BC 2E 1B 05 00
abbrev base_word : ℕ
base_word = 0x00051B2EBC9A78C0

decode_record-bytes_of_example :
    decode_record (0xC0 ∷ 0x78 ∷ 0x9A ∷ 0xBC ∷ 0x2E ∷ 0x1B ∷ 0x05 ∷ 0x00 ∷ []) 0x35
    ≡ decode_word base_word 0x35
decode_record-bytes_of_example = decode_record-bytes_of base_word 0x35 (omega arith)

decode_record_th_lem_example :
    decode_record_th (0x00 ∷ 0xD9 ∷ 0x02 ∷ 0x26 ∷ [])
    ≡ ok (record no_sample {
      temperature = record { negative = false; magnitude = 217 };
      humidity = record { negative = false; magnitude = 550 };
      has_humidity = true;
    })
decode_record_th_lem_example = decode_record_th_lem false 217 false 550 (omega arith) (omega arith)

decode-encode_date_time_example :
    decode_date_time (encode_date_time (date 2024 2 29 23 59 58)) ≡ some (date 2024 2 29 23 59 58)
unfolding days_in is_leap
decode-encode_date_time_example =
    decode-encode_date_time 2024 2 29 23 59 58 (omega arith) (omega arith) (omega arith)
      (omega arith) (omega arith) (omega arith) (omega arith) (omega arith) (omega arith)

encode-decode_date_time_example :
    encode_date_time (date 2024 2 29 23 59 58)
    ≡ 24 ∷ 2 ∷ (day_number 2024 2 29 + 1) % 7 ∷ 29 ∷ 23 ∷ 59 ∷ 58 ∷ []
unfolding days_in is_leap
encode-decode_date_time_example = encode-decode_date_time 24 2 0 29 23 59 58 (omega arith) (
    decode_date_time_bytes 24 2 0 29 23 59 58 (omega arith) (omega arith) (omega arith)
      (omega arith) (omega arith) (omega arith) (omega arith) (omega arith))

decode_capacity_count-block_example :
    decode_capacity_count (0 ∷ 0 ∷ 0 ∷ 16 ∷ 0 ∷ 0 ∷ 0 ∷ 2 ∷ 0 ∷ 0 ∷ []) 0x35
    ≡ some (record { capacity = 16; count = 2 })
decode_capacity_count-block_example =
    decode_capacity_count-block 16 2 0x35 (omega arith) (omega arith) (omega arith)

decode_capacity_count-stop_marks_example :
    decode_capacity_count (0xFF ∷ 0xFF ∷ 0 ∷ 16 ∷ 0 ∷ 0 ∷ 0 ∷ 2 ∷ 0xFF ∷ 0xFF ∷ []) 0x35
    ≡ some (record { capacity = 16; count = 2 })
decode_capacity_count-stop_marks_example =
    decode_capacity_count-stop_marks 16 2 0x35 (omega arith) (omega arith) (omega arith)
