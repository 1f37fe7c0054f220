-- ===== src/Record/SignBit.antt =====
-- internal/elitech/record.go: signed tenths, and the 4-byte records that they make up.
use go_elite_log.Base.{
  ℕ, ◌+◌, ◌*◌, ◌/◌, ◌%◌, ◌<◌, ◌≡◌, arith, Bool, true, false, [], ◌∷◌, bit, some,
}
use go_elite_log.Base.Result.{ok}
use go_elite_log.Record.{no_sample, decode_record_tenths, decode_tenths, decode_record_th}

-- Two bytes for a sign bit and a magnitude in tenths.
abbrev pub hi_of : Bool → ℕ → ℕ
hi_of negative magnitude = bit negative * 16 + magnitude / 256

abbrev pub lo_of : ℕ → ℕ
lo_of magnitude = magnitude % 256

pub decode_record_tenths_lem :
    (negative : Bool) (magnitude : ℕ)
    → magnitude < 4096
    → decode_record_tenths (hi_of negative magnitude) (lo_of magnitude)
      ≡ some (record { negative = negative; magnitude = magnitude })
unfolding decode_record_tenths
decode_record_tenths_lem true m h = ground arith
decode_record_tenths_lem false m h = ground arith

-- In the status space a value of bit 15 for the sign and a magnitude below 32767 tenths decodes
-- to the two.
pub decode_tenths_lem :
    (negative : Bool) (magnitude : ℕ)
    → magnitude < 32767
    → decode_tenths (bit negative * 128 + magnitude / 256) (magnitude % 256)
      ≡ some (record { negative = negative; magnitude = magnitude })
unfolding decode_tenths
decode_tenths_lem true m h = ground arith
decode_tenths_lem false m h = ground arith

-- A 4-byte record of a temperature and a humidity, each a sign bit and a magnitude below 4096
-- tenths, decodes to both.
pub decode_record_th_lem :
    (tn : Bool) (t : ℕ) (hn : Bool) (hu : ℕ)
    → t < 4096
    → hu < 4096
    → decode_record_th (hi_of tn t ∷ lo_of t ∷ hi_of hn hu ∷ lo_of hu ∷ [])
      ≡ ok (record no_sample {
        temperature = record { negative = tn; magnitude = t };
        humidity = record { negative = hn; magnitude = hu };
        has_humidity = true;
      })
unfolding decode_record_th
decode_record_th_lem tn t hn hu ht hh =
    ground (arith, decode_record_tenths_lem tn t ht, decode_record_tenths_lem hn hu hh)
