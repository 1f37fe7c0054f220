-- ===== src/Logger/Written.antt =====
-- internal/elitech/logger.go: what `Configure` writes, and what `VerifySettings` looks for.
use go_elite_log.Base.{
  ℕ, ◌↔◌, zero, suc, ◌+◌, ◌*◌, ◌/◌, ◌≤◌, ◌<◌, ◌≡◌, refl, sym, ap, ◌∙◌, arith, true, Option, none,
  some, List, [], ◌∷◌, length, get_or, set, take, drop, slice, get_or-set_self,
}
use go_elite_log.Frame.{at}
use go_elite_log.Calendar.{second}
use go_elite_log.Info.{
  encode_date_time, decode_start_byte, encode_start_byte, decode_interval, encode_interval,
  encode_date_time,
}
use go_elite_log.Base.Int.{pos}
use go_elite_log.Info.RoundTrip.{decode-encode_start_byte, decode-encode_interval}
use go_elite_log.Base.Int.{pos}
use go_elite_log.Logger.Identity.{DeviceInfo}
use go_elite_log.Logger.Configure.{
  Settings, overlay, copy_at, modify, patch_blocks, valid_interval, verify_settings, wanted_mode,
}

-- `copy` leaves what stands before it.
at-copy_at : (i j : ℕ) (src dst : List ℕ) → j < i → at (copy_at i src dst) j ≡ at dst j
unfolding copy_at
at-copy_at zero j src dst h = elim h [ ]
at-copy_at (suc i) j src [] h = refl
at-copy_at (suc i) zero src (y ∷ ys) h = refl
at-copy_at (suc i) (suc j) src (y ∷ ys) h = at-copy_at i j src ys (omega arith)

take-overlay :
    (src dst : List ℕ) → length src ≤ length dst → take (length src) (overlay src dst) ≡ src
unfolding overlay
take-overlay [] dst h = refl
take-overlay (x ∷ xs) [] h = elim h [ ]
take-overlay (x ∷ xs) (y ∷ ys) h = ap (λ t. x ∷ t) (take-overlay xs ys (omega arith))

-- It puts the source there, if it fits.
take-drop-copy_at :
    (i : ℕ) (src dst : List ℕ)
    → i + length src ≤ length dst
    → take (length src) (drop i (copy_at i src dst)) ≡ src
unfolding copy_at
take-drop-copy_at zero src dst h = take-overlay src dst (omega arith)
take-drop-copy_at (suc i) src [] h = absurd (omega arith)
take-drop-copy_at (suc i) src (y ∷ ys) h = take-drop-copy_at i src ys (omega arith)

-- A valid interval is stored as a number of tens of seconds.
valid_interval_units :
    (d : ℕ)
    → valid_interval d ≡ true
    → (d ≡ d / (10 * second) * 10 * second) × (1 ≤ d / (10 * second)) × (d / (10 * second) < 65535)
valid_interval_units d h = ground arith

pub decode-encode_valid :
    (d : ℕ) → valid_interval d ≡ true → decode_interval (encode_interval d) ≡ some d
decode-encode_valid d h =
    let (e, lo, hi) = valid_interval_units d h in
    ap (λ x. decode_interval (encode_interval x)) e
    ∙ decode-encode_interval (d / (10 * second)) lo hi
    ∙ ap some (sym e)

-- `VerifySettings` finds no problem exactly if the interval, the start mode and both stop bits
-- are those of the settings.
pub verify_settings_iff :
    (info : DeviceInfo) (s : Settings)
    → (verify_settings info s ≡ []) ↔ (
        (info.interval ≡ s.interval)
        × (info.start.mode ≡ wanted_mode s)
        × (info.start.button_stop ≡ s.button_stop)
        × (info.start.software_stop ≡ s.software_stop))
unfolding verify_settings
verify_settings_iff info s = ((λ h. ground arith), (λ h. ground arith))

abbrev pub written : Settings → Option ℕ → List ℕ → List ℕ → List (List ℕ) → List (List ℕ)
written s clock b0 b1 rest = patch_blocks s clock (b0 ∷ b1 ∷ rest)

-- Byte 0x20 of the first block that `Configure` writes.
pub start_written :
    (s : Settings) (clock : Option ℕ) (b0 b1 : List ℕ) (rest : List (List ℕ))
    → 0x20 < length b0
    → at (get_or (written s clock b0 b1 rest) 0 []) 0x20
      ≡ encode_start_byte (at b0 0x20) s.start_immediately s.button_stop s.software_stop
unfolding patch_blocks modify
start_written s none b0 b1 rest h = get_or-set_self b0 0x20 _ 0 h
start_written s (some t) b0 b1 rest h =
    at-copy_at 0x28 0x20 (encode_date_time (pos t))
      (set b0 0x20
        (encode_start_byte (at b0 0x20) s.start_immediately s.button_stop s.software_stop))
      (omega arith)
    ∙ get_or-set_self b0 0x20 _ 0 h

-- Bytes 0x1C and 0x1D of the second.
pub interval_written :
    (s : Settings) (clock : Option ℕ) (b0 b1 : List ℕ) (rest : List (List ℕ))
    → 0x1E ≤ length b1
    → slice 0x1C 0x1E (get_or (written s clock b0 b1 rest) 1 []) ≡ encode_interval s.interval
unfolding patch_blocks modify encode_interval
interval_written s none b0 b1 rest h = take-drop-copy_at 0x1C (encode_interval s.interval) b1 h
interval_written s (some t) b0 b1 rest h = take-drop-copy_at 0x1C (encode_interval s.interval) b1 h

-- For a valid interval and parameter blocks that reach the bytes at 0x20 and 0x4C,
-- `VerifySettings` accepts any `Info` whose interval and start settings are decoded from the
-- blocks as `Configure` patches them.
pub verify-patch_blocks :
    (s : Settings) (clock : Option ℕ) (b0 b1 : List ℕ) (rest : List (List ℕ)) (info : DeviceInfo)
    → valid_interval s.interval ≡ true
    → 0x20 < length b0
    → 0x1E ≤ length b1
    → decode_interval (slice 0x1C 0x1E (get_or (written s clock b0 b1 rest) 1 []))
      ≡ some info.interval
    → decode_start_byte (at (get_or (written s clock b0 b1 rest) 0 []) 0x20) ≡ info.start
    → verify_settings info s ≡ []
verify-patch_blocks s clock b0 b1 rest info v h0 h1 ei es =
    let interval : some s.interval ≡ some info.interval =
      sym (decode-encode_valid s.interval v)
      ∙ ap decode_interval (sym (interval_written s clock b0 b1 rest h1))
      ∙ ei in
    let start : record {
      mode = wanted_mode s;
      button_stop = s.button_stop;
      software_stop = s.software_stop;
    }
        ≡ info.start =
      sym (decode-encode_start_byte (at b0 0x20) s.start_immediately s.button_stop s.software_stop)
      ∙ ap decode_start_byte (sym (start_written s clock b0 b1 rest h0))
      ∙ es in
    (verify_settings_iff info s).1 (
      cc interval,
      ap (λ x. x.mode) (sym start),
      ap (λ x. x.button_stop) (sym start),
      ap (λ x. x.software_stop) (sym start),
    )
