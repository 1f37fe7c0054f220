-- ===== src/Logger/Download.antt =====
-- internal/elitech/logger.go: the download of records.
pub mod Packets
unfoldable pub use Packets.*
use go_elite_log.Base.{
  ℕ, zero, suc, ◌+◌, ◌-◌, ◌*◌, ◌/◌, ◌%◌, ◌^◌, min, Bool, true, false, ◌&&◌, ◌||◌, not, Option, none,
  some, List, [], ◌∷◌, ◌++◌, length, slice, ltb, leb, ◌==◌, if◌then◌else◌, option_or,
}
use go_elite_log.Base.Int.{ℤ, pos, negsuc, sub_ℕ, pos_part, ◌+ℤ◌, ◌-ℤ◌, ltb_ℤ, signed64}
use go_elite_log.Base.Result.{Result, ok, err, is_ok, Error, timeout, count_unknown}
use go_elite_log.Calendar.{Time, is_zero, millisecond}
use go_elite_log.Frame.{Frame, is_record_ack, op_get_record, op_get_parameter, op_read05}
use go_elite_log.Record.{Sample, records_per_packet, record_size, decode_record_at}
use go_elite_log.Info.{decode_interval}
use go_elite_log.Logger.Transport.{
  Transport, World, Action, pure, raise, gets, out_of_fuel, attempt, Outcome, got, lost, outcome_or,
  ◌>>=◌, ◌>>◌, now, sleep,
}
use go_elite_log.Logger.Exchange.{timeout_get, timeout_get_cleanup, read_report, send, drain, get}
use go_elite_log.Logger.Identity.{
  prime, prime_with, read_capacity_count, read_status, value_or, or_no_interval,
}

abbrev pub pause_preamble : ℕ
pause_preamble = 80 * millisecond

abbrev pub pause_after_records : ℕ
pause_after_records = 50 * millisecond

-- `connectPreamble`
abbrev pub connect_preamble : List (ℕ × ℕ × ℕ)
connect_preamble =
    (op_get_parameter, 0x000000, 0x30)
    ∷ (op_get_parameter, 0x000030, 0x30)
    ∷ (op_get_parameter, 0x000060, 0x30)
    ∷ (op_get_parameter, 0x000090, 0x08)
    ∷ (op_get_parameter, 0x000098, 0x34)
    ∷ (op_get_parameter, 0x0000CC, 0x30)
    ∷ (op_read05, 0x000000, 0x20)
    ∷ (op_read05, 0x000070, 0x10)
    ∷ (op_read05, 0x000080, 0x30)
    ∷ (op_read05, 0x0000B0, 0x30)
    ∷ (op_read05, 0x0000E0, 0x30)
    ∷ (op_read05, 0x000110, 0x30)
    ∷ (op_read05, 0x000140, 0x30)
    ∷ (op_read05, 0x000020, 0x30)
    ∷ (op_read05, 0x000050, 0x20)
    ∷ (op_get_parameter, 0x00012C, 0x30)
    ∷ (op_get_parameter, 0x0000FD, 0x30)
    ∷ []

-- `wantedStart`, an int: `uint32(last)` drops the high bits of `last`, the subtraction does not.
unfoldable pub wanted_start : ℤ → ℕ → ℤ
wanted_start (pos last) count =
    if ltb 0 last && ltb (last % 2 ^ 32) count then sub_ℕ count last else pos 0
wanted_start (negsuc n) count = pos 0

-- `wantedStart / recordsPerPacket * recordsPerPacket`, where `/` truncates towards zero.
unfoldable pub first_offset : ℤ → ℤ
first_offset (pos n) = pos (n / 6 * 6)
first_offset (negsuc n) = sub_ℕ 0 (suc n / 6 * 6)

-- `uint32(off)`
abbrev pub to_uint32 : ℤ → ℕ
to_uint32 (pos n) = n % 2 ^ 32
to_uint32 (negsuc n) = 2 ^ 32 - 1 - n % 2 ^ 32

-- `time.Duration(idx) * interval`, an int64.
unfoldable pub duration_mul : ℤ → ℕ → ℤ
duration_mul (pos i) interval = signed64 (i * interval)
duration_mul (negsuc i) interval = signed64 (2 ^ 64 - suc i * interval % 2 ^ 64)

-- A record of slot `idx`; one with no time of its own is dated by its index.
unfoldable pub place : ℤ → Time → ℕ → Sample → Sample
unfolding duration_mul
place idx started interval r =
    if is_zero r.time
    then record r { index = idx; time = started +ℤ duration_mul idx interval }
    else record r { index = idx }

abbrev pub append_ok : List Sample → (Sample → Sample) → Result Sample → List Sample
append_ok recs f (ok r) = recs ++ (f r ∷ [])
append_ok recs f (err e) = recs
append_ok recs f Result.panicked = recs
append_ok recs f Result.stuck = recs

-- The loop over the slots of a packet that starts at `off`, from slot `i` on.
unfoldable pub packet_from : Frame → ℕ → Time → ℕ → ℤ → ℤ → ℕ → ℕ → List Sample → List Sample
unfolding record_width decode_record_at place
packet_from f protocol started interval start off zero i recs = recs
packet_from f protocol started interval start off (suc rounds) i recs =
    let idx = off +ℤ pos i in
    packet_from f protocol started interval start off rounds (i + 1) (
      if ltb_ℤ idx start || not (holds f i)
      then recs
      else append_ok recs (place idx started interval)
          (decode_record_at (record_bytes f i) protocol))

-- The rounds from `off` to `count`.
abbrev pub rounds : ℤ → ℕ → ℕ
rounds off count = pos_part (pos count -ℤ off) / 6 + 2

module _ (T : Transport) where
  -- The rest of `sendConnectPreamble`: it ends at the first request that cannot be written.
  unfoldable pub preamble_from : List (ℕ × ℕ × ℕ) → Action (World T) (Unit {0})
  preamble_from [] = pure tt
  preamble_from ((o, offset, n) ∷ rest) = do
    sent ← attempt (send T o offset n [])
    outcome_or (λ e. pure tt)
        (λ _. attempt (read_report T timeout_get) >> (sleep T pause_preamble >> preamble_from rest))
        sent

  unfoldable pub send_connect_preamble : Action (World T) (Unit {0})
  send_connect_preamble = do drain T; preamble_from connect_preamble

  -- A packet, asked for once more behind the preamble if the device is silent and the preamble
  -- has not been sent; with it, whether the preamble has been sent now.
  abbrev pub is_timeout : Outcome Frame → Bool
  is_timeout (got f) = false
  is_timeout (lost Error.timeout) = true
  is_timeout (lost e) = false

  unfoldable pub request_packet : Bool → ℕ → Action (World T) (Outcome Frame × Bool)
  request_packet preamble_sent off = do
    f ← attempt (get_record_packet T off)
    if is_timeout f && not preamble_sent
        then (do
          send_connect_preamble
          again ← attempt (get_record_packet T off)
          pure (again, true))
        else pure (f, preamble_sent)

  -- The loop of `Records` over the packets, with the records so far; a packet that fails ends it.
  unfoldable pub records_loop :
      ℕ → ℕ → Time → ℕ → ℤ → ℤ → Bool → List Sample → Action (World T) (List Sample × Option Error)
  unfolding packet_from
  records_loop zero count started interval start off preamble_sent recs = out_of_fuel
  records_loop (suc fuel) count started interval start off preamble_sent recs =
      if not (ltb_ℤ off (pos count)) then pure (recs, none) else do
        (r, sent) ← request_packet preamble_sent (to_uint32 off)
        p ← gets (λ s. s.protocol)
        outcome_or (λ e. pure (recs, some e))
            (λ f.
              records_loop fuel count started interval start (off +ℤ pos records_per_packet) sent (
                packet_from f p started interval start off
                  (min records_per_packet (pos_part (pos count -ℤ off))) 0 recs))
            r

  -- The pause and the reads behind the last packet, which are left out after a failure.
  unfoldable pub clean_up :
      List Sample × Option Error → Action (World T) (List Sample × Option Error)
  clean_up (recs, some e) = pure (recs, some e)
  clean_up (recs, none) = do
    sleep T pause_after_records
    attempt (prime_with T timeout_get_cleanup)
    pure (recs, none)

  -- The packets of `Records` from record `start` on, for a store of `count` records.
  unfoldable pub download_from : ℤ → ℕ → Action (World T) (List Sample × Option Error)
  unfolding first_offset
  download_from start count = do
    status ← read_status T
    iv ← attempt (get T 0x4C 2)
    r ←
        records_loop (rounds (first_offset start) count) count status.started_at
          (value_or 0 (λ b. or_no_interval (decode_interval b)) iv) start (first_offset start) false
          []
    clean_up r

  -- `Records`: an error comes with the records that were read before it.
  unfoldable pub records : ℤ → Action (World T) (List Sample × Option Error)
  records last = do
    prime T
    counts ← read_capacity_count T
    option_or (raise count_unknown)
        (λ c.
          if c.count == 0
          then pure ([], none)
          else download_from (wanted_start last c.count) c.count)
        counts
