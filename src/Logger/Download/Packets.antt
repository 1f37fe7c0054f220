-- ===== src/Logger/Download/Packets.antt =====
-- internal/elitech/logger.go: one packet of records, `getRecordPacket`.
use go_elite_log.Base.{
  ℕ, zero, suc, ◌+◌, ◌*◌, ◌/◌, Bool, true, false, ◌&&◌, not, List, [], length, slice, ltb, leb,
  ◌==◌, if◌then◌else◌,
}
use go_elite_log.Base.Result.{is_ok, timeout}
use go_elite_log.Calendar.{millisecond}
use go_elite_log.Frame.{Frame, is_record_ack, op_get_record}
use go_elite_log.Record.{records_per_packet, record_size, decode_record_at}
use go_elite_log.Logger.Transport.{
  Transport, World, Action, pure, raise, gets, out_of_fuel, attempt, Outcome, got, lost, ◌>>=◌,
  ◌>>◌, now,
}
use go_elite_log.Logger.Exchange.{read_report, send}

abbrev pub timeout_record : ℕ
timeout_record = 1500 * millisecond

abbrev pub timeout_record_slice : ℕ
timeout_record_slice = 350 * millisecond

-- `recordWidth`
unfoldable pub record_width : Frame → ℕ
record_width f = if ltb 0 f.n && (length f.payload / f.n == 4) then 4 else record_size

-- The bytes of record `i` of a report, and whether the report reaches to their end.
abbrev pub record_bytes : Frame → ℕ → List ℕ
record_bytes f i = slice (i * record_width f) ((i + 1) * record_width f) f.payload

abbrev pub holds : Frame → ℕ → Bool
holds f i = leb ((i + 1) * record_width f) (length f.payload)

-- The loop of `plausibleRecords`, with `rounds` slots left from slot `i` on; it stops at the
-- first that the report does not hold.
unfoldable pub plausible_from : Frame → ℕ → ℕ → ℕ → ℕ
unfolding record_width decode_record_at
plausible_from f protocol zero i = 0
plausible_from f protocol (suc rounds) i =
    let rest = plausible_from f protocol rounds (i + 1) in
    if holds f i
    then (if is_ok (decode_record_at (record_bytes f i) protocol) then rest + 1 else rest)
    else 0

unfoldable pub plausible_records : Frame → ℕ → ℕ
unfolding plausible_from
plausible_records f protocol = plausible_from f protocol records_per_packet 0

-- What a round of `getRecordPacket` makes of what it read.
pub data Seen : Type 0 where
  nothing acknowledged : Seen
  packet : Frame → Seen

unfoldable pub classify : ℕ → Outcome Frame → Seen
unfolding is_record_ack plausible_records
classify protocol (lost e) = nothing
classify protocol (got f) =
    if not (f.op == op_get_record)
    then nothing
    else if is_record_ack f
    then acknowledged
    else if ltb 0 (plausible_records f protocol)
    then packet f
    else nothing

-- What follows each, where a packet is returned.
abbrev pub on_seen : {W : Type 0} → Action W Frame → Action W Frame → Seen → Action W Frame
on_seen quiet acked nothing = quiet
on_seen quiet acked acknowledged = acked
on_seen quiet acked (packet f) = pure f

module _ (T : Transport) where
  -- The condition of the loop of `getRecordPacket`.
  unfoldable pub still_waiting : ℕ → Bool → Action (World T) Bool
  still_waiting deadline saw_ack = do
    t ← now T
    if ltb t deadline
        then pure true
        else if saw_ack
        then (do u ← now T; pure (leb u (deadline + timeout_record_slice)))
        else pure false

  -- That loop; its fuel is the number of reads.
  unfoldable pub packet_loop : ℕ → ℕ → Bool → Action (World T) Frame
  packet_loop zero deadline saw_ack = out_of_fuel
  packet_loop (suc fuel) deadline saw_ack = do
    waiting ← still_waiting deadline saw_ack
    if waiting then pure tt else raise timeout
    r ← attempt (read_report T timeout_record_slice)
    p ← gets (λ s. s.protocol)
    on_seen (packet_loop fuel deadline saw_ack) (packet_loop fuel deadline true) (classify p r)

  -- A read takes a nanosecond or more, so there are no more reads than nanoseconds.
  unfoldable pub get_record_packet : ℕ → Action (World T) Frame
  get_record_packet off = do
    send T op_get_record off records_per_packet []
    t ← now T
    packet_loop (timeout_record + timeout_record_slice + 2) (t + timeout_record) false
