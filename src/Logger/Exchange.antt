-- ===== src/Logger/Exchange.antt =====
-- internal/elitech/logger.go: one request and its reply.
use go_elite_log.Base.{
  ℕ, zero, suc, ◌+◌, ◌-◌, ◌*◌, ◌||◌, List, [], length, slice, take, ltb, ◌==◌, ◌!=◌, if◌then◌else◌,
}
use go_elite_log.Base.Result.{Result, ok, err, timeout, bad_frame, rejected}
use go_elite_log.Calendar.{second, millisecond}
use go_elite_log.Frame.{
  Frame, at, encode_frame, decode_frame, op_get_parameter, op_set_parameter, op_read05,
}
use go_elite_log.Logger.Transport.{
  Transport, World, Reading, report, deadline_exceeded, failed, is_report, Action, pure, raise,
  lift, out_of_fuel, ◌>>=◌, ◌>>◌, require, write, read, now,
}

abbrev pub timeout_get : ℕ
timeout_get = second

abbrev pub timeout_get_cleanup : ℕ
timeout_get_cleanup = 750 * millisecond

abbrev pub timeout_set : ℕ
timeout_set = second

abbrev pub timeout_command : ℕ
timeout_command = 2 * second

abbrev pub drain_timeout : ℕ
drain_timeout = 5 * millisecond

module _ (T : Transport) where
  -- The loop of `drain`, over the rounds left.
  unfoldable pub drain_loop : ℕ → Action (World T) (Unit {0})
  drain_loop zero = pure tt
  drain_loop (suc rounds) = do
    r ← read T drain_timeout
    if is_report r then drain_loop rounds else pure tt

  unfoldable pub drain : Action (World T) (Unit {0})
  drain = drain_loop 16

  abbrev pub decode_reading : Reading → Result Frame
  decode_reading (report b) = decode_frame b
  decode_reading deadline_exceeded = err timeout
  decode_reading (failed e) = err e

  -- `readReport`
  unfoldable pub read_report : ℕ → Action (World T) Frame
  read_report wait = do r ← read T wait; lift (decode_reading r)

  -- `l.t.Write(encodeFrame(...))`
  unfoldable pub send : ℕ → ℕ → ℕ → List ℕ → Action (World T) (Unit {0})
  send o offset n payload = do b ← lift (encode_frame o offset n payload); write T b

  -- The loop of `awaitReply`. Its fuel is the number of reads that it may make.
  unfoldable pub await_loop : ℕ → ℕ → ℕ → Action (World T) Frame
  await_loop zero want deadline = out_of_fuel
  await_loop (suc fuel) want deadline = do
    t ← now T
    require (ltb t deadline) timeout
    f ← read_report (deadline - t)
    if f.op == want then pure f else await_loop fuel want deadline

  -- A read takes a nanosecond or more, so there are no more reads than nanoseconds.
  unfoldable pub await_reply : ℕ → ℕ → Action (World T) Frame
  await_reply want wait = do t ← now T; await_loop (wait + 1) want (t + wait)

  -- The part of the reply that was asked for; the device may answer with a wider range.
  abbrev pub window : ℕ → ℕ → Frame → Result (List ℕ)
  window offset n f =
      if ltb offset f.offset || ltb (length f.payload) (offset - f.offset + n)
      then err bad_frame
      else ok (slice (offset - f.offset) (offset - f.offset + n) f.payload)

  unfoldable pub get_with : ℕ → ℕ → ℕ → Action (World T) (List ℕ)
  get_with offset n wait = do
    drain
    send op_get_parameter offset n []
    f ← await_reply op_get_parameter wait
    lift (window offset n f)

  unfoldable pub get : ℕ → ℕ → Action (World T) (List ℕ)
  get offset n = get_with offset n timeout_get

  -- `readOp5`
  unfoldable pub read_op5 : ℕ → ℕ → Action (World T) (List ℕ)
  read_op5 offset n = do
    drain
    send op_read05 offset n []
    f ← await_reply op_read05 timeout_get
    if f.offset != offset || ltb (length f.payload) n
        then raise bad_frame
        else pure (take n f.payload)

  abbrev pub set_reply : ℕ → Frame → Result (Unit {0})
  set_reply offset f =
      if f.offset != offset || (f.n != 1 || ltb (length f.payload) 1)
      then err bad_frame
      else if at f.payload 0 != 1
      then err rejected
      else ok tt

  -- `set`: the reply is to repeat the offset and to carry the status 1.
  unfoldable pub set_parameter : ℕ → ℕ → List ℕ → Action (World T) (Unit {0})
  set_parameter offset declared payload = do
    drain
    send op_set_parameter offset declared payload
    f ← await_reply op_set_parameter timeout_set
    lift (set_reply offset f)
