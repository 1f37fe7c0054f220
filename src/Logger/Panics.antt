-- ===== src/Logger/Panics.antt =====
-- internal/elitech/logger.go: whether `Configure` panics, on any device: the exchanges.
pub mod Methods
pub mod Packets
use go_elite_log.Base.{
  ℕ, zero, suc, ◌≡◌, ◌≢◌, ◌≤◌, ◌+◌, refl, ◌∙◌, ap, arith, Bool, true, false, Option, none, some,
  option_or, List, [], ◌∷◌, length, take, min, set, length-take, length-set, All, if◌then◌else◌,
  ◌==◌, ltb,
}
use go_elite_log.Base.Result.{Result, ok, err, panicked, bad_frame, stuck, Error, timeout}
use go_elite_log.Base.Step.Preserve.{Any}
use go_elite_log.Base.Step.Safe.{
  Safe, safe, Safe-lift, Safe-lift_any, Safe-pure, Safe-pure_any, Safe-raise, Safe-out_of_fuel,
  Safe-gets, Safe-require, Safe-bind, Safe-attempt, Safe-if, Safe-option, result-ne-panicked,
}
use go_elite_log.Frame.{
  Frame, encode_frame, decode_frame, op_get_parameter, op_read05, op_set_parameter, op_format,
}
use go_elite_log.Info.{Counts, encode_interval, encode_start_byte, encode_date_time}
use go_elite_log.Logger.Transport.{
  Transport, World, Session, Action, Outcome, Reading, report, deadline_exceeded, failed, is_report,
  nil_or, pure, lift, attempt, require, ◌>>=◌, set_protocol, write, read, now, sleep, close,
}
use go_elite_log.Logger.Exchange.{
  decode_reading, drain_loop, drain, read_report, send, await_loop, await_reply, window, get_with,
  read_op5, get, set_reply, set_parameter, timeout_get,
}
use go_elite_log.Logger.Identity.{
  prime_with, prime, count_tries, read_capacity_count, decode_counts,
}
use go_elite_log.Logger.Configure.{
  Settings, Block, config_blocks, overlay, copy_at, modify, patch_blocks, valid_interval,
  read_blocks, write_blocks, clock_if, format, commit, may_erase, configure,
}

encode_frame-ne-panicked :
    (o offset n : ℕ) (payload : List ℕ)
    → length payload ≤ 52
    → encode_frame o offset n payload ≢ panicked
unfolding encode_frame
encode_frame-ne-panicked o offset n payload h e = ground arith

decode_frame-ne-panicked : (b : List ℕ) → decode_frame b ≢ panicked
unfolding decode_frame
decode_frame-ne-panicked b e = ground arith

nil_or-ne-panicked : (o : Option Error) → nil_or o ≢ panicked
nil_or-ne-panicked none e = cc
nil_or-ne-panicked (some x) e = cc

module _ (T : Transport) where
  pub decode_reading-ne-panicked : (r : Reading) → decode_reading T r ≢ panicked
  decode_reading-ne-panicked (report b) e = decode_frame-ne-panicked b e
  decode_reading-ne-panicked deadline_exceeded e = cc
  decode_reading-ne-panicked (failed x) e = cc

  pub Safe-read : (wait : ℕ) → Safe Any (read T wait)
  unfolding read
  Safe-read wait = safe (λ s. ((λ e. cc), λ a e. tt))

  pub Safe-now : Safe Any (now T)
  unfolding now
  Safe-now = safe (λ s. ((λ e. cc), λ a e. tt))

  pub Safe-sleep : (d : ℕ) → Safe Any (sleep T d)
  unfolding sleep
  Safe-sleep d = safe (λ s. ((λ e. cc), λ a e. tt))

  pub Safe-write : (b : List ℕ) → Safe Any (write T b)
  unfolding write
  Safe-write b = safe (λ s. (nil_or-ne-panicked _, λ a e. tt))

  pub Safe-close : Safe Any (close T)
  unfolding close
  Safe-close = safe (λ s. (nil_or-ne-panicked _, λ a e. tt))

  pub Safe-set_protocol : (p : ℕ) → Safe {S = Session (World T)} Any (set_protocol p)
  unfolding set_protocol
  Safe-set_protocol p = safe (λ s. ((λ e. cc), λ a e. tt))

  pub Safe-drain_loop : (n : ℕ) → Safe Any (drain_loop T n)
  unfolding drain_loop
  Safe-drain_loop zero = Safe-pure_any tt
  Safe-drain_loop (suc n) =
      Safe-bind (Safe-read _) (λ r u. Safe-if (is_report r) (Safe-drain_loop n) (Safe-pure_any tt))

  pub Safe-drain : Safe Any (drain T)
  unfolding drain
  Safe-drain = Safe-drain_loop 16

  pub Safe-read_report : (wait : ℕ) → Safe Any (read_report T wait)
  unfolding read_report
  Safe-read_report wait =
      Safe-bind (Safe-read wait) (λ r u. Safe-lift_any _ (decode_reading-ne-panicked r))

  pub Safe-send :
      (o offset n : ℕ) (payload : List ℕ)
      → length payload ≤ 52
      → Safe Any (send T o offset n payload)
  unfolding send
  Safe-send o offset n payload h =
      Safe-bind (Safe-lift_any _ (encode_frame-ne-panicked o offset n payload h))
        (λ b u. Safe-write b)

  pub Safe-await_loop : (fuel want deadline : ℕ) → Safe Any (await_loop T fuel want deadline)
  unfolding await_loop
  Safe-await_loop zero want deadline = Safe-out_of_fuel
  Safe-await_loop (suc fuel) want deadline = Safe-bind Safe-now (λ t u.
      Safe-bind (Safe-require _ timeout) (λ v w.
        Safe-bind (Safe-read_report _)
          (λ f x. Safe-if (f.op == want) (Safe-pure_any f) (Safe-await_loop fuel want deadline))))

  pub Safe-await_reply : (want wait : ℕ) → Safe Any (await_reply T want wait)
  unfolding await_reply
  Safe-await_reply want wait = Safe-bind Safe-now (λ t u. Safe-await_loop _ want _)

  window-ne-panicked : (offset n : ℕ) (f : Frame) → window T offset n f ≢ panicked
  window-ne-panicked offset n f e = ground arith

  pub Safe-get_with : (offset n wait : ℕ) → Safe Any (get_with T offset n wait)
  unfolding get_with
  Safe-get_with offset n wait = Safe-bind Safe-drain (λ u v.
      Safe-bind (Safe-send op_get_parameter offset n [] (omega arith)) (λ u v.
        Safe-bind (Safe-await_reply op_get_parameter wait)
          (λ f w. Safe-lift_any _ (window-ne-panicked offset n f))))

  pub Safe-get : (offset n : ℕ) → Safe Any (get T offset n)
  unfolding get
  Safe-get offset n = Safe-get_with offset n timeout_get

  set_reply-ne-panicked : (offset : ℕ) (f : Frame) → set_reply T offset f ≢ panicked
  set_reply-ne-panicked offset f e = ground arith

  pub Safe-set_parameter :
      (offset declared : ℕ) (payload : List ℕ)
      → length payload ≤ 52
      → Safe Any (set_parameter T offset declared payload)
  unfolding set_parameter
  Safe-set_parameter offset declared payload h = Safe-bind Safe-drain (λ u v.
      Safe-bind (Safe-send op_set_parameter offset declared payload h) (λ u v.
        Safe-bind (Safe-await_reply op_set_parameter _)
          (λ f w. Safe-lift_any _ (set_reply-ne-panicked offset f))))

  pub Safe-read_op5 : (offset n : ℕ) → Safe Any (read_op5 T offset n)
  unfolding read_op5
  Safe-read_op5 offset n = Safe-bind Safe-drain (λ u v.
      Safe-bind (Safe-send op_read05 offset n [] (omega arith)) (λ u v.
        Safe-bind (Safe-await_reply op_read05 _)
          (λ f w. Safe-if _ (Safe-raise bad_frame) (Safe-pure_any _))))
