-- ===== src/Logger/Logic/Methods.antt =====
-- Every method of the logger has a property of calls that the logic covers.
pub mod Records
pub mod Changing
use go_elite_log.Base.{
  ℕ, zero, suc, ◌+◌, ◌*◌, ◌<◌, ◌≡◌, ◌≢◌, Bool, true, false, Option, none, some, List, [], ◌∷◌,
  arith, if◌then◌else◌, option_or, All, Bool-cases, inl, inr,
}
use go_elite_log.Base.Int.{ℤ, pos, negsuc, pos_part, ◌+ℤ◌, ◌-ℤ◌, ltb_ℤ}
use go_elite_log.Base.Result.{ok, err, panicked, stuck, Error}
use go_elite_log.Frame.{
  Frame, decode_frame, op_get_record, op_get_parameter, op_set_parameter, op_read05, op_format,
  op_stop,
}
use go_elite_log.Info.{Counts, Status}
use go_elite_log.Logger.Transport.{
  Transport, World, Reading, report, deadline_exceeded, failed, is_report, outcome_or, Action,
  Outcome, got, lost, pure, raise, lift, attempt, ◌>>=◌, ◌>>◌, require,
}
use go_elite_log.Logger.Exchange.{
  drain_loop, drain, decode_reading, read_report, send, window, get_with, get, read_op5, set_reply,
  set_parameter, timeout_get,
}
use go_elite_log.Logger.Identity.{
  Identity, DeviceInfo, prime_with, prime, count_tries, read_capacity_count, status_blocks,
  read_status, info, decode_counts,
}
use go_elite_log.Logger.Download.{
  connect_preamble, pause_preamble, pause_after_records, preamble_from, send_connect_preamble,
  get_record_packet, request_packet, records_loop, download_from, clean_up, records, rounds,
  first_offset,
}
use go_elite_log.Logger.Exchange.{timeout_get_cleanup, timeout_command}
use go_elite_log.Logger.Configure.{
  Settings, Block, config_blocks, hold_after_format, read_blocks, write_blocks, clock_if, format,
  commit, may_erase, configure, stop, stop_reply, read_raw,
}
use go_elite_log.Record.{Sample}
use go_elite_log.Calendar.{Time}
use go_elite_log.Logger.Logic.{Logic}

decode_frame-ne-stuck : (b : List ℕ) → decode_frame b ≢ stuck
unfolding decode_frame
decode_frame-ne-stuck b e = ground arith

decode_reading-ne-stuck : (T : Transport) (r : Reading) → decode_reading T r ≢ stuck
decode_reading-ne-stuck T (report b) e = decode_frame-ne-stuck b e
decode_reading-ne-stuck T deadline_exceeded e = cc
decode_reading-ne-stuck T (failed x) e = cc

window-ne-stuck : (T : Transport) (offset n : ℕ) (f : Frame) → window T offset n f ≢ stuck
window-ne-stuck T offset n f e = ground arith

pub rounds_enough : (off : ℤ) (count : ℕ) → pos_part (pos count -ℤ off) + 5 < 6 * rounds off count
rounds_enough off count = omega arith

pub may_erase-ne-stuck :
    (T : Transport) (confirmed : ℕ) (counts : Option Counts) → may_erase T confirmed counts ≢ stuck
may_erase-ne-stuck T confirmed none e = cc
may_erase-ne-stuck T confirmed (some c) e = ground arith

pub stop_reply-ne-stuck : (T : Transport) (r : Outcome Frame) → stop_reply T r ≢ stuck
stop_reply-ne-stuck T r e = ground arith

-- A packet more, and there is a packet less to come.
pub fewer :
    (fuel count : ℕ) (off : ℤ)
    → ltb_ℤ off (pos count) ≡ true
    → pos_part (pos count -ℤ off) + 5 < 6 * suc fuel
    → pos_part (pos count -ℤ (off +ℤ pos 6)) + 5 < 6 * fuel
fewer fuel count (pos n) more h = ground arith
fewer fuel count (negsuc n) more h = ground arith

pub set_reply-ne-stuck : (T : Transport) (offset : ℕ) (f : Frame) → set_reply T offset f ≢ stuck
set_reply-ne-stuck T offset f e = ground arith

module _ (T : Transport) (L : Logic T) where
  open L use {
    Holds, Sends, of_bind, of_lift, of_gets, of_attempt, of_set_protocol, of_read, of_now, of_sleep,
    of_close, of_send, of_await_reply, of_get_record_packet,
  }

  pub of_pure : (A : Type 0) (a : A) → Holds A (pure a)
  unfolding pure lift
  of_pure A a = of_lift A (ok a) (λ e. cc)

  pub of_raise : (A : Type 0) (e : Error) → Holds A (raise e)
  unfolding raise lift
  of_raise A e = of_lift A (err e) (λ q. cc)

  pub of_require : (b : Bool) (e : Error) → Holds (Unit {0}) (require b e)
  unfolding require lift
  of_require true e = of_lift _ (ok tt) (λ q. cc)
  of_require false e = of_lift _ (err e) (λ q. cc)

  pub of_if :
      (A : Type 0) (b : Bool) (m k : Action (World T) A)
      → Holds A m
      → Holds A k
      → Holds A (if b then m else k)
  of_if A true m k hm hk = hm
  of_if A false m k hm hk = hk

  pub of_option :
      (A B : Type 0) (o : Option A) (m : Action (World T) B) (k : A → Action (World T) B)
      → Holds B m
      → ((a : A) → Holds B (k a))
      → Holds B (option_or m k o)
  of_option A B none m k hm hk = hm
  of_option A B (some a) m k hm hk = hk a

  pub of_outcome :
      (A B : Type 0) (o : Outcome A) (m : Error → Action (World T) B) (k : A → Action (World T) B)
      → ((e : Error) → Holds B (m e))
      → ((a : A) → Holds B (k a))
      → Holds B (outcome_or m k o)
  of_outcome A B (got a) m k hm hk = hk a
  of_outcome A B (lost e) m k hm hk = hm e

  of_drain_loop : (rounds : ℕ) → Holds (Unit {0}) (drain_loop T rounds)
  unfolding drain_loop
  of_drain_loop zero = of_pure _ tt
  of_drain_loop (suc rounds) =
      of_bind _ _ _ _ (of_read _)
        (λ r. of_if _ (is_report r) _ _ (of_drain_loop rounds) (of_pure _ tt))

  pub of_drain : Holds (Unit {0}) (drain T)
  unfolding drain
  of_drain = of_drain_loop 16

  pub of_read_report : (wait : ℕ) → Holds Frame (read_report T wait)
  unfolding read_report
  of_read_report wait =
      of_bind _ _ _ _ (of_read wait) (λ r. of_lift _ _ (decode_reading-ne-stuck T r))

  -- A request, behind a drain.
  pub of_request :
      {B : Type 0} (o offset n : ℕ) (payload : List ℕ) (k : Action (World T) B)
      → Sends o
      → Holds B k
      → Holds B (drain T >> (send T o offset n payload >> k))
  of_request o offset n payload k ho hk =
      of_bind _ _ _ _ of_drain (λ _. of_bind _ _ _ _ (of_send o offset n payload ho) (λ _. hk))

  module _ (sends_get : Sends op_get_parameter) where
    of_get_with : (offset n wait : ℕ) → Holds (List ℕ) (get_with T offset n wait)
    unfolding get_with
    of_get_with offset n wait =
        of_request _ _ _ _ _ sends_get (
          of_bind _ _ _ _ (of_await_reply _ wait) (λ f. of_lift _ _ (window-ne-stuck T offset n f)))

    pub of_get : (offset n : ℕ) → Holds (List ℕ) (get T offset n)
    unfolding get
    of_get offset n = of_get_with offset n timeout_get

    pub of_prime_with : (wait : ℕ) → Holds Identity (prime_with T wait)
    unfolding prime_with
    of_prime_with wait = of_bind _ _ _ _ (of_get_with 0x00 14 wait) (λ idb.
        of_bind _ _ _ _ (of_get_with 0x94 2 wait)
          (λ pb. of_bind _ _ _ _ (of_set_protocol _) (λ _. of_pure _ _)))

    pub of_prime : Holds Identity (prime T)
    unfolding prime
    of_prime = of_prime_with timeout_get

    of_count_tries : (tries : ℕ) (first : Bool) → Holds (Option Counts) (count_tries T tries first)
    unfolding count_tries
    of_count_tries zero first = of_pure _ none
    of_count_tries (suc tries) first =
        of_bind _ _ _ _ (of_if _ first _ _ (of_pure _ tt) (of_sleep _)) (λ _.
          of_bind _ _ _ _ (of_attempt _ _ (of_get 0x42 10)) (λ b.
            of_bind _ _ _ _ (of_gets _ _) (λ p.
              of_option _ _ (decode_counts T p b) _ _ (of_count_tries tries false)
                (λ c. of_pure _ (some c)))))

    pub of_read_capacity_count : Holds (Option Counts) (read_capacity_count T)
    unfolding read_capacity_count
    of_read_capacity_count = of_count_tries 3 true

    -- `b, err := l.get(offset, n)`, and what follows it.
    pub of_try :
        {B : Type 0} (offset n : ℕ) (k : Outcome (List ℕ) → Action (World T) B)
        → ((r : Outcome (List ℕ)) → Holds B (k r))
        → Holds B (attempt (get T offset n) >>= k)
    of_try offset n k hk = of_bind _ _ _ _ (of_attempt _ _ (of_get offset n)) hk

    module _ (sends_read05 : Sends op_read05) where
      of_read_op5 : (offset n : ℕ) → Holds (List ℕ) (read_op5 T offset n)
      unfolding read_op5
      of_read_op5 offset n =
          of_request _ _ _ _ _ sends_read05
            (of_bind _ _ _ _ (of_await_reply _ _) (λ f. of_if _ _ _ _ (of_raise _ _) (of_pure _ _)))

      pub of_read_status : Holds Status (read_status T)
      unfolding read_status status_blocks
      of_read_status =
          of_bind _ _ _ _
            (of_attempt _ _ (
              of_bind _ _ _ _ (of_read_op5 0x00 0x20) (λ head.
                of_bind _ _ _ _ (of_read_op5 0x80 0x30)
                  (λ tail. of_bind _ _ _ _ (of_read_op5 0xB0 0x10) (λ more. of_pure _ _)))))
            (λ st. of_pure _ _)

      pub of_info : Holds DeviceInfo (info T)
      unfolding info
      of_info = of_bind _ _ _ _ of_prime (λ id. of_bind _ _ _ _ of_read_capacity_count (λ counts.
          of_try 0x4C 2 _ (λ iv. of_try 0x20 1 _ (λ start. of_try 0x21 1 _ (λ unit.
            of_try 0x26 2 _ (λ battery. of_try 0x28 7 _ (λ configured. of_try 0x30 15 _ (λ runtime.
              of_try 0x88 7 _ (λ clock. of_bind _ _ _ _ of_read_status (λ st. of_pure _ _))))))))))
