-- ===== src/Logger/Configure.antt =====
-- internal/elitech/logger.go: `Configure`, `VerifySettings`, `Stop` and `ReadRaw`.
use go_elite_log.Base.{
  ℕ, zero, suc, ◌-◌, ◌*◌, ◌%◌, Bool, true, false, ◌&&◌, ◌||◌, not, Option, none, some, List, [],
  ◌∷◌, ◌++◌, take, set, replicate, ltb, ◌!=◌, if◌then◌else◌,
}
use go_elite_log.Base.Int.{pos}
use go_elite_log.Base.Result.{
  Result, ok, err, panicked, timeout, invalid_interval, count_unknown, records_present,
  stop_unacknowledged,
}
use go_elite_log.Calendar.{second, hour, millisecond}
use go_elite_log.Frame.{Frame, at, op_format, op_stop}
use go_elite_log.Info.{
  StartMode, start_immediate, start_manual, encode_start_byte, encode_date_time, encode_interval,
  Counts,
}
use go_elite_log.Logger.Transport.{
  Transport, World, Action, pure, lift, attempt, Outcome, got, lost, ◌>>=◌, ◌>>◌, require, now,
  sleep, close,
}
use go_elite_log.Logger.Exchange.{
  timeout_get, timeout_command, drain, read_report, send, await_reply, get, set_parameter,
}
use go_elite_log.Logger.Identity.{DeviceInfo, prime, read_capacity_count}

pub record Settings : Type 0 where
  pub interval : ℕ
  pub start_immediately : Bool
  pub button_stop : Bool
  pub software_stop : Bool
  pub sync_clock : Bool

abbrev pub hold_after_format : ℕ
hold_after_format = 550 * millisecond

-- A parameter range: where it begins, the bytes read, the bytes sent back, and the length that the
-- request declares.
pub record Block : Type 0 where
  pub offset : ℕ
  pub size : ℕ
  pub written : ℕ
  pub declared : ℕ

abbrev pub config_blocks : List Block
config_blocks =
    record { offset = 0x00; size = 0x30; written = 48; declared = 0x30 }
    ∷ record { offset = 0x30; size = 0x30; written = 48; declared = 0x30 }
    ∷ record { offset = 0x60; size = 0x30; written = 47; declared = 0x30 }
    ∷ record { offset = 0x98; size = 0x34; written = 52; declared = 0x34 }
    ∷ record { offset = 0xCC; size = 0x30; written = 48; declared = 0x30 }
    ∷ record { offset = 0xFD; size = 0x2F; written = 47; declared = 0x2F }
    ∷ []

-- `copy(dst[i:], src)`, which writes no further than `dst` goes.
unfoldable pub overlay : List ℕ → List ℕ → List ℕ
overlay [] dst = dst
overlay (x ∷ xs) [] = []
overlay (x ∷ xs) (y ∷ ys) = x ∷ overlay xs ys

unfoldable pub copy_at : ℕ → List ℕ → List ℕ → List ℕ
unfolding overlay
copy_at zero src dst = overlay src dst
copy_at (suc i) src [] = []
copy_at (suc i) src (y ∷ ys) = y ∷ copy_at i src ys

-- `blocks[i] = f(blocks[i])`
unfoldable pub modify : ℕ → (List ℕ → List ℕ) → List (List ℕ) → List (List ℕ)
modify i f [] = []
modify zero f (b ∷ bs) = f b ∷ bs
modify (suc i) f (b ∷ bs) = b ∷ modify i f bs

-- The changes that `Configure` makes to the blocks between reading and writing them; the time is
-- that of the host's clock.
unfoldable pub patch_blocks : Settings → Option ℕ → List (List ℕ) → List (List ℕ)
unfolding modify copy_at
patch_blocks s clock blocks =
    let started =
      modify 0
        (λ b.
          set b 0x20
            (encode_start_byte (at b 0x20) s.start_immediately s.button_stop s.software_stop))
        blocks in
    let stamped : List (List ℕ) = elim clock [
      | none ↦ started
      | some t ↦ modify 0 (copy_at 0x28 (encode_date_time (pos t))) started
    ] in
    modify 2 (copy_at (0x88 - 0x60) (replicate (0x8F - 0x88) 0))
      (modify 1 (copy_at (0x4C - 0x30) (encode_interval s.interval)) stamped)

abbrev pub valid_interval : ℕ → Bool
valid_interval d = not (ltb d (10 * second) || (ltb (24 * hour) d || (d % (10 * second) != 0)))

module _ (T : Transport) where
  unfoldable pub read_blocks : List Block → Action (World T) (List (List ℕ))
  read_blocks [] = pure []
  read_blocks (b ∷ bs) = do
    payload ← get T b.offset b.size
    rest ← read_blocks bs
    pure (payload ∷ rest)

  unfoldable pub write_blocks : List Block → List (List ℕ) → Action (World T) (Unit {0})
  write_blocks [] blocks = pure tt
  write_blocks (b ∷ bs) [] = lift panicked
  write_blocks (b ∷ bs) (payload ∷ rest) = do
    set_parameter T b.offset b.declared (take b.written payload)
    write_blocks bs rest

  -- `if s.SyncClock { … l.now() }`
  abbrev pub clock_if : Bool → Action (World T) (Option ℕ)
  clock_if true = do t ← now T; pure (some t)
  clock_if false = pure none

  -- The end of `Configure`: erase the store and close the device. The reply is not looked at.
  unfoldable pub format : Action (World T) (Unit {0})
  format = do
    drain T
    send T op_format 0 1 (0 ∷ [])
    attempt (read_report T timeout_command)
    sleep T hold_after_format
    close T

  -- What `Configure` does once the store may be erased.
  unfoldable pub commit : Settings → Action (World T) (Unit {0})
  commit s = do
    blocks ← read_blocks config_blocks
    clock ← clock_if s.sync_clock
    write_blocks config_blocks (patch_blocks s clock blocks)
    format

  abbrev pub may_erase : ℕ → Option Counts → Result (Unit {0})
  may_erase confirmed none = err count_unknown
  may_erase confirmed (some c) =
      if (c.count != 0) && (c.count != confirmed) then err records_present else ok tt

  -- `Configure`
  unfoldable pub configure : Settings → ℕ → Action (World T) (Unit {0})
  configure s confirmed = do
    require (valid_interval s.interval) invalid_interval
    prime T
    counts ← read_capacity_count T
    lift (may_erase confirmed counts)
    commit s

  abbrev pub stop_reply : Outcome Frame → Result (Unit {0})
  stop_reply (got f) = ok tt
  stop_reply (lost timeout) = err stop_unacknowledged
  stop_reply (lost e) = err e

  -- `Stop`
  unfoldable pub stop : Action (World T) (Unit {0})
  stop = do
    prime T
    drain T
    send T op_stop 0 1 (0 ∷ [])
    r ← attempt (read_report T timeout_command)
    lift (stop_reply r)

  -- `ReadRaw`
  unfoldable pub read_raw : ℕ → ℕ → ℕ → Action (World T) (List ℕ)
  read_raw operation offset n = do
    prime T
    drain T
    send T operation offset n []
    f ← await_reply T operation timeout_get
    pure f.payload

-- The lines of `VerifySettings`: what differs from the settings that were written.
pub data Problem : Type 0 where
  wrong_interval wrong_mode wrong_stop_bits : Problem

abbrev pub wanted_mode : Settings → StartMode
wanted_mode s = if s.start_immediately then start_immediate else start_manual

abbrev bool_eq : Bool → Bool → Bool
bool_eq true b = b
bool_eq false b = not b

abbrev problem_if : Bool → Problem → List Problem
problem_if true p = p ∷ []
problem_if false p = []

-- `VerifySettings` returns an error if there is a problem.
unfoldable pub verify_settings : DeviceInfo → Settings → List Problem
verify_settings info s =
    problem_if (info.interval != s.interval) wrong_interval
    ++ (problem_if (info.start.mode != wanted_mode s) wrong_mode
        ++ problem_if
            (not (bool_eq info.start.button_stop s.button_stop)
              || not (bool_eq info.start.software_stop s.software_stop))
            wrong_stop_bits)
