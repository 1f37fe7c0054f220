-- ===== src/Logger/Transport.antt =====
-- The `transport` interface and the clock of internal/elitech/logger.go, the fields of `Logger`,
-- and a method call as a function of the session. `internal/hid` and the operating system stand
-- behind the interface, so it is a parameter. The mutex makes the calls a sequence.
use go_elite_log.Base.{ℕ, Bool, true, false, List, Option, none, some}
pub use go_elite_log.Base.Step.{
  Step, Outcome, got, lost, outcome, outcome_or, continue_with, ◌>>◌, >>=-eq-ok, >>=_state,
}
unfoldable pub use go_elite_log.Base.Step.{
  pure, raise, lift, out_of_fuel, gets, attempt, ◌>>=◌, require,
}
use go_elite_log.Base.Result.{Result, ok, err, Error}

-- What `Read` returns: the bytes of a report, `os.ErrDeadlineExceeded`, or another error.
pub data Reading : Type 0 where
  report : List ℕ → Reading
  deadline_exceeded : Reading
  failed : Error → Reading

abbrev pub is_report : Reading → Bool
is_report (report b) = true
is_report deadline_exceeded = false
is_report (failed e) = false

-- The clock counts nanoseconds since year 1, as `Calendar.Time` does; timeouts are in nanoseconds.
pub record Transport : Type 1 where
  pub World : Type 0
  pub write : List ℕ → World → Option Error × World
  pub read : ℕ → World → Reading × World
  pub now : World → ℕ × World
  pub sleep : ℕ → World → World
  pub close : World → Option Error × World

-- `type Logger struct`
pub record Session (W : Type 0) : Type 0 where
  pub world : W
  pub protocol : ℕ

abbrev pub Action : Type 0 → Type 0 → Type 0
Action W A = Step (Session W) A

unfoldable pub set_protocol : {W : Type 0} → ℕ → Action W (Unit {0})
set_protocol p s = (ok tt, record s { protocol = p })

abbrev pub nil_or : Option Error → Result (Unit {0})
nil_or none = ok tt
nil_or (some e) = err e

-- The calls of the interface, on a session.
module _ (T : Transport) where
  abbrev pub World : Type 0
  World = T.World

  unfoldable pub write : List ℕ → Action T.World (Unit {0})
  write b s = let (e, w) = T.write b s.world in (nil_or e, record s { world = w })

  unfoldable pub read : ℕ → Action T.World Reading
  read timeout s = let (r, w) = T.read timeout s.world in (ok r, record s { world = w })

  unfoldable pub now : Action T.World ℕ
  now s = let (t, w) = T.now s.world in (ok t, record s { world = w })

  unfoldable pub sleep : ℕ → Action T.World (Unit {0})
  sleep d s = (ok tt, record s { world = T.sleep d s.world })

  unfoldable pub close : Action T.World (Unit {0})
  close s = let (e, w) = T.close s.world in (nil_or e, record s { world = w })
