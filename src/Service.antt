-- ===== src/Service.antt =====
-- internal/elitech/service.go: one complete operation for each call, which opens and closes the
-- device. `Open` asks the operating system, so it is a parameter beside the transport; the zero
-- `Logger` that it returns has read no protocol byte yet.
pub mod Closed
pub mod Counted
pub mod Csv
pub mod Guarded
pub mod Termination
pub mod Verified
use go_elite_log.Base.{ℕ, ◌*◌, Option, none, some, List, [], ◌∷◌}
use go_elite_log.Base.Int.{ℤ}
use go_elite_log.Base.Result.{Result, ok, err, panicked, stuck, Error, not_persisted}
use go_elite_log.Calendar.{second}
use go_elite_log.Record.{Sample}
use go_elite_log.Logger.Transport.{Transport, World, Session, Action}
use go_elite_log.Logger.Identity.{DeviceInfo, info}
use go_elite_log.Logger.Download.{records}
use go_elite_log.Logger.Configure.{Settings, Problem, configure, stop, verify_settings}

-- The error of `VerifySettings`.
abbrev pub verify_error : List Problem → Option Error
verify_error [] = none
verify_error (p ∷ ps) = some not_persisted

module _ (T : Transport) (open_device : World T → Option Error × World T) where
  abbrev pub Call : Type 0 → Type 0
  Call A = World T → Result A × World T

  abbrev pub fresh : World T → Session (World T)
  fresh w = record { world = w; protocol = 0 }

  -- `defer l.Close()`, whose error is dropped.
  abbrev pub closing : {A : Type 0} → Result A × Session (World T) → Result A × World T
  closing (r, s) = (r, (T.close s.world).1)

  -- What follows an `Open`.
  abbrev pub if_opened : {A : Type 0} → Call A → Option Error × World T → Result A × World T
  if_opened f (none, w) = f w
  if_opened f (some e, w) = (err e, w)

  unfoldable pub with_logger : {A : Type 0} → Action (World T) A → Call A
  with_logger m w = if_opened (λ w'. closing (m (fresh w'))) (open_device w)

  -- `Service.Info`, `Service.Records` and `Service.Stop`
  unfoldable pub service_info : Call DeviceInfo
  service_info = with_logger (info T)

  unfoldable pub service_records : ℤ → Call (List Sample × Option Error)
  service_records last = with_logger (records T last)

  unfoldable pub service_stop : Call (Unit {0})
  service_stop = with_logger (stop T)

  abbrev pub with_verdict : Settings → Result DeviceInfo → Result (DeviceInfo × Option Error)
  with_verdict set (ok i) = ok (i, verify_error (verify_settings i set))
  with_verdict set (err e) = err e
  with_verdict set panicked = panicked
  with_verdict set stuck = stuck

  -- What follows the call of `Logger.Configure`: closed after an error, and otherwise opened
  -- again after a second to read what was written.
  abbrev pub read_back :
      Settings
      → Result (Unit {0}) × Session (World T)
      → Result (DeviceInfo × Option Error) × World T
  read_back set (ok u, s) =
      let (r, w) = service_info (T.sleep second s.world) in (with_verdict set r, w)
  read_back set (err e, s) = (err e, (T.close s.world).1)
  read_back set (panicked, s) = (panicked, s.world)
  read_back set (stuck, s) = (stuck, s.world)

  -- `Service.Configure`, an `Info` with the error of `VerifySettings`.
  unfoldable pub service_configure : Settings → ℕ → Call (DeviceInfo × Option Error)
  unfolding service_info
  service_configure set confirmed w =
      if_opened (λ w'. read_back set (configure T set confirmed (fresh w'))) (open_device w)
