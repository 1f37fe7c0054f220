-- ===== src/Loggers.antt =====
-- internal/web/web.go: the interface `Loggers`, and the service of internal/elitech/service.go as
-- what implements it, with the scan of the USB devices.
pub mod Guarded
use go_elite_log.Base.{ℕ, Option, none, some, [], ◌∷◌}
use go_elite_log.Base.Int.{ℤ}
use go_elite_log.Base.Result.{Result, ok, err, Error}
use go_elite_log.Base.Step.{Step}
use go_elite_log.Base.Step.Preserve.{Keeps, Any}
use go_elite_log.Base.{List}
use go_elite_log.Record.{Sample}
use go_elite_log.Text.{Text}
use go_elite_log.Hid.{Device, Tree, enumerate, vendor_elitech, product_logger}
use go_elite_log.Logger.Transport.{Transport, World}
use go_elite_log.Logger.Identity.{DeviceInfo}
use go_elite_log.Logger.Configure.{Settings}
use go_elite_log.Service.{service_info, service_records, service_stop, service_configure}

-- `type Loggers interface`. `Records` hands over records also with an error.
pub record Loggers : Type 1 where
  pub World : Type 0
  pub find : Step World (List Device)
  pub info : Device → Step World DeviceInfo
  pub records : Device → ℤ → Step World (List Sample × Option Error)
  pub configure : Device → Settings → ℕ → Step World (DeviceInfo × Option Error)
  pub stop : Device → Step World (Unit {0})

abbrev pub first_of : List Device → Option Device
first_of [] = none
first_of (d ∷ ds) = some d

-- An error that comes with a value, as an error alone, and the other way round.
abbrev pub all_or_error : {A : Type 0} → A × Option Error → Result A
all_or_error (a, none) = ok a
all_or_error (a, some e) = err e

-- `Service.Find`, and the service as what the site asks.
module _ (T : Transport) (open_device : Device → World T → Option Error × World T) (dev_root : Text)
    (tree : World T → Tree) where
  unfoldable pub service_find : Step (World T) (List Device)
  unfolding enumerate
  service_find w = (enumerate dev_root (tree w) vendor_elitech product_logger, w)

  abbrev pub service_loggers : Loggers
  service_loggers = record {
    World = World T;
    find = service_find;
    info = λ dev. service_info T (open_device dev);
    records = λ dev. service_records T (open_device dev);
    configure = λ dev. service_configure T (open_device dev);
    stop = λ dev. service_stop T (open_device dev);
  }

-- What each call keeps. `Fine` is what an `Info` that is returned satisfies, and `Allowed` the
-- settings and the confirmed count that `Configure` is asked about.
pub record Keeping (S : Loggers) (Inv : S.World → Type 0) (Fine : DeviceInfo → Type 0)
    (Allowed : Settings → ℕ → Type 0) : Type 0 where
  pub finding : Keeps Inv Any S.find
  pub informing : (dev : Device) → Keeps Inv Fine (S.info dev)
  pub recording : (dev : Device) (last : ℤ) → Keeps Inv Any (S.records dev last)
  pub configuring :
      (dev : Device) (set : Settings) (confirmed : ℕ)
      → Allowed set confirmed
      → Keeps Inv Any (S.configure dev set confirmed)
