-- ===== src/Service/Termination.antt =====
-- internal/elitech/service.go: whether `Configure` returns.
use go_elite_log.Base.{ℕ, ◌≢◌, refl, Option, none, some}
use go_elite_log.Base.Result.{Result, ok, err, panicked, stuck, Error}
use go_elite_log.Calendar.{second}
use go_elite_log.Logger.Transport.{Transport, World, Session, Action}
use go_elite_log.Logger.Identity.{DeviceInfo, info}
use go_elite_log.Logger.Configure.{Settings, configure}
use go_elite_log.Logger.Logic.Ending.{Ticking}
use go_elite_log.Logger.Termination.{info_ends, configure_ends}
use go_elite_log.Service.{
  fresh, closing, if_opened, with_verdict, read_back, with_logger, service_info, service_configure,
}

module _ (T : Transport) (open_device : World T → Option Error × World T) (clock : World T → ℕ)
    (tick : Ticking T clock) where
  if_opened_ends :
      (A : Type 0) (m : Action (World T) A)
      → ((s : Session (World T)) → (m s).0 ≢ stuck)
      → (o : Option Error × World T)
      → (if_opened T open_device (λ w. closing T open_device (m (fresh T open_device w))) o).0
        ≢ stuck
  if_opened_ends A m h (none, w) q = h (fresh T open_device w) q
  if_opened_ends A m h (some e, w) q = cc

  service_info_ends : (w : World T) → (service_info T open_device w).0 ≢ stuck
  unfolding service_info with_logger
  service_info_ends w = if_opened_ends _ (info T) (info_ends T clock tick) (open_device w)

  with_verdict-ne-stuck :
      (set : Settings) (r : Result DeviceInfo)
      → r ≢ stuck
      → with_verdict T open_device set r ≢ stuck
  with_verdict-ne-stuck set (ok i) h e = cc
  with_verdict-ne-stuck set (err x) h e = cc
  with_verdict-ne-stuck set panicked h e = cc
  with_verdict-ne-stuck set stuck h e = h refl

  read_back_ends :
      (set : Settings) (r : Result (Unit {0})) (s : Session (World T))
      → r ≢ stuck
      → (read_back T open_device set (r, s)).0 ≢ stuck
  read_back_ends set (ok u) s h e =
      with_verdict-ne-stuck set (service_info T open_device (T.sleep second s.world)).0
        (service_info_ends (T.sleep second s.world)) e
  read_back_ends set (err x) s h e = cc
  read_back_ends set panicked s h e = cc
  read_back_ends set stuck s h e = h refl

  by_opening :
      (set : Settings) (confirmed : ℕ) (o : Option Error × World T)
      → (if_opened T open_device
          (λ w. read_back T open_device set (configure T set confirmed (fresh T open_device w)))
          o).0
        ≢ stuck
  by_opening set confirmed (none, w) q =
      read_back_ends set (configure T set confirmed (fresh T open_device w)).0
        (configure T set confirmed (fresh T open_device w)).1
        (configure_ends T clock tick set confirmed (fresh T open_device w)) q
  by_opening set confirmed (some e, w) q = cc

  -- `Service.Configure` ends on any transport whose clock does not go back and whose reads each
  -- take some time.
  pub service_configure_ends :
      (set : Settings) (confirmed : ℕ) (w : World T)
      → (service_configure T open_device set confirmed w).0 ≢ stuck
  unfolding service_configure
  service_configure_ends set confirmed w = by_opening set confirmed (open_device w)
