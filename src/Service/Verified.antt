-- ===== src/Service/Verified.antt =====
-- internal/elitech/service.go: what the `Info` of a `Configure` without an error says.
use go_elite_log.Base.{ℕ, ◌≡◌, refl, Option, none, some, List, [], ◌∷◌}
use go_elite_log.Base.Result.{Result, ok, err, panicked, stuck, Error}
use go_elite_log.Calendar.{second}
use go_elite_log.Logger.Transport.{Transport, World, Session}
use go_elite_log.Logger.Identity.{DeviceInfo}
use go_elite_log.Logger.Configure.{Settings, Problem, configure, wanted_mode, verify_settings}
use go_elite_log.Logger.Written.{verify_settings_iff}
use go_elite_log.Service.{
  verify_error, fresh, if_opened, with_verdict, read_back, service_info, service_configure,
}

module _ (T : Transport) (open_device : World T → Option Error × World T) (set : Settings) where
  -- The settings of an `Info` are those that were asked for.
  abbrev pub Agrees : DeviceInfo → Type 0
  Agrees i =
      (i.interval ≡ set.interval)
      × (i.start.mode ≡ wanted_mode set)
      × (i.start.button_stop ≡ set.button_stop)
      × (i.start.software_stop ≡ set.software_stop)

  no_error : (ps : List Problem) → verify_error ps ≡ none → ps ≡ []
  no_error [] e = refl
  no_error (p ∷ ps) e = cc

  with_verdict-ok :
      (r : Result DeviceInfo) {i : DeviceInfo}
      → with_verdict T open_device set r ≡ ok (i, none)
      → Agrees i
  with_verdict-ok (ok j) {i} e =
      let same : j ≡ i = cc in
      let fine : verify_error (verify_settings j set) ≡ none = cc in
      (verify_settings_iff i set).0 (rw (← same) (no_error (verify_settings j set) fine))
  with_verdict-ok (err x) e = cc
  with_verdict-ok panicked e = cc
  with_verdict-ok stuck e = cc

  read_back-ok :
      (r : Result (Unit {0})) (s : Session (World T)) {i : DeviceInfo}
      → (read_back T open_device set (r, s)).0 ≡ ok (i, none)
      → (r ≡ ok tt) × Agrees i
  read_back-ok (ok u) s e =
      (refl, with_verdict-ok (service_info T open_device (T.sleep second s.world)).0 e)
  read_back-ok (err x) s e = cc
  read_back-ok panicked s e = cc
  read_back-ok stuck s e = cc

  service_opened :
      (confirmed : ℕ) (o : Option Error × World T) {i : DeviceInfo}
      → (if_opened T open_device
          (λ w. read_back T open_device set (configure T set confirmed (fresh T open_device w)))
          o).0
        ≡ ok (i, none)
      → ((configure T set confirmed (fresh T open_device o.1)).0 ≡ ok tt) × Agrees i
  service_opened confirmed (none, w) e =
      read_back-ok (configure T set confirmed (fresh T open_device w)).0
        (configure T set confirmed (fresh T open_device w)).1 e
  service_opened confirmed (some x, w) e = cc

  -- If `Service.Configure` returns an `Info` without an error, then `Logger.Configure` has
  -- succeeded and the interval, the start mode and both stop bits of that `Info` are those of the
  -- settings.
  pub service_configure_verified :
      (confirmed : ℕ) (w : World T) {i : DeviceInfo}
      → (service_configure T open_device set confirmed w).0 ≡ ok (i, none)
      → ((configure T set confirmed (record { world = (open_device w).1; protocol = 0 })).0 ≡ ok tt)
        × Agrees i
  unfolding service_configure
  service_configure_verified confirmed w e = service_opened confirmed (open_device w) e
