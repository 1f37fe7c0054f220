-- ===== src/Web/Site.antt =====
-- internal/web/web.go: the handlers, over the interface `Loggers`. A page is a list of blocks, each
-- with what it shows; markup, charts and the lock around the rendering are left out.
pub mod Invariants
pub mod Guarded
pub mod Pages
pub use Pages.*
use go_elite_log.Base.{
  ℕ, ◌*◌, Bool, true, false, not, ◌&&◌, ◌||◌, Option, none, some, List, [], ◌∷◌, ◌++◌, ltb, leb,
  ◌==◌, if◌then◌else◌, option_or,
}
use go_elite_log.Base.Int.{ℤ, pos, negsuc}
use go_elite_log.Base.Result.{Result, ok, err, Error, no_logger, stop_unacknowledged, guard}
use go_elite_log.Base.Step.{
  Step, Outcome, got, lost, outcome_or, pure, raise, lift, attempt, ◌>>=◌, ◌>>◌,
}
use go_elite_log.Calendar.{minute, zero_time}
use go_elite_log.Text.{Text, codes, atoi, atoi_ok}
use go_elite_log.Record.{Sample}
use go_elite_log.Info.{StartSettings, no_status}
use go_elite_log.Hid.{Device}
use go_elite_log.Logger.Identity.{DeviceInfo}
use go_elite_log.Logger.Configure.{Settings}
use go_elite_log.Web.{parse_interval, Headline, recording_state}
use go_elite_log.Web.Form.{Values, form_value, is_filled, is_confirmed, confirm_fields, Confirm}
use Prim.Native.String.{String}
use go_elite_log.Loggers.{Loggers, first_of, all_or_error}

module _ (S : Loggers) (trim_space : Text → Text) where
  abbrev pub Call : Type 0 → Type 0
  Call A = Step S.World A

  -- `site.firstDevice`
  unfoldable pub first_device : Call (Option Device)
  first_device = do ds ← S.find; pure (first_of ds)

  -- `s.loggers.Records(dev, last)` where an error hides the records.
  unfoldable pub records_of : Device → ℤ → Call (List Sample)
  records_of dev last = do r ← S.records dev last; lift (all_or_error r)

  abbrev pub latest_block : DeviceInfo → Outcome (List Sample) → List Block
  latest_block i (got recs) = latest_reading recs i.fahrenheit ∷ []
  latest_block i (lost e) = warning (told_after "Could not read the latest record: " e) ∷ []

  -- `site.home` below the notice, once there is a device.
  unfoldable pub home_device : Device → Call (List Block)
  unfolding records_of
  home_device dev = do
    r ← attempt (S.info dev)
    outcome_or (λ e. pure (device_error dev e ∷ []))
        (λ i.
          if i.count_known && ltb 0 i.record_count
          then (do
            recs ← attempt (records_of dev (pos 6))
            pure (device_facts dev i ∷ (latest_block i recs ++ (settings_form i ∷ []))))
          else pure (device_facts dev i ∷ settings_form i ∷ []))
        r

  -- `site.home`
  unfoldable pub home : Notice → Call Response
  unfolding first_device home_device
  home n = do
    d ← attempt first_device
    body ←
        outcome_or (λ e. pure (danger (told_after "Scanning USB failed: " e) ∷ []))
          (λ o. option_or (pure (warning (said "No Elitech logger found.") ∷ [])) home_device o) d
    pure (page "Elitech logger" 0 (notice_blocks n ++ body))

  -- `site.loadRecords`
  unfoldable pub load_records : Request → Call (List Sample)
  unfolding first_device records_of
  load_records r = do
    d ← first_device
    option_or (raise no_logger) (λ dev. records_of dev (last_of r)) d

  -- The `Info` of `site.recordsPage`, whose errors are dropped.
  unfoldable pub info_or_zero : Call DeviceInfo
  unfolding first_device
  info_or_zero = do
    d ← attempt first_device
    outcome_or (λ e. pure no_info)
        (λ o.
          option_or (pure no_info)
            (λ dev. do i ← attempt (S.info dev); pure (outcome_or (λ e. no_info) (λ x. x) i)) o)
        d

  abbrev pub records_blocks : Request → DeviceInfo → List Sample → List Block
  records_blocks r i [] =
      recording_controls i ∷ links (last_of r) ∷ warning (said "The logger holds no records.") ∷ []
  records_blocks r i (x ∷ xs) =
      recording_controls i ∷ links (last_of r) ∷ record_table (x ∷ xs) i.fahrenheit ∷ []

  -- `site.recordsPage`
  unfoldable pub records_page : Request → Notice → Call Response
  unfolding load_records info_or_zero
  records_page r n = do
    recs ← attempt (load_records r)
    body ←
        outcome_or (λ e. pure (danger (told e) ∷ []))
          (λ xs. do i ← info_or_zero; pure (records_blocks r i xs)) recs
    pure (page "Records" (records_refresh_of n) (notice_blocks n ++ body))

  -- `if _, err := s.loggers.Configure(…); err != nil { … }`
  unfoldable pub configured :
      Device → Settings → ℕ → (Error → Call Response) → String → Call Response
  configured dev set confirmed failed target = do
    r ← attempt (do x ← S.configure dev set confirmed; lift (all_or_error x))
    outcome_or failed (λ i. pure (see_other target)) r

  -- `site.configure` once the form is read, there is a device and it has told its state.
  unfoldable pub configure_device : Request → ℕ → Device → DeviceInfo → Call Response
  unfolding configured home
  configure_device r interval dev i =
      if ltb 0 i.record_count && not (is_confirmed (all_values r))
      then home (asking (ask_configure r))
      else configured dev (settings_of_form r interval) i.record_count
          (λ e. home (problem (told_after "Configure failed: " e))) "/"

  -- What stands where `s.firstDevice()` finds none, or fails.
  abbrev pub with_device :
      Call Response → (Device → Call Response) → Outcome (Option Device) → Call Response
  with_device missing use_it (got (some dev)) = use_it dev
  with_device missing use_it (got none) = missing
  with_device missing use_it (lost e) = missing

  abbrev pub interval_of : Request → Result ℕ
  interval_of r =
      parse_interval trim_space atoi_ok (value_of r "interval_minutes")
        (value_of r "interval_seconds")

  -- `site.configure`
  unfoldable pub post_configure : Request → Call Response
  unfolding configure_device first_device home
  post_configure r =
      option_or
        (do
          parsed ← attempt (lift (interval_of r))
          outcome_or (λ e. home (problem (told e)))
              (λ interval. do
                d ← attempt first_device
                with_device (home (problem (said "No logger found.")))
                    (λ dev. do
                      i ← attempt (S.info dev)
                      outcome_or (λ e. home (problem (told e))) (configure_device r interval dev) i)
                    d)
              parsed)
        (λ e. home (problem (told_after "bad form: " e))) r.form_error

  -- `site.start` once there is a device and it has told its state.
  unfoldable pub start_device : Request → Device → DeviceInfo → Call Response
  unfolding configured records_page
  start_device r dev i =
      if i.count_known && (ltb 0 i.record_count && not (is_confirmed (all_values r)))
      then records_page r (asking (ask_start r))
      else configured dev (settings_to_start i) i.record_count
          (λ e. records_page r (problem (told_after "Start failed: " e))) "/records"

  -- `site.start`
  unfoldable pub post_start : Request → Call Response
  unfolding start_device first_device records_page
  post_start r = do
    d ← attempt first_device
    with_device (records_page r (problem (said "No logger found.")))
        (λ dev. do
          i ← attempt (S.info dev)
          outcome_or (λ e. records_page r (problem (told e))) (start_device r dev) i)
        d

  -- `site.stop`
  unfoldable pub post_stop : Request → Call Response
  unfolding first_device records_page
  post_stop r = do
    d ← attempt first_device
    with_device (records_page r (problem (said "No logger found.")))
        (λ dev. do
          x ← attempt (S.stop dev)
          outcome_or (λ e. records_page r (problem (stop_message e)))
              (λ u. pure (see_other "/records")) x)
        d

  -- `site.recordsCSV`
  unfoldable pub get_csv : Request → Call Response
  unfolding load_records
  get_csv r = do recs ← attempt (load_records r); pure (outcome_or unavailable csv recs)

  -- `latest, _ = s.loggers.Records(dev, 6)`, whose error is dropped and not its records.
  abbrev pub latest_or_none : Outcome (List Sample × Option Error) → List Sample
  latest_or_none (got (recs, e)) = recs
  latest_or_none (lost e) = []

  -- `site.monitor` once there is a device.
  unfoldable pub monitor_device : Device → Call (List Block)
  monitor_device dev = do
    r ← attempt (S.info dev)
    outcome_or (λ e. pure (state_text "Not responding" (told e) ∷ []))
        (λ i. do
          latest ←
              if i.count_known && ltb 0 i.record_count
              then attempt (S.records dev (pos 6))
              else pure (got ([], none))
          pure (
              state_box (recording_state i)
              ∷ latest_reading (latest_or_none latest) i.fahrenheit
              ∷ monitor_facts i
              ∷ []))
        r

  -- `site.monitor`
  unfoldable pub get_monitor : Call Response
  unfolding first_device monitor_device
  get_monitor = do
    d ← attempt first_device
    body ←
        outcome_or (λ e. pure (state_text "Scan failed" (told e) ∷ []))
          (λ o.
            option_or (pure (state_text "Unplugged" (said "No Elitech logger on USB.") ∷ []))
              monitor_device o)
          d
    pure (page "Monitor" monitor_refresh body)
