-- ===== src/Web/Site/Invariants.antt =====
-- internal/web/web.go: what the handlers keep, if the calls of `Loggers` keep it. `Configure` is
-- asked about only where the settings and the confirmed count are allowed.
use go_elite_log.Base.{
  ℕ, ◌≡◌, ◌⊎◌, inl, inr, arith, true, false, not, ◌&&◌, Option, none, some, List, ltb, Bool-cases,
}
use go_elite_log.Base.Int.{ℤ, pos}
use go_elite_log.Base.Result.{ok, Error, no_logger}
use go_elite_log.Base.Step.{Step, Outcome, got, lost}
use go_elite_log.Base.Step.Preserve.{
  Keeps, Any, Got, Keeps-bind, Keeps-lift, Keeps-lift_value, Keeps-raise, Keeps-pure, Keeps-attempt,
  Keeps-if, Keeps-option, Keeps-outcome,
}
use go_elite_log.Text.{Text}
use go_elite_log.Record.{Sample}
use go_elite_log.Hid.{Device}
use go_elite_log.Logger.Identity.{DeviceInfo}
use go_elite_log.Logger.Configure.{Settings}
use go_elite_log.Web.Form.{is_confirmed}
use go_elite_log.Web.Site.{
  Response, Notice, problem, asking, said, told, told_after, ask_configure, ask_start, Request,
  Call, all_values, last_of, settings_of_form, settings_to_start, first_device, records_of,
  home_device, home, load_records, info_or_zero, records_page, configured, configure_device,
  with_device, interval_of, post_configure, start_device, post_start, monitor_device, get_monitor,
  get_csv,
}
use go_elite_log.Loggers.{Loggers, Keeping, first_of, all_or_error}

module _ (S : Loggers) (trim_space : Text → Text) (Inv : S.World → Type 0)
    (Fine : DeviceInfo → Type 0) (Allowed : Settings → ℕ → Type 0)
    (K : Keeping S Inv Fine Allowed) where
  of_first_device : Keeps Inv Any (first_device S trim_space)
  unfolding first_device
  of_first_device = Keeps-bind Inv K.finding (λ ds u. Keeps-pure Inv (first_of ds))

  of_records_of : (dev : Device) (last : ℤ) → Keeps Inv Any (records_of S trim_space dev last)
  unfolding records_of
  of_records_of dev last =
      Keeps-bind Inv (K.recording dev last) (λ r u. Keeps-lift Inv (all_or_error r))

  of_home_device : (dev : Device) → Keeps Inv Any (home_device S trim_space dev)
  unfolding home_device
  of_home_device dev = Keeps-bind Inv (Keeps-attempt Inv (K.informing dev)) (λ r p.
      Keeps-outcome Inv r p (λ e. Keeps-pure Inv _)
        (λ i q.
          Keeps-if Inv _
            (Keeps-bind Inv (Keeps-attempt Inv (of_records_of dev (pos 6)))
              (λ recs u. Keeps-pure Inv _))
            (Keeps-pure Inv _)))

  of_home : (n : Notice) → Keeps Inv Any (home S trim_space n)
  unfolding home
  of_home n = Keeps-bind Inv (Keeps-attempt Inv of_first_device) (λ d p.
      Keeps-bind Inv
        (Keeps-outcome Inv d p (λ e. Keeps-pure Inv _)
          (λ o u. Keeps-option Inv o (Keeps-pure Inv _) of_home_device))
        (λ body u. Keeps-pure Inv _))

  of_load_records : (r : Request) → Keeps Inv Any (load_records S trim_space r)
  unfolding load_records
  of_load_records r =
      Keeps-bind Inv of_first_device (λ d p.
        Keeps-option Inv d (Keeps-raise Inv no_logger) (λ dev. of_records_of dev (last_of r)))

  of_info_or_zero : Keeps Inv Any (info_or_zero S trim_space)
  unfolding info_or_zero
  of_info_or_zero = Keeps-bind Inv (Keeps-attempt Inv of_first_device) (λ d p.
      Keeps-outcome Inv d p (λ e. Keeps-pure Inv _)
        (λ o u.
          Keeps-option Inv o (Keeps-pure Inv _) (λ dev.
            Keeps-bind Inv (Keeps-attempt Inv (K.informing dev)) (λ i q. Keeps-pure Inv _))))

  of_records_page : (r : Request) (n : Notice) → Keeps Inv Any (records_page S trim_space r n)
  unfolding records_page
  of_records_page r n = Keeps-bind Inv (Keeps-attempt Inv (of_load_records r)) (λ recs p.
      Keeps-bind Inv
        (Keeps-outcome Inv recs p (λ e. Keeps-pure Inv _)
          (λ xs u. Keeps-bind Inv of_info_or_zero (λ i v. Keeps-pure Inv _)))
        (λ body u. Keeps-pure Inv _))

  of_configured :
      (dev : Device) (set : Settings) (confirmed : ℕ) (failed : Error → Call S trim_space Response)
      (target : _)
      → Allowed set confirmed
      → ((e : Error) → Keeps Inv Any (failed e))
      → Keeps Inv Any (configured S trim_space dev set confirmed failed target)
  unfolding configured
  of_configured dev set confirmed failed target a hf =
      Keeps-bind Inv
        (Keeps-attempt Inv (
          Keeps-bind Inv (K.configuring dev set confirmed a)
            (λ x u. Keeps-lift Inv (all_or_error x))))
        (λ r p. Keeps-outcome Inv r p hf (λ i u. Keeps-pure Inv _))

  of_with_device :
      (missing : Call S trim_space Response) (use_it : Device → Call S trim_space Response)
      (d : Outcome (Option Device))
      → Keeps Inv Any missing
      → ((dev : Device) → Keeps Inv Any (use_it dev))
      → Keeps Inv Any (with_device S trim_space missing use_it d)
  of_with_device missing use_it (got (some dev)) hm hu = hu dev
  of_with_device missing use_it (got none) hm hu = hm
  of_with_device missing use_it (lost e) hm hu = hm

  of_configure_device :
      (r : Request) (interval : ℕ) (dev : Device) (i : DeviceInfo)
      → ((i.record_count ≡ 0) ⊎ (is_confirmed (all_values r) ≡ true)
          → Allowed (settings_of_form r interval) i.record_count)
      → Keeps Inv Any (configure_device S trim_space r interval dev i)
  unfolding configure_device
  of_configure_device r interval dev i a =
      elim (Bool-cases (ltb 0 i.record_count && not (is_confirmed (all_values r)))) [
        | inl ask ↦ rw ask (of_home (asking (ask_configure r)))
        | inr go_on ↦ rw go_on (
            of_configured dev (settings_of_form r interval) i.record_count _ _ (a (ground arith))
              (λ e. of_home (problem (told_after "Configure failed: " e))))
      ]

  -- A `configure` keeps the invariant, if what an accepted form asks for is allowed.
  pub of_post_configure :
      (r : Request)
      → ((interval : ℕ) (i : DeviceInfo)
          → interval_of S trim_space r ≡ ok interval
          → Fine i
          → (i.record_count ≡ 0) ⊎ (is_confirmed (all_values r) ≡ true)
          → Allowed (settings_of_form r interval) i.record_count)
      → Keeps Inv Any (post_configure S trim_space r)
  unfolding post_configure
  of_post_configure r a =
      Keeps-option Inv r.form_error
        (Keeps-bind Inv
          (Keeps-attempt Inv (
            Keeps-lift_value Inv (λ interval. interval_of S trim_space r ≡ ok interval)
              (interval_of S trim_space r) (λ interval e. e)))
          (λ parsed p.
            Keeps-outcome Inv parsed p (λ e. of_home (problem (told e)))
              (λ interval e. Keeps-bind Inv (Keeps-attempt Inv of_first_device) (λ d u.
                of_with_device _ _ d (of_home (problem (said "No logger found."))) (λ dev.
                  Keeps-bind Inv (Keeps-attempt Inv (K.informing dev)) (λ o fine.
                    Keeps-outcome Inv o fine (λ x. of_home (problem (told x)))
                      (λ i f. of_configure_device r interval dev i (a interval i e f))))))))
        (λ e. of_home (problem (told_after "bad form: " e)))

  of_start_device :
      (r : Request) (dev : Device) (i : DeviceInfo)
      → ((i.count_known ≡ false) ⊎ ((i.record_count ≡ 0) ⊎ (is_confirmed (all_values r) ≡ true))
          → Allowed (settings_to_start i) i.record_count)
      → Keeps Inv Any (start_device S trim_space r dev i)
  unfolding start_device
  of_start_device r dev i a =
      elim (Bool-cases
        (i.count_known && (ltb 0 i.record_count && not (is_confirmed (all_values r))))) [
          | inl ask ↦ rw ask (of_records_page r (asking (ask_start r)))
          | inr go_on ↦ rw go_on (
              of_configured dev (settings_to_start i) i.record_count _ _ (a (ground arith))
                (λ e. of_records_page r (problem (told_after "Start failed: " e))))
        ]

  -- So does a `start`.
  pub of_post_start :
      (r : Request)
      → ((i : DeviceInfo)
          → Fine i
          → (i.count_known ≡ false) ⊎ ((i.record_count ≡ 0) ⊎ (is_confirmed (all_values r) ≡ true))
          → Allowed (settings_to_start i) i.record_count)
      → Keeps Inv Any (post_start S trim_space r)
  unfolding post_start
  of_post_start r a = Keeps-bind Inv (Keeps-attempt Inv of_first_device) (λ d u.
      of_with_device _ _ d (of_records_page r (problem (said "No logger found."))) (λ dev.
        Keeps-bind Inv (Keeps-attempt Inv (K.informing dev)) (λ o fine.
          Keeps-outcome Inv o fine (λ x. of_records_page r (problem (told x)))
            (λ i f. of_start_device r dev i (a i f)))))

  of_monitor_device : (dev : Device) → Keeps Inv Any (monitor_device S trim_space dev)
  unfolding monitor_device
  of_monitor_device dev = Keeps-bind Inv (Keeps-attempt Inv (K.informing dev)) (λ r p.
      Keeps-outcome Inv r p (λ e. Keeps-pure Inv _)
        (λ i q.
          Keeps-bind Inv
            (Keeps-if Inv _ (weaken (Keeps-attempt Inv (K.recording dev (pos 6))))
              (Keeps-pure Inv _))
            (λ latest u. Keeps-pure Inv _)))
    where
      weaken :
          {m : Step S.World (Outcome (List Sample × Option Error))}
          → Keeps Inv (Got Any) m
          → Keeps Inv Any m
      weaken (Keeps.keeps k) = Keeps.keeps (λ s h. ((k s h).0, λ a e. tt))

  -- The pages that are only shown ask for no `Configure`.
  pub of_pages :
      (r : Request) (n : Notice)
      → Keeps Inv Any (home S trim_space n)
        × Keeps Inv Any (records_page S trim_space r n)
        × Keeps Inv Any (get_monitor S trim_space)
        × Keeps Inv Any (get_csv S trim_space r)
  unfolding get_monitor get_csv
  of_pages r n = (
    of_home n,
    of_records_page r n,
    Keeps-bind Inv (Keeps-attempt Inv of_first_device) (λ d p.
        Keeps-bind Inv
          (Keeps-outcome Inv d p (λ e. Keeps-pure Inv _)
            (λ o u. Keeps-option Inv o (Keeps-pure Inv _) of_monitor_device))
          (λ body u. Keeps-pure Inv _)),
    Keeps-bind Inv (Keeps-attempt Inv (of_load_records r)) (λ recs p. Keeps-pure Inv _),
  )
