-- ===== src/Service/Closed.antt =====
-- internal/elitech/service.go: which devices the calls leave open.
use go_elite_log.Base.{ℕ, ◌+◌, ◌-◌, ◌≤◌, ◌≡◌, ◌≢◌, refl, ap, ◌∙◌, arith, Option, none, some, List}
use go_elite_log.Base.Int.{ℤ}
use go_elite_log.Base.Result.{Result, ok, err, panicked, stuck, Error}
use go_elite_log.Calendar.{second}
use go_elite_log.Frame.{op_format}
use go_elite_log.Logger.Transport.{
  Transport, World, Session, Action, close, ◌>>=◌, >>=-eq-ok, >>=_state,
}
use go_elite_log.Logger.Exchange.{timeout_command}
use go_elite_log.Logger.Identity.{info}
use go_elite_log.Logger.Download.{records}
use go_elite_log.Logger.Configure.{
  Settings, configure, commit, format, stop, hold_after_format, config_blocks,
}
use go_elite_log.Logger.Logic.{Logic}
use go_elite_log.Logger.Logic.Stable.{Stable, stable_logic, may_send, keeps}
use go_elite_log.Logger.Logic.Methods.{
  of_drain, of_read_report, of_prime, of_read_capacity_count, of_require, of_info,
  may_erase-ne-stuck,
}
use go_elite_log.Logger.Logic.Methods.Records.{of_records}
use go_elite_log.Logger.Logic.Methods.Changing.{
  of_read_blocks, of_clock_if, of_write_blocks, of_configure, of_stop,
}
use go_elite_log.Logger.Panics.Packets.{never_panics}
use go_elite_log.Service.{
  fresh, closing, if_opened, read_back, with_logger, service_info, service_records, service_stop,
  service_configure,
}

-- `held` is the number of open devices: only opening and closing change it.
pub record Handles (T : Transport) (open_device : World T → Option Error × World T)
    (held : World T → ℕ) : Type 0 where
  pub opens : (w : World T) → (open_device w).0 ≡ none → held (open_device w).1 ≡ held w + 1
  pub refuses :
      (w : World T) (e : Error) → (open_device w).0 ≡ some e → held (open_device w).1 ≡ held w
  pub closes : (w : World T) → held (T.close w).1 ≡ held w - 1
  pub reading : (wait : ℕ) (w : World T) → held (T.read wait w).1 ≡ held w
  pub timing : (w : World T) → held (T.now w).1 ≡ held w
  pub sleeping : (d : ℕ) (w : World T) → held (T.sleep d w) ≡ held w
  pub writing : (b : List ℕ) (w : World T) → held (T.write b w).1 ≡ held w

module _ (T : Transport) (open_device : World T → Option Error × World T) (held : World T → ℕ)
    (handles : Handles T open_device held) where
  Any : List ℕ → Type 0
  Any b = Unit {0}

  AtMostOne : World T → Type 0
  AtMostOne w = held w ≤ 1

  at_most_one : Stable T Any AtMostOne
  unfolding AtMostOne
  at_most_one = record {
    reading = λ wait w h. omega (arith, handles.reading wait w);
    timing = λ w h. omega (arith, handles.timing w);
    sleeping = λ d w h. omega (arith, handles.sleeping d w);
    closing = λ w h. omega (arith, handles.closes w);
    writing = λ b w a h. omega (arith, handles.writing b w);
  }

  one : Logic T
  one = stable_logic T Any AtMostOne at_most_one

  sends : (o : ℕ) → one.Sends o
  unfolding one Any
  sends o = may_send T Any AtMostOne at_most_one o (λ offset n payload b e. tt)

  keeps_one :
      (A : Type 0) (m : Action (World T) A)
      → one.Holds A m
      → (s : Session (World T)) → held s.world ≤ 1
      → held (m s).1.world ≤ 1
  unfolding one AtMostOne
  keeps_one A m h s le = keeps T Any AtMostOne at_most_one A m h s le

  -- A call that succeeds leaves no device open.
  Gives : (A : Type 0) → Action (World T) A → Type 0
  Gives A m =
      (s : Session (World T)) (a : A) → held s.world ≤ 1 → (m s).0 ≡ ok a → held (m s).1.world ≡ 0

  Gives-bind :
      (A B : Type 0) (m : Action (World T) A) (f : A → Action (World T) B)
      → one.Holds A m
      → ((a : A) → Gives B (f a))
      → Gives B (m >>= f)
  unfolding Gives
  Gives-bind A B m f hm hf s b le e =
      let (a, p, q) = >>=-eq-ok m f s e in
      ap (λ r. held r.1.world) (>>=_state m f s p) ∙ hf a (m s).1 b (keeps_one A m hm s le) q

  Gives-close : Gives (Unit {0}) (close T)
  unfolding Gives close
  Gives-close s a le e = omega (arith, handles.closes s.world)

  Gives-format : Gives (Unit {0}) (format T)
  unfolding format
  Gives-format = Gives-bind _ _ _ _ (of_drain T one) (λ u.
      Gives-bind _ _ _ _ (one.of_send _ _ _ _ (sends op_format)) (λ u'.
        Gives-bind _ _ _ _ (one.of_attempt _ _ (of_read_report T one timeout_command))
          (λ r. Gives-bind _ _ _ _ (one.of_sleep hold_after_format) (λ u''. Gives-close))))

  Gives-configure : (set : Settings) (confirmed : ℕ) → Gives (Unit {0}) (configure T set confirmed)
  unfolding configure commit
  Gives-configure set confirmed = Gives-bind _ _ _ _ (of_require T one _ _) (λ u.
      Gives-bind _ _ _ _ (of_prime T one (sends 3)) (λ id.
        Gives-bind _ _ _ _ (of_read_capacity_count T one (sends 3)) (λ counts.
          Gives-bind _ _ _ _ (one.of_lift _ _ (may_erase-ne-stuck T confirmed counts)) (λ u'.
            Gives-bind _ _ _ _ (of_read_blocks T one (sends 3) config_blocks) (λ blocks.
              Gives-bind _ _ _ _ (of_clock_if T one (sends 3) set.sync_clock) (λ clock.
                Gives-bind _ _ _ _
                  (of_write_blocks T one (sends 3) (sends 4) (sends op_format) config_blocks _)
                  (λ u''. Gives-format)))))))

  -- A call between an `Open` and a deferred `Close`.
  closed_after :
      (A : Type 0) (m : Action (World T) A)
      → one.Holds A m
      → (w : World T) → held w ≤ 1
      → held (closing T open_device (m (fresh T open_device w))).1 ≡ 0
  closed_after A m h w le = omega (
    arith,
    handles.closes (m (fresh T open_device w)).1.world,
    keeps_one A m h (fresh T open_device w) le,
  )

  logger_closed :
      (A : Type 0) (m : Action (World T) A)
      → one.Holds A m
      → (w : World T) → held w ≡ 0
      → held (with_logger T open_device m w).1 ≡ 0
  unfolding with_logger
  logger_closed A m h w none_held =
      by_open (open_device w) (λ p. handles.opens w p) (λ e p. handles.refuses w e p)
    where
      by_open :
          (o : Option Error × World T)
          → (o.0 ≡ none → held o.1 ≡ held w + 1)
          → ((e : Error) → o.0 ≡ some e → held o.1 ≡ held w)
          → held
              (if_opened T open_device
                (λ w'. closing T open_device (m (fresh T open_device w')))
                o).1
            ≡ 0
      by_open (none, v) ho hr = closed_after A m h v (omega (arith, ho refl))
      by_open (some e, v) ho hr = hr e refl ∙ none_held

  pub service_info_closed : (w : World T) → held w ≡ 0 → held (service_info T open_device w).1 ≡ 0
  unfolding service_info
  service_info_closed w h = logger_closed _ (info T) (of_info T one (sends 3) (sends 5)) w h

  -- On a transport that counts its open devices, with none open before, `Service.Records` leaves
  -- none open, however it ends.
  pub service_records_closed :
      (last : ℤ) (w : World T) → held w ≡ 0 → held (service_records T open_device last w).1 ≡ 0
  unfolding service_records
  service_records_closed last w h =
      logger_closed _ (records T last) (of_records T one (sends 3) (sends 5) (sends 1) last) w h

  pub service_stop_closed : (w : World T) → held w ≡ 0 → held (service_stop T open_device w).1 ≡ 0
  unfolding service_stop
  service_stop_closed w h = logger_closed _ (stop T) (of_stop T one (sends 3) (sends 0x03C0)) w h

  read_back_closed :
      (set : Settings) (r : Result (Unit {0})) (s : Session (World T))
      → held s.world ≤ 1
      → (r ≡ ok tt → held s.world ≡ 0)
      → r ≢ panicked
      → (read_back T open_device set (r, s)).0 ≢ stuck
      → held (read_back T open_device set (r, s)).1 ≡ 0
  read_back_closed set (ok u) s le done np ns =
      service_info_closed (T.sleep second s.world) (handles.sleeping second s.world ∙ done refl)
  read_back_closed set (err e) s le done np ns = omega (arith, handles.closes s.world)
  read_back_closed set panicked s le done np ns = absurd (np refl)
  read_back_closed set stuck s le done np ns = absurd (ns refl)

  configure_opened :
      (set : Settings) (confirmed : ℕ) (w : World T)
      → held w ≤ 1
      → let r = read_back T open_device set (configure T set confirmed (fresh T open_device w)) in
        r.0 ≢ stuck → held r.1 ≡ 0
  unfolding Gives
  configure_opened set confirmed w le ns =
      let m = configure T set confirmed in
      read_back_closed set (m (fresh T open_device w)).0 (m (fresh T open_device w)).1
        (keeps_one _ m (of_configure T one (sends 3) (sends 4) (sends op_format) set confirmed)
          (fresh T open_device w) le)
        (Gives-configure set confirmed (fresh T open_device w) tt le)
        ((never_panics T (fresh T open_device w)).2 set confirmed) ns

  by_opening :
      (set : Settings) (confirmed : ℕ) (o : Option Error × World T)
      → (o.0 ≡ none → held o.1 ≤ 1)
      → ((e : Error) → o.0 ≡ some e → held o.1 ≡ 0)
      → let r =
          if_opened T open_device
            (λ w. read_back T open_device set (configure T set confirmed (fresh T open_device w)))
            o in
        r.0 ≢ stuck → held r.1 ≡ 0
  by_opening set confirmed (none, v) ho hr ns = configure_opened set confirmed v (ho refl) ns
  by_opening set confirmed (some e, v) ho hr ns = hr e refl

  -- On a transport that counts its open devices, with none open before, `Service.Configure`
  -- leaves none open, if it ends.
  pub service_configure_closed :
      (set : Settings) (confirmed : ℕ) (w : World T)
      → held w ≡ 0
      → (service_configure T open_device set confirmed w).0 ≢ stuck
      → held (service_configure T open_device set confirmed w).1 ≡ 0
  unfolding service_configure
  service_configure_closed set confirmed w h ns =
      by_opening set confirmed (open_device w) (λ p. omega (arith, handles.opens w p))
        (λ e p. handles.refuses w e p ∙ h) ns
