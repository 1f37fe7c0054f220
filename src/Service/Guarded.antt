-- ===== src/Service/Guarded.antt =====
-- internal/elitech/service.go: when `Configure` changes the device.
use go_elite_log.Base.{ℕ, ◌≡◌, ◌⊎◌, inl, inr, true, Option, none, some, All}
use go_elite_log.Base.Result.{Result, ok, err, panicked, stuck, Error}
use go_elite_log.Calendar.{second}
use go_elite_log.Logger.Transport.{Transport, World, Session, ◌>>◌}
use go_elite_log.Logger.Identity.{info, prime, read_capacity_count}
use go_elite_log.Logger.Configure.{Settings, valid_interval, configure}
use go_elite_log.Logger.Requests.{recorder, IsRead, log_of, info_reads}
use go_elite_log.Logger.Erase.{Confirmed, configure_guarded}
use go_elite_log.Service.{
  fresh, closing, if_opened, read_back, with_logger, service_info, service_configure,
}

-- Opening writes no report.
abbrev pub recorded_open :
    (T : Transport)
    → (World T → Option Error × World T)
    → World (recorder T)
    → Option Error × World (recorder T)
recorded_open T f w = let (e, v) = f w.0 in (e, (v, w.1))

module _ (T : Transport) (open_device : World T → Option Error × World T) where
  abbrev R : Transport
  R = recorder T

  abbrev opening : World R → Option Error × World R
  opening = recorded_open T open_device

  abbrev OnlyReads : World R → Type 0
  OnlyReads w = All IsRead (log_of T w)

  info_after :
      (o : Option Error × World R)
      → OnlyReads o.1
      → OnlyReads (if_opened R opening (λ w. closing R opening (info R (fresh R opening w))) o).1
  info_after (none, w) h = info_reads T (fresh R opening w) h
  info_after (some e, w) h = h

  pub info-OnlyReads : (w : World R) → OnlyReads w → OnlyReads (service_info R opening w).1
  unfolding service_info with_logger
  info-OnlyReads w h = info_after (opening w) h

  module _ (set : Settings) (confirmed : ℕ) where
    read_back_reads :
        (r : Result (Unit {0})) (s : Session (World R))
        → OnlyReads s.world
        → OnlyReads (read_back R opening set (r, s)).1
    read_back_reads (ok u) s h = info-OnlyReads (R.sleep second s.world) h
    read_back_reads (err e) s h = h
    read_back_reads panicked s h = h
    read_back_reads stuck s h = h

    -- The interval is valid, and the device has reported a count of zero or the confirmed one.
    abbrev pub MayErase : World R → Type 0
    MayErase w =
        (valid_interval set.interval ≡ true)
        × Confirmed T set confirmed ((prime R >> read_capacity_count R) (fresh R opening w)).0

    service_opened :
        (o : Option Error × World R)
        → OnlyReads o.1
        → OnlyReads
            (if_opened R opening
              (λ w. read_back R opening set (configure R set confirmed (fresh R opening w)))
              o).1
          ⊎ MayErase o.1
    service_opened (some e, w) h = inl h
    service_opened (none, w) h = elim (configure_guarded T set confirmed (fresh R opening w) h) [
      | inl reads ↦ inl (
          read_back_reads (configure R set confirmed (fresh R opening w)).0
            (configure R set confirmed (fresh R opening w)).1 reads)
      | inr allowed ↦ inr allowed
    ]

    -- On any transport, starting from a log of read requests only and with an `Open` that writes
    -- none, `Service.Configure` either writes read requests only, or the interval is valid and
    -- the count that the device reports once it is open is 0 or the one that the caller
    -- confirmed.
    pub service_configure_guarded :
        (w : World (recorder T))
        → All IsRead (log_of T w)
        → All IsRead (
            log_of T
              (service_configure (recorder T) (recorded_open T open_device) set confirmed w).1)
          ⊎ MayErase (recorded_open T open_device w).1
    unfolding service_configure
    service_configure_guarded w h = service_opened (opening w) h
