-- ===== src/Loggers/Guarded.antt =====
-- internal/elitech/service.go: when a sequence of calls of the service changes a device.
use go_elite_log.Base.{ℕ, ◌≡◌, ◌⊎◌, inl, inr, Option, none, some, All}
use go_elite_log.Base.Int.{ℤ}
use go_elite_log.Base.Result.{ok, Error}
use go_elite_log.Base.Step.{Step, ◌>>◌}
use go_elite_log.Base.Step.Preserve.{Keeps, Any, keeps}
use go_elite_log.Info.{Counts}
use go_elite_log.Text.{Text}
use go_elite_log.Hid.{Device, Tree}
use go_elite_log.Logger.Transport.{Transport, World}
use go_elite_log.Logger.Identity.{prime, read_capacity_count}
use go_elite_log.Logger.Download.{records}
use go_elite_log.Logger.Configure.{Settings}
use go_elite_log.Logger.Requests.{recorder, IsRead, log_of, records_reads}
use go_elite_log.Service.{fresh, closing, if_opened, with_logger, service_records}
use go_elite_log.Service.Counted.{Counted, service_info-Counted}
use go_elite_log.Service.Guarded.{recorded_open, info-OnlyReads, service_configure_guarded}
use go_elite_log.Loggers.{Loggers, Keeping, service_find, service_loggers}

module _ (T : Transport) (open_device : Device → World T → Option Error × World T) (dev_root : Text)
    (tree : World T → Tree) where
  abbrev R : Transport
  R = recorder T

  abbrev opens : Device → World R → Option Error × World R
  opens dev = recorded_open T (open_device dev)

  -- The service, on a transport that keeps a record of the reports.
  abbrev pub recorded : Loggers
  recorded = service_loggers R opens dev_root (λ w. tree w.0)

  abbrev OnlyReads : World R → Type 0
  OnlyReads w = All IsRead (log_of T w)

  -- The worlds that calls of the service reach from `w`.
  pub data Reached (w : World R) : World R → Type 0 where
    here : Reached w w
    after_find : {v : World R} → Reached w v → Reached w (recorded.find v).1
    after_info : {v : World R} (dev : Device) → Reached w v → Reached w (recorded.info dev v).1
    after_records :
        {v : World R} (dev : Device) (last : ℤ)
        → Reached w v
        → Reached w (recorded.records dev last v).1
    after_configure :
        {v : World R} (dev : Device) (set : Settings) (confirmed : ℕ)
        → Reached w v
        → Reached w (recorded.configure dev set confirmed v).1

  -- A call reaches a world where a device, once it is open, reports a count that is agreed on.
  abbrev pub Erasable : (ℕ → Type 0) → World R → Type 0
  Erasable Agreed w =
      (v : World R) × (dev : Device) × (c : Counts) × Reached w v
      × (((prime R >> read_capacity_count R) (fresh R (opens dev) (opens dev v).1)).0 ≡ ok (some c))
      × Agreed c.count

  module _ (Agreed : ℕ → Type 0) (w : World R) where
    abbrev pub Inv : World R → Type 0
    Inv v = (Reached w v × OnlyReads v) ⊎ Erasable Agreed w

    -- The confirmed count is agreed on, and so is an empty store.
    abbrev pub Allowed : Settings → ℕ → Type 0
    Allowed set count = Agreed 0 × Agreed count

    -- A call that reads only.
    Keeps-reads :
        {A : Type 0} {P : A → Type 0} (m : Step (World R) A)
        → ((v : World R) → OnlyReads v → OnlyReads (m v).1)
        → ((v : World R) → Reached w v → Reached w (m v).1)
        → ((v : World R) (a : A) → (m v).0 ≡ ok a → P a)
        → Keeps Inv P m
    Keeps-reads m reads reach value = keeps (λ v h. (
      elim h [
        | inl here_reads ↦ inl (reach v here_reads.0, reads v here_reads.1)
        | inr erasable ↦ inr erasable
      ],
      value v,
    ))

    find-Keeps : Keeps Inv Any recorded.find
    unfolding service_find
    find-Keeps = Keeps-reads recorded.find (λ v h. h) (λ v h. after_find h) (λ v a e. tt)

    info-Keeps : (dev : Device) → Keeps Inv Counted (recorded.info dev)
    info-Keeps dev =
        Keeps-reads (recorded.info dev) (info-OnlyReads T (open_device dev))
          (λ v h. after_info dev h) (λ v i e. service_info-Counted R (opens dev) v i e)

    records_after :
        (dev : Device) (last : ℤ) (o : Option Error × World R)
        → OnlyReads o.1
        → OnlyReads
            (if_opened R
              (opens dev)
              (λ v. closing R (opens dev) (records R last (fresh R (opens dev) v)))
              o).1
    records_after dev last (none, v) h = records_reads T last (fresh R (opens dev) v) h
    records_after dev last (some e, v) h = h

    records-OnlyReads :
        (dev : Device) (last : ℤ) (v : World R)
        → OnlyReads v
        → OnlyReads (recorded.records dev last v).1
    unfolding service_records with_logger
    records-OnlyReads dev last v h = records_after dev last (opens dev v) h

    records-Keeps : (dev : Device) (last : ℤ) → Keeps Inv Any (recorded.records dev last)
    records-Keeps dev last =
        Keeps-reads (recorded.records dev last) (records-OnlyReads dev last)
          (λ v h. after_records dev last h) (λ v a e. tt)

    counted_as : (a b : ℕ) → (a ≡ 0) ⊎ (a ≡ b) → Agreed 0 × Agreed b → Agreed a
    counted_as a b (inl e) (zero, same) = rw e zero
    counted_as a b (inr e) (zero, same) = rw e same

    configure_after :
        (dev : Device) (set : Settings) (count : ℕ) (v : World R)
        → Allowed set count
        → Inv v
        → Inv (recorded.configure dev set count v).1
    configure_after dev set count v a (inr erasable) = inr erasable
    configure_after dev set count v a (inl (reach, reads)) =
        elim (service_configure_guarded T (open_device dev) set count v reads) [
          | inl still ↦ inl (after_configure dev set count reach, still)
          | inr (valid, (c, e, zero_or_confirmed)) ↦
              inr (v, dev, c, reach, e, counted_as c.count count zero_or_confirmed a)
        ]

    pub keeping : Keeping recorded Inv Counted Allowed
    keeping = record {
      finding = find-Keeps;
      informing = info-Keeps;
      recording = records-Keeps;
      configuring =
          λ dev set count a. keeps (λ v h. (configure_after dev set count v a h, λ x e. tt));
    }

    pub ends :
        {A : Type 0} {m : Step (World R) A}
        → Keeps Inv Any m
        → OnlyReads w
        → OnlyReads (m w).1 ⊎ Erasable Agreed w
    ends (keeps k) h = elim (k w (inl (here, h))).0 [
      | inl (reach, reads) ↦ inl reads
      | inr erasable ↦ inr erasable
    ]
