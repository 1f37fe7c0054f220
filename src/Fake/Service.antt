-- ===== src/Fake/Service.antt =====
-- internal/elitech/service.go on the simulated logger of internal/elitech/fake_test.go: whole
-- operations, which open and close the device.
use go_elite_log.Base.{
  ℕ, ◌+◌, ◌≡◌, ◌≤◌, ◌<◌, ◌^◌, ◌⊎◌, refl, ap, ◌∙◌, arith, Bool, true, false, ◌&&◌, ◌!=◌, Option,
  none, some, [], if◌then◌else◌,
}
use go_elite_log.Base.Int.{pos}
use go_elite_log.Base.Result.{Result, ok, err, Error, invalid_interval, records_present}
use go_elite_log.Base.Step.{>>=-eq}
use go_elite_log.Info.{Counts, decode_capacity_count}
use go_elite_log.Logger.Transport.{Action, require, lift}
use go_elite_log.Logger.Identity.{DeviceInfo, info, prime, read_capacity_count}
use go_elite_log.Logger.Configure.{Settings, configure, may_erase, valid_interval, verify_settings}
use go_elite_log.Logger.Download.{records}
use go_elite_log.Logger.Slots.{newest_from}
use go_elite_log.Service.{
  with_logger, if_opened, closing, fresh, read_back, with_verdict, service_info, service_records,
  service_configure, verify_error,
}
use go_elite_log.Fake.{FakeDevice, fake}
use go_elite_log.Fake.Exchange.{Progress, idle, on}
use go_elite_log.Fake.Memory.{Plain}
use go_elite_log.Fake.Methods.{
  Yields, run, Yields-prime, Yields-read_capacity_count, bytes, protocol_of,
}
use go_elite_log.Fake.Packets.{Uniform}
use go_elite_log.Fake.Writes.{configured, commit-fake}
use go_elite_log.Fake.Slots.{stored}
use go_elite_log.Fake.Stored.{Legible, stored_from, records_download}
use go_elite_log.Fake.Inspect.{info_of, Yields-info}
use go_elite_log.Fake.Configured.{same, Plain-configured, counts-configured, verify-configured}

-- A store that is empty or whose count is the one that was confirmed.
abbrev pub Erasable : ℕ → ℕ → Type 0
Erasable count confirmed = (count ≡ 0) ⊎ (count ≡ confirmed)

may_lem :
    (count confirmed : ℕ)
    → Erasable count confirmed
    → Path
        (Result (Unit {0}))
        (if (count != 0) && (count != confirmed) then err records_present else ok tt)
        (ok tt)
may_lem count confirmed h = ground arith

valid_lem :
    (b : Bool) (v : FakeDevice) (p : ℕ)
    → b ≡ true
    → require b invalid_interval (on v p) ≡ (ok tt, on v p)
unfolding require
valid_lem b v p h = rw h refl

lift_lem :
    (r : Result (Unit {0})) (v : FakeDevice) (p : ℕ) → r ≡ ok tt → lift r (on v p) ≡ (ok tt, on v p)
unfolding lift
lift_lem r v p h = rw h refl

pub configure-fake :
    (d : FakeDevice) (plain : Plain d) (s : Settings) (confirmed p : ℕ) (c : Counts)
    → decode_capacity_count (bytes d 0x42 10) (protocol_of d) ≡ some c
    → valid_interval s.interval ≡ true
    → Erasable c.count confirmed
    → (g : Progress)
    → (clock : Option ℕ) × (g' : Progress) × (configure fake s confirmed (on (idle d g) p)
        ≡ (ok tt, on (idle (configured s clock d) g') (protocol_of d)))
unfolding configure
configure-fake d plain s confirmed p c e v h g =
    let (g1, e1) = run (Yields-prime d plain {p = p}) g in
    let (g2, e2) = run (Yields-read_capacity_count d plain c e) g1 in
    let (clock, g3, e3) = commit-fake d plain (protocol_of d) s g2 in
    (
      clock,
      g3,
      >>=-eq (require (valid_interval s.interval) invalid_interval) _ (valid_lem _ _ p v)
          ∙ >>=-eq (prime fake) _ e1
          ∙ >>=-eq (read_capacity_count fake) _ e2
          ∙ >>=-eq (lift (may_erase fake confirmed (some c))) _
              (lift_lem _ _ _ (may_lem c.count confirmed h))
          ∙ e3,
    )

opened-Plain : (d : FakeDevice) → Plain d → Plain (record d { closed = false })
opened-Plain d plain = record {
  narrow = plain.narrow;
  counted = plain.counted;
  ready = plain.ready;
  memory = plain.memory;
  states = plain.states;
}

-- An `Open` that finds the device.
module _ (open_device : FakeDevice → Option Error × FakeDevice)
    (opens : (w : FakeDevice) → open_device w ≡ (none, record w { closed = false })) where
  with_logger-fake :
      {A : Type 0} (m : Action FakeDevice A) (d d' : FakeDevice) {p' : ℕ} {a : A}
      → Yields (record d { closed = false }) d' 0 p' a m
      → (g : Progress)
      → (g' : Progress) × (with_logger fake open_device m (idle d g)
          ≡ (ok a, idle (record d' { closed = true }) g'))
  unfolding with_logger
  with_logger-fake m d d' y g =
      let (g', e) = run y g in
      (
        g',
        ap
              (if_opened fake open_device
                (λ w. closing fake open_device (m (fresh fake open_device w))))
              (opens (idle d g))
            ∙ ap (closing fake open_device) e,
      )

  -- If the simulated logger answers each request at once and in full, and its count is 0 or the
  -- confirmed one, then for a valid interval and an `Open` that succeeds, `Service.Configure`
  -- returns an `Info` and no error: the `Info` has the capacity that was decoded before and no
  -- records, `VerifySettings` finds no problem in it, and the device has been formatted once and
  -- is closed.
  pub service_configure_succeeds :
      (d : FakeDevice) (plain : Plain d) (s : Settings) (confirmed : ℕ) (c : Counts)
      → decode_capacity_count (bytes d 0x42 10) (protocol_of d) ≡ some c
      → valid_interval s.interval ≡ true
      → Erasable c.count confirmed
      → (g : Progress)
      → (i : DeviceInfo) × (w : FakeDevice) × (service_configure fake open_device s confirmed
            (idle d g)
          ≡ (ok (i, none), w))
        × (i.record_count ≡ 0)
        × (i.capacity ≡ c.capacity)
        × (verify_settings i s ≡ [])
        × (w.formats ≡ d.formats + 1)
        × (w.closed ≡ true)
  unfolding service_configure service_info
  service_configure_succeeds d plain s confirmed c e v h g =
      let o : FakeDevice = record d { closed = false } in
      let (clock, g1, e1) = configure-fake o (opened-Plain d plain) s confirmed 0 c e v h g in
      let left : FakeDevice = configured s clock o in
      let kept : Plain left = Plain-configured o (opened-Plain d plain) s clock in
      let found : Counts = record { capacity = c.capacity; count = 0 } in
      let counts : decode_capacity_count (bytes left 0x42 10) (protocol_of left) ≡ some found =
        counts-configured o (opened-Plain d plain) s clock c e in
      let accepted : verify_settings (info_of left found) s ≡ [] =
        verify-configured o (opened-Plain d plain) s clock found v in
      let (g2, e2) =
        with_logger-fake (info fake) left (record left { closed = false })
          (Yields-info (record left { closed = false }) (opened-Plain left kept) 0 found counts)
          g1 in
      (
        info_of left found,
        idle (record left { closed = true }) g2,
        ap
              (if_opened fake open_device (λ w.
                read_back fake open_device s
                  (configure fake s confirmed (fresh fake open_device w))))
              (opens (idle d g))
            ∙ ap (read_back fake open_device s) e1
            ∙ ap (λ r. (with_verdict fake open_device s r.0, r.1)) e2
            ∙ ap
                (λ ps. (
                  ok (info_of left found, verify_error ps),
                  idle (record left { closed = true }) g2,
                ))
                accepted,
        refl,
        refl,
        accepted,
        ap (λ n. n + 1) (same o (opened-Plain d plain) s clock (λ w. w.formats) (λ a b w. refl)),
        refl,
      )

  -- If the simulated logger answers each request at once and in full, its slots all have 4 bytes
  -- or all have 8, its parameters decode to a count of at most 2^24, the first slot of each
  -- packet decodes and last < 2^32, then `Service.Records(last)`, with an `Open` that succeeds,
  -- returns, in the order of the slots, the records of those of the newest `last` slots that
  -- decode (of all the slots where `last` is 0 or no less than the count), without an error; it
  -- leaves the memories as they were and the device closed.
  pub service_records_download :
      (d : FakeDevice) (w last : ℕ) (c : Counts)
      → Plain d
      → Uniform d w
      → decode_capacity_count (bytes d 0x42 10) (protocol_of d) ≡ some c
      → c.count ≤ 2 ^ 24
      → Legible d (protocol_of d) c.count
      → last < 2 ^ 32
      → (g : Progress)
      → (g' : Progress) × (service_records fake open_device (pos last) (idle d g) ≡ (
        ok (stored_from d (newest_from last c.count) c.count, none),
        idle (record d { closed = true }) g',
      ))
  unfolding service_records stored
  service_records_download d w last c plain uniform counts small legible h g =
      with_logger-fake (records fake (pos last)) d (record d { closed = false })
        (records_download (record d { closed = false }) w 0 last c (opened-Plain d plain) uniform
          counts small legible h)
        g
