-- ===== src/Fake/Stored.antt =====
-- internal/elitech/logger.go, `Records`, on the simulated logger of internal/elitech/fake_test.go:
-- the whole download.
use go_elite_log.Base.{
  ℕ, suc, ◌+◌, ◌-◌, ◌*◌, ◌/◌, ◌^◌, ◌≡◌, ◌≤◌, ◌<◌, sym, arith, true, false, none, some, List, [],
  ◌==◌, if◌then◌else◌, Bool-cases, inl, inr,
}
use go_elite_log.Base.Int.{pos}
use go_elite_log.Base.Result.{is_ok}
use go_elite_log.Record.{Sample, decode_record_at}
use go_elite_log.Info.{Counts, decode_capacity_count, decode_interval}
use go_elite_log.Logger.Transport.{pure}
use go_elite_log.Logger.Exchange.{timeout_get_cleanup}
use go_elite_log.Logger.Identity.{or_no_interval}
use go_elite_log.Logger.Slots.{newest_from, wanted_start_lem}
use go_elite_log.Logger.Download.{
  clean_up, download_from, records, records_loop, wanted_start, first_offset, rounds,
  pause_after_records,
}
use go_elite_log.Fake.{FakeDevice, fake, slot}
use go_elite_log.Fake.Memory.{Plain}
use go_elite_log.Fake.Methods.{
  Yields, Yields-bind, Yields-pure, Yields-attempt, Yields-sleep, Yields-get, Yields-prime,
  Yields-prime_with, Yields-read_capacity_count, Yields-read_status, bytes, protocol_of, status_of,
}
use go_elite_log.Fake.Packets.{Uniform}
use go_elite_log.Fake.Slots.{stored, stored_since_before}
use go_elite_log.Fake.Download.{Yields-records_loop, difference_lem}

-- The first slot of each packet of the first `count` slots decodes.
abbrev pub Legible : FakeDevice → ℕ → ℕ → Type 0
Legible d p count = (k : ℕ) → k * 6 < count → is_ok (decode_record_at (slot d (k * 6)) p) ≡ true

-- The interval that the parameters hold.
abbrev pub interval_of : FakeDevice → ℕ
interval_of d = or_no_interval (decode_interval (bytes d 0x4C 2))

-- The records in the slots from `start` to `count`, in order.
abbrev pub stored_from : FakeDevice → ℕ → ℕ → List Sample
stored_from d start count =
    stored d (protocol_of d) (status_of d).started_at (interval_of d) (count - start) start

newest_from-le : (last count : ℕ) → newest_from last count ≤ count
newest_from-le last count = ground arith

module _ (d : FakeDevice) (plain : Plain d) where
  Yields-clean_up :
      (recs : List Sample)
      → Yields d d (protocol_of d) (protocol_of d) (recs, none) (clean_up fake (recs, none))
  unfolding clean_up
  Yields-clean_up recs = Yields-bind _ (Yields-sleep pause_after_records) (
      Yields-bind _ (Yields-attempt (Yields-prime_with d plain timeout_get_cleanup (omega arith)))
        (Yields-pure _))

  module _ (w count start : ℕ) (uniform : Uniform d w) (small : count ≤ 2 ^ 24)
      (legible : Legible d (protocol_of d) count) (h : start ≤ count) where
    loop_lem :
        (interval : ℕ)
        → Yields d d
            (protocol_of d)
            (protocol_of d)
            (stored d (protocol_of d) (status_of d).started_at interval (count - start) start, none)
            (records_loop fake
              (rounds (first_offset (pos start)) count)
              count
              (status_of d).started_at
              interval
              (pos start)
              (first_offset (pos start))
              false
              [])
    unfolding first_offset
    loop_lem interval =
        let off : start / 6 * 6 ≤ start = omega arith in
        let fuel : (count - start / 6 * 6) / 6 + 2 ≡ suc ((count - start / 6 * 6) / 6 + 1) =
          omega arith in
        let parts : count - start / 6 * 6 ≡ start - start / 6 * 6 + (count - start) = omega arith in
        rw
          (
            difference_lem count (start / 6 * 6),
            fuel,
            sym (
                stored_since_before d (protocol_of d) (status_of d).started_at interval
                  (start - start / 6 * 6) (count - start) (start / 6 * 6) start (omega arith)),
            sym parts,
          )
          (Yields-records_loop d (protocol_of d) (status_of d).started_at interval w start uniform
            plain count small legible ((count - start / 6 * 6) / 6 + 1) (start / 6) false []
            (omega arith))

    Yields-download_from :
        Yields d d
          (protocol_of d)
          (protocol_of d)
          (stored_from d start count, none)
          (download_from fake (pos start) count)
    unfolding download_from
    Yields-download_from = Yields-bind _ (Yields-read_status d plain) (
        Yields-bind _ (Yields-attempt (Yields-get d plain 0x4C 2 (omega arith) (omega arith)))
          (Yields-bind _ (loop_lem (interval_of d)) (Yields-clean_up (stored_from d start count))))

  some_or_none :
      (w last count : ℕ)
      → Uniform d w
      → count ≤ 2 ^ 24
      → Legible d (protocol_of d) count
      → last < 2 ^ 32
      → Yields d d
          (protocol_of d)
          (protocol_of d)
          (stored_from d (newest_from last count) count, none)
          (if count == 0
            then pure ([], none)
            else download_from fake (wanted_start (pos last) count) count)
  unfolding stored
  some_or_none w last count uniform small legible h = elim (Bool-cases (count == 0)) [
    | inl empty ↦
        let z : count - newest_from last count ≡ 0 = ground arith in rw (empty, z) (Yields-pure _)
    | inr stocked ↦
        rw (stocked, wanted_start_lem last count h)
          (Yields-download_from w count (newest_from last count) uniform small legible
            (newest_from-le last count))
  ]

pub records_download :
    (d : FakeDevice) (w p last : ℕ) (c : Counts)
    → Plain d
    → Uniform d w
    → decode_capacity_count (bytes d 0x42 10) (protocol_of d) ≡ some c
    → c.count ≤ 2 ^ 24
    → Legible d (protocol_of d) c.count
    → last < 2 ^ 32
    → Yields d d p
        (protocol_of d)
        (stored_from d (newest_from last c.count) c.count, none)
        (records fake (pos last))
unfolding records
records_download d w p last c plain uniform counts small legible h =
    Yields-bind _ (Yields-prime d plain) (
      Yields-bind _ (Yields-read_capacity_count d plain c counts)
        (some_or_none d plain w last c.count uniform small legible h))
