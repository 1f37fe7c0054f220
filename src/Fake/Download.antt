-- ===== src/Fake/Download.antt =====
-- internal/elitech/logger.go, `Records`, on the simulated logger of internal/elitech/fake_test.go.
use go_elite_log.Base.{
  ℕ, zero, suc, ◌+◌, ◌-◌, ◌*◌, ◌%◌, ◌^◌, ◌≡◌, ◌≤◌, ◌<◌, inl, inr, refl, sym, ap, ◌∙◌, arith, min,
  Bool, true, false, not, ◌||◌, none, List, [], ◌++◌, ltb, leb, if◌then◌else◌, Bool-cases,
}
use mathlib.Core.List.{append-nil, append_assoc}
use go_elite_log.Base.Int.{pos, ◌+ℤ◌, ◌-ℤ◌, ltb_ℤ, pos_part}
use go_elite_log.Base.Result.{is_ok}
use go_elite_log.Calendar.{Time}
use go_elite_log.Record.{Sample, decode_record_at}
use go_elite_log.Logger.Transport.{got}
use go_elite_log.Logger.Download.{
  holds, record_bytes, place, append_ok, packet_from, request_packet, records_loop,
}
use go_elite_log.Fake.{FakeDevice, fake, slot}
use go_elite_log.Fake.Memory.{Plain}
use go_elite_log.Fake.Methods.{
  Yields, yields, Yields-bind, Yields-pure, Yields-attempt, Yields-protocol,
}
use go_elite_log.Fake.Packets.{
  Uniform, data_report, record_bytes-data, holds-data, ready_plain, get_record_packet-fake,
}
use go_elite_log.Fake.Slots.{sample_of, stored_since, stored_since-split, append_ok-eq}

sum_lem : (a b : ℕ) → pos a +ℤ pos b ≡ pos (a + b)
sum_lem a b = ground arith

test_lem : (a b : ℕ) → ltb_ℤ (pos a) (pos b) ≡ ltb a b
test_lem a b = ground arith

pub difference_lem : (a b : ℕ) → pos_part (pos a -ℤ pos b) ≡ a - b
difference_lem a b = ground arith

module _ (d : FakeDevice) (p : ℕ) (started : Time) (interval : ℕ) (w start : ℕ)
    (uniform : Uniform d w) where
  pick :
      (b : Bool) (recs xs ys : List Sample)
      → ys ≡ recs ++ xs
      → (if b || not true then recs else ys) ≡ recs ++ (if b then [] else xs)
  pick true recs xs ys e = sym (append-nil recs)
  pick false recs xs ys e = e

  slot_lem :
      (off i : ℕ) (recs : List Sample)
      → i < 6
      → (if ltb_ℤ (pos off +ℤ pos i) (pos start) || not (holds (data_report d off) i)
          then recs
          else append_ok recs
              (place (pos off +ℤ pos i) started interval)
              (decode_record_at (record_bytes (data_report d off) i) p))
        ≡ recs
          ++ (if ltb (off + i) start
              then []
              else sample_of started interval (off + i) (decode_record_at (slot d (off + i)) p))
  slot_lem off i recs h =
      let idx : pos off +ℤ pos i ≡ pos (off + i) = sum_lem off i in
      rw
        (
          idx,
          test_lem (off + i) start,
          holds-data d w uniform off i h,
          record_bytes-data d w uniform off i h,
        )
        (pick (ltb (off + i) start) recs _ _ (
          append_ok-eq d p started interval (off + i) recs (decode_record_at (slot d (off + i)) p)))

  -- A packet adds its slots from `start` on.
  packet_from-data :
      (off n i : ℕ) (recs : List Sample)
      → i + n ≤ 6
      → packet_from (data_report d off) p started interval (pos start) (pos off) n i recs
        ≡ recs ++ stored_since d p started interval start n (off + i)
  unfolding packet_from stored_since
  packet_from-data off zero i recs h = sym (append-nil recs)
  packet_from-data off (suc n) i recs h =
      let next : off + (i + 1) ≡ off + i + 1 = omega arith in
      ap (packet_from (data_report d off) p started interval (pos start) (pos off) n (i + 1))
        (slot_lem off i recs (omega arith))
      ∙ packet_from-data off n (i + 1) _ (omega arith)
      ∙ rw next (append_assoc recs _ _)

  Yields-request_packet :
      (plain : Plain d) (sent : Bool) (off : ℕ)
      → off < 2 ^ 24
      → is_ok (decode_record_at (slot d off) p) ≡ true
      → Yields d d p p (got (data_report d off), sent) (request_packet fake sent off)
  unfolding request_packet
  Yields-request_packet plain sent off h e =
      Yields-bind _
        (Yields-attempt (
          yields (λ g. (
            _,
            get_record_packet-fake d w uniform off p g
                (ready_plain d.needs_preamble (not g.seen) plain.ready) h e,
          ))))
        (Yields-pure _)

  tail_lem :
      (count off : ℕ)
      → stored_since d p started interval start (count - (off + 6)) (off + min 6 (count - off))
        ≡ stored_since d p started interval start (count - (off + 6)) (off + 6)
  unfolding stored_since
  tail_lem count off = elim (Bool-cases (leb (off + 6) count)) [
    | inl full ↦ let m : min 6 (count - off) ≡ 6 = ground arith in rw m refl
    | inr last ↦ let z : count - (off + 6) ≡ 0 = ground arith in rw z refl
  ]

  rest_lem :
      (count off : ℕ)
      → off < count
      → stored_since d p started interval start (count - off) off
        ≡ stored_since d p started interval start (min 6 (count - off)) off
          ++ stored_since d p started interval start (count - (off + 6)) (off + 6)
  rest_lem count off h =
      let parts : count - off ≡ min 6 (count - off) + (count - (off + 6)) = ground arith in
      ap (λ n. stored_since d p started interval start n off) parts
      ∙ stored_since-split d p started interval start (min 6 (count - off)) (count - (off + 6)) off
      ∙ ap (λ xs. stored_since d p started interval start (min 6 (count - off)) off ++ xs)
          (tail_lem count off)

  -- With the first slot of each packet decoded, the loop over the packets gives what is stored.
  pub Yields-records_loop :
      (plain : Plain d) (count : ℕ)
      → count ≤ 2 ^ 24
      → ((k : ℕ) → k * 6 < count → is_ok (decode_record_at (slot d (k * 6)) p) ≡ true)
      → (fuel k : ℕ) (sent : Bool) (recs : List Sample) → count ≤ k * 6 + fuel * 6
      → Yields d d p p
          (recs ++ stored_since d p started interval start (count - k * 6) (k * 6), none)
          (records_loop fake (suc fuel) count started interval (pos start) (pos (k * 6)) sent recs)
  unfolding records_loop stored_since
  Yields-records_loop plain count small legible zero k sent recs h =
      let ended : ltb (k * 6) count ≡ false = ground arith in
      let z : count - k * 6 ≡ 0 = ground arith in
      rw (test_lem (k * 6) count, ended, z, append-nil recs) (Yields-pure _)
  Yields-records_loop plain count small legible (suc fuel) k sent recs h =
      elim (Bool-cases (ltb (k * 6) count)) [
        | inl more ↦
            let off : k * 6 % 2 ^ 32 ≡ k * 6 = ground arith in
            let here : k * 6 + 0 ≡ k * 6 = omega arith in
            let after : k * 6 + 6 ≡ suc k * 6 = omega arith in
            rw (test_lem (k * 6) count, more, off)
              (Yields-bind _
                (Yields-request_packet plain sent (k * 6) (ground arith) (legible k (ground arith)))
                (Yields-bind _ Yields-protocol (
                  rw
                    (
                      sum_lem (k * 6) 6,
                      difference_lem count (k * 6),
                      packet_from-data (k * 6) (min 6 (count - k * 6)) 0 recs (ground arith),
                    )
                    (rw
                      (
                        here,
                        rest_lem count (k * 6) (ground arith),
                        after,
                        sym (
                            append_assoc recs
                              (stored_since d p started interval start (min 6 (count - k * 6))
                                (k * 6))
                              (stored_since d p started interval start (count - suc k * 6)
                                (suc k * 6))),
                      )
                      (Yields-records_loop plain count small legible fuel (suc k) sent _
                        (omega arith))))))
        | inr ended ↦
            let z : count - k * 6 ≡ 0 = ground arith in
            rw (test_lem (k * 6) count, ended, z, append-nil recs) (Yields-pure _)
      ]
