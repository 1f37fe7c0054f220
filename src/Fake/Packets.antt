-- ===== src/Fake/Packets.antt =====
-- internal/elitech/logger.go on the simulated logger of internal/elitech/fake_test.go:
-- `getRecordPacket`, and the slots of its packets.
use go_elite_log.Base.{
  ℕ, zero, suc, ◌+◌, ◌-◌, ◌*◌, ◌^◌, ◌≡◌, ◌≤◌, ◌<◌, ◌⊎◌, inl, inr, refl, sym, ap, ◌∙◌, arith, Bool,
  true, false, not, ◌&&◌, List, [], ◌∷◌, ◌++◌, length, take, drop, ltb, if◌then◌else◌,
  length-append, take-append_length, lt→ltb,
}
use go_elite_log.Base.Result.{ok, is_ok}
use go_elite_log.Base.Step.{>>=-eq}
use go_elite_log.Record.{decode_record_at}
use go_elite_log.Frame.{Frame, op_get_record, is_record_ack, decode_frame, encode_frame}
use go_elite_log.Logger.Transport.{got, pure, lift, gets, attempt, now, read, ◌>>=◌}
use go_elite_log.Logger.Exchange.{send, read_report}
use go_elite_log.Logger.Download.{
  record_width, record_bytes, holds, plausible_from, plausible_records, classify, Seen, packet,
  acknowledged, on_seen, still_waiting, packet_loop, get_record_packet, timeout_record,
  timeout_record_slice,
}
use go_elite_log.Fake.{FakeDevice, fake, slot, slots_from, serve, answer, bytes_of}
use go_elite_log.Fake.Exchange.{Progress, idle, on, send-fake, decode-answer}
use go_elite_log.Fake.Memory.{asked}

-- Every slot has the same width, one of the two that there are.
abbrev pub Uniform : FakeDevice → ℕ → Type 0
Uniform d w = ((w ≡ 4) ⊎ (w ≡ 8)) × ((idx : ℕ) → length (slot d idx) ≡ w)

-- The data report from `off` on.
abbrev pub data_report : FakeDevice → ℕ → Frame
data_report d off = asked op_get_record off 6 (slots_from d 6 off)

length-slots_from :
    (d : FakeDevice) (w n idx : ℕ) → Uniform d w → length (slots_from d n idx) ≡ n * w
unfolding slots_from
length-slots_from d w zero idx u = omega arith
length-slots_from d w (suc n) idx u = omega (
  arith,
  length-append (slot d idx) (slots_from d n (idx + 1)),
  u.1 idx,
  length-slots_from d w n (idx + 1) u,
)

drop_past : (xs ys : List ℕ) (k n : ℕ) → n ≡ length xs + k → drop n (xs ++ ys) ≡ drop k ys
drop_past [] ys k n e = let q : n ≡ k = omega arith in rw q refl
drop_past (x ∷ xs) ys k zero e = absurd (omega arith)
drop_past (x ∷ xs) ys k (suc n) e = drop_past xs ys k n (omega arith)

take_whole : (xs ys : List ℕ) (n : ℕ) → length xs ≡ n → take n (xs ++ ys) ≡ xs
take_whole xs ys n e = let q : n ≡ length xs = sym e in rw q (take-append_length xs ys)

one_more : (n : ℕ) → ltb 0 (n + 1) ≡ true
one_more n = ground arith

plausible_first :
    (f : Frame) (p rounds i : ℕ)
    → holds f i ≡ true
    → is_ok (decode_record_at (record_bytes f i) p) ≡ true
    → ltb 0 (plausible_from f p (suc rounds) i) ≡ true
unfolding plausible_from
plausible_first f p rounds i h e = rw (h, e) (one_more (plausible_from f p rounds (i + 1)))

ack_lem : (p : ℕ) → classify p (got (asked op_get_record 0 0 [])) ≡ acknowledged
unfolding classify is_record_ack
ack_lem p = refl

-- A round that reads a report.
packet_round :
    (fuel deadline : ℕ) (ack : Bool) (f : Frame) (r : List ℕ) (rs : List (List ℕ)) (v : FakeDevice)
    (p : ℕ) (o : Seen)
    → ltb v.clock deadline ≡ true
    → v.queue ≡ r ∷ rs
    → decode_frame r ≡ ok f
    → classify p (got f) ≡ o
    → packet_loop fake (suc fuel) deadline ack (on v p)
      ≡ on_seen
          (packet_loop fake fuel deadline ack)
          (packet_loop fake fuel deadline true)
          o
          (on (record v { queue = rs; clock = v.clock + 1 }) p)
unfolding packet_loop still_waiting read_report lift attempt gets now read pure ◌>>=◌
packet_round fuel deadline ack f r rs v p o early q e c = rw (early, q, e, c) refl

abbrev pub after_packet : ℕ → Progress → Progress
after_packet off g = record g {
  clock = g.clock + 1 + 1;
  written = g.written ++ (asked op_get_record off 6 [] ∷ []);
}

slots_from-idle :
    (d : FakeDevice) (g : Progress) (n idx : ℕ) → slots_from (idle d g) n idx ≡ slots_from d n idx
unfolding slots_from
slots_from-idle d g zero idx = refl
slots_from-idle d g (suc n) idx = ap (λ b. slot d idx ++ b) (slots_from-idle d g n (idx + 1))

pub if_ready : (b : Bool) (v v' : FakeDevice) → b ≡ false → (if b then v else v') ≡ v'
if_ready b v v' e = rw e refl

-- A device that needs no preamble is ready for any number of requests.
pub ready_plain : (b c : Bool) → b ≡ false → (b && c) ≡ false
ready_plain b c e = rw e refl

pub now-fake : (v : FakeDevice) (p : ℕ) → now fake (on v p) ≡ (ok v.clock, on v p)
unfolding now
now-fake v p = refl

served :
    (d : FakeDevice) (off : ℕ) (g : Progress)
    → (d.needs_preamble && not g.seen) ≡ false
    → serve
        (asked op_get_record off 6 [])
        (record (idle d g) { written = g.written ++ (asked op_get_record off 6 [] ∷ []) })
      ≡ answer op_get_record off 6 (slots_from d 6 off) (
          answer op_get_record 0 0 []
            (idle d (record g { written = g.written ++ (asked op_get_record off 6 [] ∷ []) })))
served d off g ready =
    if_ready (d.needs_preamble && not g.seen) _ _ ready
    ∙ ap
        (λ b. answer op_get_record off 6 b (
          answer op_get_record 0 0 []
            (idle d (record g { written = g.written ++ (asked op_get_record off 6 [] ∷ []) }))))
        (slots_from-idle d (record g { written = g.written ++ (asked op_get_record off 6 [] ∷ []) })
          6 off)

module _ (d : FakeDevice) (w : ℕ) (uniform : Uniform d w) where
  take-slots_from :
      (n i idx : ℕ) → i < n → take w (drop (i * w) (slots_from d n idx)) ≡ slot d (idx + i)
  unfolding slots_from
  take-slots_from zero i idx h = absurd (omega arith)
  take-slots_from (suc n) zero idx h =
      let z : 0 * w ≡ 0 = omega arith in
      let i : idx + 0 ≡ idx = omega arith in
      rw (z, i) (take_whole (slot d idx) (slots_from d n (idx + 1)) w (uniform.1 idx))
  take-slots_from (suc n) (suc i) idx h =
      let j : idx + suc i ≡ idx + 1 + i = omega arith in
      rw j (
        ap (take w) (
          drop_past (slot d idx) (slots_from d n (idx + 1)) (i * w) (suc i * w)
            (omega (arith, uniform.1 idx)))
        ∙ take-slots_from n i (idx + 1) (omega arith))

  width_lem : (off : ℕ) → record_width (data_report d off) ≡ w
  unfolding record_width
  width_lem off = elim uniform.0 [
    | inl e ↦ ground (arith, length-slots_from d w 6 off uniform)
    | inr e ↦ ground (arith, length-slots_from d w 6 off uniform)
  ]

  pub record_bytes-data :
      (off i : ℕ) → i < 6 → record_bytes (data_report d off) i ≡ slot d (off + i)
  record_bytes-data off i h =
      let n : (i + 1) * w - i * w ≡ w = omega arith in
      rw (width_lem off, n) (take-slots_from 6 i off h)

  pub holds-data : (off i : ℕ) → i < 6 → holds (data_report d off) i ≡ true
  holds-data off i h =
      let fits : (i + 1) * w ≤ 6 * w = elim uniform.0 [
        | inl e ↦ rw e (omega arith)
        | inr e ↦ rw e (omega arith)
      ] in
      rw (width_lem off) (ground (arith, length-slots_from d w 6 off uniform))

  -- The first slot of a packet is decoded, so the packet is plausible.
  plausible-data :
      (off p : ℕ)
      → is_ok (decode_record_at (slot d off) p) ≡ true
      → ltb 0 (plausible_records (data_report d off) p) ≡ true
  unfolding plausible_records
  plausible-data off p e =
      let z : off + 0 ≡ off = omega arith in
      plausible_first (data_report d off) p 5 0 (holds-data off 0 (omega arith))
        (rw (record_bytes-data off 0 (omega arith), z) e)

  classify-data :
      (off p : ℕ)
      → is_ok (decode_record_at (slot d off) p) ≡ true
      → classify p (got (data_report d off)) ≡ packet (data_report d off)
  unfolding classify is_record_ack
  classify-data off p e = rw (plausible-data off p e) refl

  fits : (off : ℕ) → length (slots_from d 6 off) ≤ 52
  fits off =
      let k : length (slots_from d 6 off) ≡ 6 * w = length-slots_from d w 6 off uniform in
      elim uniform.0 [ inl e ↦ omega (arith, k, e) | inr e ↦ omega (arith, k, e) ]

  -- The acknowledgement, and then the data.
  pub get_record_packet-fake :
      (off p : ℕ) (g : Progress)
      → (d.needs_preamble && not g.seen) ≡ false
      → off < 2 ^ 24
      → is_ok (decode_record_at (slot d off) p) ≡ true
      → get_record_packet fake off (on (idle d g) p)
        ≡ (ok (data_report d off), on (idle d (after_packet off g)) p)
  unfolding get_record_packet
  get_record_packet-fake off p g ready h e =
      >>=-eq (send fake op_get_record off 6 []) _ (
        send-fake op_get_record off 6 [] (idle d g) p (omega arith) h (omega arith)
        ∙ ap (λ v. (ok tt, on v p)) (served d off g ready))
      ∙ >>=-eq (now fake)
          (λ t.
            packet_loop fake (timeout_record + timeout_record_slice + 2) (t + timeout_record) false)
          (now-fake _ p)
      ∙ packet_round (suc 1850000000) (g.clock + timeout_record) false (asked op_get_record 0 0 [])
          (bytes_of (encode_frame op_get_record 0 0 []))
          (bytes_of (encode_frame op_get_record off 6 (slots_from d 6 off)) ∷ []) _ p acknowledged
          (lt→ltb _ _ (omega arith)) refl
          (decode-answer op_get_record 0 0 [] (omega arith) (omega arith) (omega arith)) (ack_lem p)
      ∙ packet_round 1850000000 (g.clock + timeout_record) true (data_report d off)
          (bytes_of (encode_frame op_get_record off 6 (slots_from d 6 off))) [] _ p
          (packet (data_report d off)) (lt→ltb _ _ (omega arith)) refl
          (decode-answer op_get_record off 6 (slots_from d 6 off) (omega arith) h (fits off))
          (classify-data off p e)
      ∙ (unfold pure in refl)
