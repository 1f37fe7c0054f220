-- ===== src/Logger/Slots.antt =====
-- internal/elitech/logger.go, `Records`: where a download starts, and the slots of its packets.
use go_elite_log.Base.{
  ℕ, zero, suc, ◌+◌, ◌-◌, ◌^◌, ◌≤◌, ◌<◌, ◌≡◌, ◌∙◌, subst, arith, Bool, false, not, ◌||◌, ◌&&◌, List,
  [], ◌∷◌, ◌++◌, length, min, inl, inr, Bool-cases, if◌then◌else◌, ltb, Option, some,
}
use go_elite_log.Base.Int.{ℤ, pos, ◌+ℤ◌, ◌-ℤ◌, ltb_ℤ, pos_part}
use go_elite_log.Base.Result.{Result, ok, err, panicked, stuck, Error}
use go_elite_log.Calendar.{Time}
use go_elite_log.Frame.{Frame}
use go_elite_log.Logger.Transport.{
  Transport, World, Session, Outcome, got, lost, pure, out_of_fuel, outcome_or, >>=-eq-ok,
}
use go_elite_log.Record.{Sample, decode_record_at}
use go_elite_log.Logger.Download.{
  wanted_start, holds, record_bytes, place, append_ok, packet_from, records_loop,
}

-- The start of the newest `last` of `count` records, as the plain rule has it.
abbrev pub newest_from : ℕ → ℕ → ℕ
newest_from last count = if ltb 0 last && ltb last count then count - last else 0

-- For `last` below 2^32 the download starts at `count - last` if `last` is positive and below the
-- count, and at 0 otherwise.
pub wanted_start_lem :
    (last count : ℕ) → last < 2 ^ 32 → wanted_start (pos last) count ≡ pos (newest_from last count)
unfolding wanted_start
wanted_start_lem last count h = ground arith

-- Indices strictly increase from `lo` and stay below `hi`.
abbrev pub Within : ℕ → ℕ → List Sample → Type 0
Within lo hi [] = lo ≤ hi
Within lo hi (r ∷ rs) = (i : ℕ) × (r.index ≡ pos i) × (lo ≤ i) × Within (i + 1) hi rs

pub Within-le : (lo hi : ℕ) (rs : List Sample) → Within lo hi rs → lo + length rs ≤ hi
Within-le lo hi [] h = omega arith
Within-le lo hi (r ∷ rs) (i, e, le, h) = omega (arith, Within-le (i + 1) hi rs h)

pub Within-more : (lo hi hi' : ℕ) (rs : List Sample) → hi ≤ hi' → Within lo hi rs → Within lo hi' rs
Within-more lo hi hi' [] le h = omega arith
Within-more lo hi hi' (r ∷ rs) le (i, e, li, h) = (i, e, li, Within-more (i + 1) hi hi' rs le h)

Within-append :
    (lo hi i hi' : ℕ) (rs : List Sample) (r : Sample)
    → hi ≤ i
    → i < hi'
    → r.index ≡ pos i
    → Within lo hi rs
    → Within lo hi' (rs ++ (r ∷ []))
Within-append lo hi i hi' [] r le lt e h = (i, e, omega arith, omega arith)
Within-append lo hi i hi' (x ∷ rs) r le lt e (j, q, lj, h) =
    (j, q, lj, Within-append (j + 1) hi i hi' rs r le lt e h)

place_index : (idx : ℤ) (t : Time) (iv : ℕ) (r : Sample) → (place idx t iv r).index ≡ idx
unfolding place
place_index idx t iv r = ground arith

-- The later of two positions.
abbrev pub later : ℕ → ℕ → ℕ
later a b = if ltb a b then b else a

module _ (f : Frame) (protocol : ℕ) (started : Time) (interval start o : ℕ) where
  -- What the loop does with slot `i`.
  abbrev after_slot : ℕ → List Sample → List Sample
  after_slot i recs =
      if ltb_ℤ (pos o +ℤ pos i) (pos start) || not (holds f i)
      then recs
      else append_ok recs (place (pos o +ℤ pos i) started interval)
          (decode_record_at (record_bytes f i) protocol)

  pub append_ok-Within :
      (i : ℕ) (recs : List Sample) (r : Result Sample)
      → start ≤ o + i
      → Within start (later start (o + i)) recs
      → Within start
          (later start (o + i + 1))
          (append_ok recs (place (pos o +ℤ pos i) started interval) r)
  append_ok-Within i recs (ok r) le h =
      Within-append start (later start (o + i)) (o + i) (later start (o + i + 1)) recs
        (place (pos o +ℤ pos i) started interval r) (ground arith) (ground arith)
        (place_index (pos o +ℤ pos i) started interval r ∙ ground arith) h
  append_ok-Within i recs (err e) le h = Within-more start _ _ recs (ground arith) h
  append_ok-Within i recs panicked le h = Within-more start _ _ recs (ground arith) h
  append_ok-Within i recs stuck le h = Within-more start _ _ recs (ground arith) h

  after_slot-Within :
      (i : ℕ) (recs : List Sample)
      → Within start (later start (o + i)) recs
      → Within start (later start (o + i + 1)) (after_slot i recs)
  after_slot-Within i recs h =
      elim (Bool-cases (ltb_ℤ (pos o +ℤ pos i) (pos start) || not (holds f i))) [
        | inl skip ↦ rw skip (Within-more start _ _ recs (ground arith) h)
        | inr take ↦ rw take (append_ok-Within i recs _ (not_before i take) h)
      ]
    where
      not_before :
          (j : ℕ) → (ltb_ℤ (pos o +ℤ pos j) (pos start) || not (holds f j)) ≡ false → start ≤ o + j
      not_before j e = ground arith

  pub packet_from-Within :
      (rounds i : ℕ) (recs : List Sample)
      → Within start (later start (o + i)) recs
      → Within start
          (later start (o + i + rounds))
          (packet_from f protocol started interval (pos start) (pos o) rounds i recs)
  unfolding packet_from
  packet_from-Within zero i recs h = Within-more start _ _ recs (ground arith) h
  packet_from-Within (suc rounds) i recs h =
      let e : o + i + 1 ≡ o + (i + 1) = omega arith in
      Within-more start (later start (o + (i + 1) + rounds)) (later start (o + i + suc rounds))
        (packet_from f protocol started interval (pos start) (pos o) rounds (i + 1)
          (after_slot i recs))
        (ground arith)
        (packet_from-Within rounds (i + 1) (after_slot i recs) (
          subst (λ k. Within start (later start k) (after_slot i recs)) e
            (after_slot-Within i recs h)))

module _ (T : Transport) (started : Time) (interval start count : ℕ) where
  -- The bound on the records before the packet at `o`.
  abbrev pub reached : ℕ → ℕ
  reached o = later start (min o count)

  packet_Within :
      (f : Frame) (p o : ℕ) (recs : List Sample)
      → o < count
      → Within start (reached o) recs
      → Within start (reached (o + 6)) (
          packet_from f p started interval
            (pos start)
            (pos o)
            (min 6 (pos_part (pos count -ℤ pos o)))
            0
            recs)
  packet_Within f p o recs lt h =
      let valid : ℕ = min 6 (pos_part (pos count -ℤ pos o)) in
      Within-more start (later start (o + 0 + valid)) (reached (o + 6))
        (packet_from f p started interval (pos start) (pos o) valid 0 recs) (ground arith)
        (packet_from-Within f p started interval start o valid 0 recs
          (Within-more start (reached o) (later start (o + 0)) recs (ground arith) h))

  after_packet :
      (r : Outcome Frame) (fuel o p : ℕ) (sent : Bool) (recs out : List Sample) (x : Option Error)
      (s : Session (World T))
      → o < count
      → Within start (reached o) recs
      → ((recs' : List Sample) (s' : Session (World T))
          → (records_loop T fuel count started interval (pos start) (pos (o + 6)) sent recs' s').0
            ≡ ok (out, x)
          → Within start (reached (o + 6)) recs'
          → Within start (later start count) out)
      → (outcome_or
          (λ e. pure (recs, some e))
          (λ f. records_loop T fuel count started interval (pos start) (pos o +ℤ pos 6) sent (
            packet_from f p started interval
              (pos start)
              (pos o)
              (min 6 (pos_part (pos count -ℤ pos o)))
              0
              recs))
          r
          s).0
        ≡ ok (out, x)
      → Within start (later start count) out
  unfolding pure
  after_packet (lost e) fuel o p sent recs out x s lt h rec q =
      let same : recs ≡ out = cc in
      rw (← same) (Within-more start (reached o) (later start count) recs (ground arith) h)
  after_packet (got f) fuel o p sent recs out x s lt h rec q =
      let six : pos o +ℤ pos 6 ≡ pos (o + 6) = ground arith in
      rec _ s (rw six at q) (packet_Within f p o recs lt h)

  pub records_loop-Within :
      (fuel o : ℕ) (sent : Bool) (recs : List Sample) (s : Session (World T)) {out : List Sample}
      {e : Option Error}
      → (records_loop T fuel count started interval (pos start) (pos o) sent recs s).0 ≡ ok (out, e)
      → Within start (reached o) recs
      → Within start (later start count) out
  unfolding records_loop pure out_of_fuel
  records_loop-Within zero o sent recs s q h = cc
  records_loop-Within (suc fuel) o sent recs s {out} {e} q h =
      elim (Bool-cases (ltb_ℤ (pos o) (pos count))) [
        | inl more ↦
            let rec =
              λ (sent' : Bool) (recs' : List Sample) (s' : Session (World T))
                  (q' : (records_loop T fuel count started interval (pos start) (pos (o + 6)) sent'
                      recs' s').0
                    ≡ ok (out, e))
                  (h' : Within start (reached (o + 6)) recs').
                records_loop-Within fuel (o + 6) sent' recs' s' q' h' in
            let (r, p1, q1) = >>=-eq-ok _ _ s (rw more at q) in
            let (p, p2, q2) = >>=-eq-ok _ _ _ q1 in
            after_packet r.0 fuel o p r.1 recs out e _ (ground arith) h (rec r.1) q2
        | inr done ↦
            let same : recs ≡ out = cc (rw done at q) in
            rw (← same) (Within-more start (reached o) (later start count) recs (ground arith) h)
      ]
