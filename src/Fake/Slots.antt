-- ===== src/Fake/Slots.antt =====
-- The records in the slots of the simulated logger of internal/elitech/fake_test.go.
use go_elite_log.Base.{
  ℕ, zero, suc, ◌+◌, ◌≡◌, ◌≤◌, refl, sym, arith, true, false, List, [], ◌∷◌, ◌++◌, ltb,
  if◌then◌else◌,
}
use mathlib.Core.List.{append-nil, append_assoc}
use go_elite_log.Base.Int.{pos}
use go_elite_log.Base.Result.{Result, ok, err, panicked, stuck}
use go_elite_log.Calendar.{Time}
use go_elite_log.Record.{Sample, decode_record_at}
use go_elite_log.Logger.Download.{place, append_ok}
use go_elite_log.Fake.{FakeDevice, slot}

-- What slot `idx` gives: a record with its index and its time, or nothing.
abbrev pub sample_of : Time → ℕ → ℕ → Result Sample → List Sample
sample_of started interval idx (ok r) = place (pos idx) started interval r ∷ []
sample_of started interval idx (err e) = []
sample_of started interval idx panicked = []
sample_of started interval idx stuck = []

module _ (d : FakeDevice) (p : ℕ) (started : Time) (interval : ℕ) where
  -- What the `n` slots from `idx` on give.
  unfoldable pub stored : ℕ → ℕ → List Sample
  stored zero idx = []
  stored (suc n) idx =
      sample_of started interval idx (decode_record_at (slot d idx) p) ++ stored n (idx + 1)

  -- The same, without those before `start`.
  unfoldable pub stored_since : ℕ → ℕ → ℕ → List Sample
  stored_since start zero idx = []
  stored_since start (suc n) idx =
      (if ltb idx start
        then []
        else sample_of started interval idx (decode_record_at (slot d idx) p))
      ++ stored_since start n (idx + 1)

  pub stored_since-split :
      (start m n idx : ℕ)
      → stored_since start (m + n) idx ≡ stored_since start m idx ++ stored_since start n (idx + m)
  unfolding stored_since
  stored_since-split start zero n idx =
      let e : 0 + n ≡ n = omega arith in let i : idx + 0 ≡ idx = omega arith in rw (e, i) refl
  stored_since-split start (suc m) n idx =
      let e : suc m + n ≡ suc (m + n) = omega arith in
      let i : idx + suc m ≡ idx + 1 + m = omega arith in
      rw (e, i, stored_since-split start m n (idx + 1))
        (sym (append_assoc _ (stored_since start m (idx + 1)) _))

  -- From `start` on nothing is left out.
  stored_since-start : (n start idx : ℕ) → start ≤ idx → stored_since start n idx ≡ stored n idx
  unfolding stored_since stored
  stored_since-start zero start idx h = refl
  stored_since-start (suc n) start idx h =
      let kept : ltb idx start ≡ false = ground arith in
      rw (kept, stored_since-start n start (idx + 1) (omega arith)) refl

  -- The slots before `start` give nothing.
  pub stored_since_before :
      (m n idx start : ℕ) → start ≡ idx + m → stored_since start (m + n) idx ≡ stored n start
  unfolding stored_since
  stored_since_before zero n idx start e =
      let q : start ≡ idx = omega arith in
      let z : 0 + n ≡ n = omega arith in rw (z, q) (stored_since-start n idx idx (omega arith))
  stored_since_before (suc m) n idx start e =
      let left_out : ltb idx start ≡ true = ground arith in
      let more : suc m + n ≡ suc (m + n) = omega arith in
      rw (more, left_out) (stored_since_before m n (idx + 1) start (omega arith))

  pub append_ok-eq :
      (idx : ℕ) (recs : List Sample) (r : Result Sample)
      → append_ok recs (place (pos idx) started interval) r
        ≡ recs ++ sample_of started interval idx r
  append_ok-eq idx recs (ok r) = refl
  append_ok-eq idx recs (err e) = sym (append-nil recs)
  append_ok-eq idx recs panicked = sym (append-nil recs)
  append_ok-eq idx recs stuck = sym (append-nil recs)
