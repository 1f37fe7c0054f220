-- ===== src/Fake/Configured.antt =====
-- internal/elitech/logger.go, `Configure`, on the simulated logger of internal/elitech/fake_test.go:
-- what `Info` reads behind it.
use go_elite_log.Base.{
  ℕ, zero, suc, ◌+◌, ◌-◌, ◌≡◌, ◌≤◌, ◌⊎◌, inl, inr, refl, sym, ap, ◌∙◌, arith, true, Option, some,
  List, [], ◌∷◌, length, take, get_or, slice, length-take, length-slice,
}
use go_elite_log.Frame.{at}
use go_elite_log.Info.{
  Counts, decode_capacity_count, encode_interval, decode_interval, decode_start_byte,
}
use go_elite_log.Logger.Copies.{slice-slice, slice-take}
use go_elite_log.Logger.Configure.{
  Settings, config_blocks, patch_blocks, valid_interval, verify_settings,
}
use go_elite_log.Logger.Panics.Methods.{length-patch_blocks}
use go_elite_log.Logger.Written.{interval_written, decode-encode_valid, verify-patch_blocks}
use go_elite_log.Logger.Identity.{or_no_interval}
use go_elite_log.Fake.{FakeDevice}
use go_elite_log.Fake.Memory.{Plain, with_bytes}
use go_elite_log.Fake.Methods.{bytes, protocol_of}
use go_elite_log.Fake.Writes.{blocks_of, with_blocks, configured}
use go_elite_log.Fake.Inspect.{info_of}
use go_elite_log.Fake.Settled.{
  settled, length-settled, slice-settled_first, slice-settled_second, slice-settled_count,
  slice-settled_protocol,
}
use go_elite_log.Info.Emptied.{decode-emptied}
use go_elite_log.Fake.Patched.{
  six_blocks, length-first, length-second, second_before, with_blocks_same,
}

at-slice : (i : ℕ) (xs : List ℕ) → at (slice i (i + 1) xs) 0 ≡ at xs i
at-slice zero [] = refl
at-slice zero (x ∷ xs) = refl
at-slice (suc i) [] = let e : suc i + 1 - suc i ≡ 1 = omega arith in rw e refl
at-slice (suc i) (x ∷ xs) =
    let e : suc i + 1 - suc i ≡ i + 1 - i = omega arith in rw e (at-slice i xs)

module _ (d : FakeDevice) (plain : Plain d) (s : Settings) (clock : Option ℕ) where
  abbrev patched : List (List ℕ)
  patched = patch_blocks s clock (blocks_of d config_blocks)

  abbrev x : ℕ → ℕ → List ℕ
  x w i = take w (get_or patched i [])

  mem-configured :
      (configured s clock d).mem
      ≡ settled d.mem (x 48 0) (x 48 1) (x 47 2) (x 52 3) (x 48 4) (x 47 5)
  mem-configured = six_blocks d patched (length-patch_blocks s clock (blocks_of d config_blocks))

  abbrev b0 : List ℕ
  b0 = bytes d 0x00 0x30

  abbrev b1 : List ℕ
  b1 = bytes d 0x30 0x30

  l0 : length b0 ≡ 48
  l0 = omega (arith, length-slice 0x00 0x30 d.mem (omega arith) (rw plain.memory (omega arith)))

  l1 : length b1 ≡ 48
  l1 = omega (arith, length-slice 0x30 0x60 d.mem (omega arith) (rw plain.memory (omega arith)))

  x0 : length (x 48 0) ≡ 48
  x0 = omega (arith, length-take 48 (get_or patched 0 []), length-first s clock b0 b1 _, l0)

  x1 : length (x 48 1) ≡ 48
  x1 = omega (arith, length-take 48 (get_or patched 1 []), length-second s clock b0 b1 _, l1)

  x2 : length (x 47 2) ≤ 47
  x2 = omega (arith, length-take 47 (get_or patched 2 []))

  abbrev d' : FakeDevice
  d' = configured s clock d

  from_first :
      (lo hi : ℕ) → lo ≤ hi → hi ≤ 0x30 → slice lo hi d'.mem ≡ slice lo hi (get_or patched 0 [])
  from_first lo hi h k =
      ap (slice lo hi) mem-configured
      ∙ slice-settled_first d.mem _ _ _ _ _ _ plain.memory x0 x1 x2 lo hi h k
      ∙ slice-take lo hi 48 (get_or patched 0 []) h k

  from_second :
      (lo hi : ℕ)
      → lo ≤ hi
      → (hi ≤ 0x16) ⊎ (0x1A ≤ lo)
      → hi ≤ 0x30
      → slice (0x30 + lo) (0x30 + hi) d'.mem ≡ slice lo hi (get_or patched 1 [])
  from_second lo hi h side k =
      ap (slice (0x30 + lo) (0x30 + hi)) mem-configured
      ∙ slice-settled_second d.mem _ _ _ _ _ _ plain.memory x0 x1 x2 lo hi h side k
      ∙ slice-take lo hi 48 (get_or patched 1 []) h k

  length-memory : length d'.mem ≡ 0x200
  length-memory = ap length mem-configured ∙ length-settled d.mem _ _ _ _ _ _ plain.memory x0 x1 x2

  protocol_kept : protocol_of d' ≡ protocol_of d
  protocol_kept =
      ap (λ m. at (slice 0x94 0x96 m) 1) mem-configured
      ∙ ap (λ b. at b 1) (slice-settled_protocol d.mem _ _ _ _ _ _ plain.memory x0 x1 x2)

  count_erased : slice 0x46 0x4A d'.mem ≡ 0 ∷ 0 ∷ 0 ∷ 0 ∷ []
  count_erased =
      ap (slice 0x46 0x4A) mem-configured
      ∙ slice-settled_count d.mem _ _ _ _ _ _ plain.memory x0 x1 x2

  capacity_kept :
      (lo hi : ℕ)
      → lo ≤ hi
      → hi ≤ 4
      → slice lo hi (bytes d' 0x42 10) ≡ slice lo hi (bytes d 0x42 10)
  capacity_kept lo hi h k =
      let a : 0x42 + lo ≡ 0x30 + (0x12 + lo) = omega arith in
      let b : 0x42 + hi ≡ 0x30 + (0x12 + hi) = omega arith in
      let same : slice (0x42 + lo) (0x42 + hi) d'.mem ≡ slice (0x42 + lo) (0x42 + hi) d.mem =
        rw (a, b)
          (from_second (0x12 + lo) (0x12 + hi) (omega arith) (inl (omega arith)) (omega arith)
            ∙ second_before s clock b0 b1 _ (0x12 + lo) (0x12 + hi) (omega arith) (omega arith)
            ∙ slice-slice 0x30 0x60 (0x12 + lo) (0x12 + hi) d.mem (omega arith) (omega arith)) in
      slice-slice 0x42 0x4C lo hi d'.mem h (omega arith)
      ∙ same
      ∙ sym (slice-slice 0x42 0x4C lo hi d.mem h (omega arith))

  pub same :
      {A : Type 0} (f : FakeDevice → A)
      → ((offset : ℕ) (b : List ℕ) (v : FakeDevice) → f (with_bytes offset b v) ≡ f v)
      → f (with_blocks config_blocks patched d) ≡ f d
  same f h = with_blocks_same f h config_blocks patched d

  pub Plain-configured : Plain d'
  Plain-configured = record {
    narrow = same (λ v. v.wide_reads) (λ o b v. refl) ∙ plain.narrow;
    counted = same (λ v. v.capacity_ff_until) (λ o b v. refl) ∙ plain.counted;
    ready = same (λ v. v.needs_preamble) (λ o b v. refl) ∙ plain.ready;
    memory = length-memory;
    states = same (λ v. length v.stat) (λ o b v. refl) ∙ plain.states;
  }

  -- The count is gone, and the capacity is as it was.
  pub counts-configured :
      (c : Counts)
      → decode_capacity_count (bytes d 0x42 10) (protocol_of d) ≡ some c
      → decode_capacity_count (bytes d' 0x42 10) (protocol_of d')
        ≡ some (record { capacity = c.capacity; count = 0 })
  counts-configured c e = rw protocol_kept (
      decode-emptied (bytes d 0x42 10) (bytes d' 0x42 10) (protocol_of d) c e
        (omega (arith, length-slice 0x42 0x4C d.mem (omega arith) (rw plain.memory (omega arith))))
        (omega
          (arith, length-slice 0x42 0x4C d'.mem (omega arith) (rw length-memory (omega arith))))
        (capacity_kept 0 4 (omega arith) (omega arith))
        (capacity_kept 0 2 (omega arith) (omega arith))
        (capacity_kept 2 4 (omega arith) (omega arith))
        (slice-slice 0x42 0x4C 4 8 d'.mem (omega arith) (omega arith) ∙ count_erased)
        (slice-slice 0x42 0x4C 6 8 d'.mem (omega arith) (omega arith)
          ∙ sym (slice-slice 0x46 0x4A 2 4 d'.mem (omega arith) (omega arith))
          ∙ ap (slice 2 4) count_erased))

  -- `VerifySettings` accepts what `Info` reads behind `Configure`.
  pub verify-configured :
      (c : Counts) → valid_interval s.interval ≡ true → verify_settings (info_of d' c) s ≡ []
  verify-configured c v =
      let interval : slice 0x1C 0x1E (get_or patched 1 []) ≡ encode_interval s.interval =
        interval_written s clock b0 b1 _ (omega (arith, l1)) in
      let read : bytes d' 0x4C 2 ≡ slice 0x1C 0x1E (get_or patched 1 []) =
        from_second 0x1C 0x1E (omega arith) (inr (omega arith)) (omega arith) in
      let stored : decode_interval (slice 0x1C 0x1E (get_or patched 1 [])) ≡ some s.interval =
        ap decode_interval interval ∙ decode-encode_valid s.interval v in
      let shown : (info_of d' c).interval ≡ s.interval =
        ap (λ b. or_no_interval (decode_interval b)) read ∙ ap or_no_interval stored in
      let start : at (get_or patched 0 []) 0x20 ≡ at (bytes d' 0x20 1) 0 =
        sym (at-slice 0x20 (get_or patched 0 []))
        ∙ ap (λ b. at b 0) (sym (from_first 0x20 0x21 (omega arith) (omega arith))) in
      verify-patch_blocks s clock b0 b1 _ (info_of d' c) v (omega (arith, l0)) (omega (arith, l1))
        (stored ∙ ap some (sym shown)) (ap decode_start_byte start)
