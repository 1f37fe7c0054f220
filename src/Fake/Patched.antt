-- ===== src/Fake/Patched.antt =====
-- internal/elitech/logger.go, `Configure`, on the simulated logger of internal/elitech/fake_test.go:
-- the six blocks as they are written.
use go_elite_log.Base.{
  ℕ, ◌≡◌, ◌≤◌, refl, ◌∙◌, arith, Option, none, some, List, [], ◌∷◌, length, take, get_or, slice,
  length-set,
}
use go_elite_log.Info.{encode_date_time}
use go_elite_log.Base.Int.{pos}
use go_elite_log.Logger.Copies.{length-copy_at, slice-copy_at_before}
use go_elite_log.Logger.Configure.{Settings, Block, config_blocks, patch_blocks, modify, copy_at}
use go_elite_log.Logger.Written.{written}
use go_elite_log.Fake.{FakeDevice, big_endian32}
use go_elite_log.Fake.Memory.{with_bytes}
use go_elite_log.Fake.Writes.{with_blocks}

-- Six blocks over the parameters.
pub six_blocks :
    (d : FakeDevice) (ps : List (List ℕ))
    → length ps ≡ 6
    → copy_at 0x46 (big_endian32 0) (with_blocks config_blocks ps d).mem
      ≡ copy_at 0x46 (0 ∷ 0 ∷ 0 ∷ 0 ∷ []) (
          copy_at 0xFD (take 47 (get_or ps 5 [])) (
            copy_at 0xCC (take 48 (get_or ps 4 [])) (
              copy_at 0x98 (take 52 (get_or ps 3 [])) (
                copy_at 0x60 (take 47 (get_or ps 2 [])) (
                  copy_at 0x30
                    (take 48 (get_or ps 1 []))
                    (copy_at 0 (take 48 (get_or ps 0 [])) d.mem))))))
six_blocks d (p0 ∷ p1 ∷ p2 ∷ p3 ∷ p4 ∷ p5 ∷ []) h = refl
six_blocks d [] h = absurd (omega arith)
six_blocks d (p0 ∷ []) h = absurd (omega arith)
six_blocks d (p0 ∷ p1 ∷ []) h = absurd (omega arith)
six_blocks d (p0 ∷ p1 ∷ p2 ∷ []) h = absurd (omega arith)
six_blocks d (p0 ∷ p1 ∷ p2 ∷ p3 ∷ []) h = absurd (omega arith)
six_blocks d (p0 ∷ p1 ∷ p2 ∷ p3 ∷ p4 ∷ []) h = absurd (omega arith)
six_blocks d (p0 ∷ p1 ∷ p2 ∷ p3 ∷ p4 ∷ p5 ∷ p6 ∷ ps) h = absurd (omega arith)

pub length-first :
    (s : Settings) (clock : Option ℕ) (b0 b1 : List ℕ) (rest : List (List ℕ))
    → length (get_or (written s clock b0 b1 rest) 0 []) ≡ length b0
unfolding patch_blocks modify
length-first s none b0 b1 rest = length-set b0 0x20 _
length-first s (some t) b0 b1 rest =
    length-copy_at 0x28 (encode_date_time (pos t)) _ ∙ length-set b0 0x20 _

pub length-second :
    (s : Settings) (clock : Option ℕ) (b0 b1 : List ℕ) (rest : List (List ℕ))
    → length (get_or (written s clock b0 b1 rest) 1 []) ≡ length b1
unfolding patch_blocks modify
length-second s none b0 b1 rest = length-copy_at 0x1C _ b1
length-second s (some t) b0 b1 rest = length-copy_at 0x1C _ b1

-- The second block before the interval is as it was.
pub second_before :
    (s : Settings) (clock : Option ℕ) (b0 b1 : List ℕ) (rest : List (List ℕ)) (lo hi : ℕ)
    → lo ≤ hi
    → hi ≤ 0x1C
    → slice lo hi (get_or (written s clock b0 b1 rest) 1 []) ≡ slice lo hi b1
unfolding patch_blocks modify
second_before s none b0 b1 rest lo hi h k = slice-copy_at_before lo hi 0x1C _ b1 h k
second_before s (some t) b0 b1 rest lo hi h k = slice-copy_at_before lo hi 0x1C _ b1 h k

pub with_blocks_same :
    {A : Type 0} (f : FakeDevice → A)
    → ((offset : ℕ) (b : List ℕ) (d : FakeDevice) → f (with_bytes offset b d) ≡ f d)
    → (bs : List Block) (ps : List (List ℕ)) (d : FakeDevice) → f (with_blocks bs ps d) ≡ f d
with_blocks_same f h [] ps d = refl
with_blocks_same f h (b ∷ bs) [] d = refl
with_blocks_same f h (b ∷ bs) (p ∷ ps) d =
    with_blocks_same f h bs ps _ ∙ h b.offset (take b.written p) d
