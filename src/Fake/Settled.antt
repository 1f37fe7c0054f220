-- ===== src/Fake/Settled.antt =====
-- internal/elitech/logger.go, `Configure`, on the simulated logger of internal/elitech/fake_test.go:
-- the parameters that it leaves.
use go_elite_log.Base.{ℕ, ◌+◌, ◌≡◌, ◌≤◌, ◌⊎◌, inl, inr, ◌∙◌, arith, List, [], ◌∷◌, length, slice}
use go_elite_log.Logger.Copies.{
  length-copy_at, slice-copy_at_before, slice-copy_at_after, slice-copy_at_inside,
  slice-copy_at_start,
}
use go_elite_log.Logger.Configure.{copy_at}

-- A store of six lists over the parameters `m`, and of four zeros over the count.
module _ (m x0 x1 x2 x3 x4 x5 : List ℕ) where
  abbrev pub second : List ℕ
  second = copy_at 0x30 x1 (copy_at 0 x0 m)

  abbrev pub last : List ℕ
  last = copy_at 0xFD x5 (copy_at 0xCC x4 (copy_at 0x98 x3 (copy_at 0x60 x2 second)))

  abbrev pub settled : List ℕ
  settled = copy_at 0x46 (0 ∷ 0 ∷ 0 ∷ 0 ∷ []) last

  module _ (sized : length m ≡ 0x200) (l0 : length x0 ≡ 48) (l1 : length x1 ≡ 48)
      (l2 : length x2 ≤ 47) where
    length-last : length last ≡ 0x200
    length-last =
        length-copy_at 0xFD x5 _
        ∙ length-copy_at 0xCC x4 _
        ∙ length-copy_at 0x98 x3 _
        ∙ length-copy_at 0x60 x2 _
        ∙ length-copy_at 0x30 x1 _
        ∙ length-copy_at 0 x0 m
        ∙ sized

    pub length-settled : length settled ≡ 0x200
    length-settled = length-copy_at 0x46 _ last ∙ length-last

    -- What lies before the third block and beside the count is as the first two leave it.
    beside :
        (lo hi : ℕ)
        → lo ≤ hi
        → (hi ≤ 0x46) ⊎ (0x4A ≤ lo)
        → hi ≤ 0x60
        → slice lo hi settled ≡ slice lo hi second
    beside lo hi h side k =
        elim side [
          | inl before ↦ slice-copy_at_before lo hi 0x46 _ _ h before
          | inr after ↦ slice-copy_at_after lo hi 0x46 _ _ after
        ]
        ∙ slice-copy_at_before lo hi 0xFD x5 _ h (omega arith)
        ∙ slice-copy_at_before lo hi 0xCC x4 _ h (omega arith)
        ∙ slice-copy_at_before lo hi 0x98 x3 _ h (omega arith)
        ∙ slice-copy_at_before lo hi 0x60 x2 _ h k

    pub slice-settled_first :
        (lo hi : ℕ) → lo ≤ hi → hi ≤ 0x30 → slice lo hi settled ≡ slice lo hi x0
    slice-settled_first lo hi h k =
        beside lo hi h (inl (omega arith)) (omega arith)
        ∙ slice-copy_at_before lo hi 0x30 x1 _ h k
        ∙ slice-copy_at_start lo hi x0 m h (omega arith) (omega arith)

    pub slice-settled_second :
        (lo hi : ℕ)
        → lo ≤ hi
        → (hi ≤ 0x16) ⊎ (0x1A ≤ lo)
        → hi ≤ 0x30
        → slice (0x30 + lo) (0x30 + hi) settled ≡ slice lo hi x1
    slice-settled_second lo hi h side k =
        beside (0x30 + lo) (0x30 + hi) (omega arith)
          (elim side [ inl before ↦ inl (omega arith) | inr after ↦ inr (omega arith) ])
          (omega arith)
        ∙ slice-copy_at_inside 0x30 lo hi x1 _ h (omega arith)
            (omega (arith, length-copy_at 0 x0 m))

    pub slice-settled_count : slice 0x46 0x4A settled ≡ 0 ∷ 0 ∷ 0 ∷ 0 ∷ []
    slice-settled_count =
        slice-copy_at_inside 0x46 0 4 (0 ∷ 0 ∷ 0 ∷ 0 ∷ []) last (omega arith) (omega arith)
          (omega (arith, length-last))

    pub slice-settled_protocol : slice 0x94 0x96 settled ≡ slice 0x94 0x96 m
    slice-settled_protocol =
        slice-copy_at_after 0x94 0x96 0x46 _ _ (omega arith)
        ∙ slice-copy_at_before 0x94 0x96 0xFD x5 _ (omega arith) (omega arith)
        ∙ slice-copy_at_before 0x94 0x96 0xCC x4 _ (omega arith) (omega arith)
        ∙ slice-copy_at_before 0x94 0x96 0x98 x3 _ (omega arith) (omega arith)
        ∙ slice-copy_at_after 0x94 0x96 0x60 x2 _ (omega arith)
        ∙ slice-copy_at_after 0x94 0x96 0x30 x1 _ (omega arith)
        ∙ slice-copy_at_after 0x94 0x96 0 x0 m (omega arith)
