-- ===== src/Info/Emptied.antt =====
-- internal/elitech/info.go, `decodeCapacityCount`, of a block whose count has been erased.
use go_elite_log.Base.{
  ℕ, ◌≡◌, refl, sym, ap, ◌∙◌, arith, Bool, true, false, Option, none, some, List, [], ◌∷◌, length,
  slice, leb, if◌then◌else◌,
}
use go_elite_log.Info.{Counts, decode_capacity_count, capacity_of, count_of, checked_counts, is_ff}
use go_elite_log.Record.{all_ff}

capacity_lem :
    (cap cnt : Option ℕ) (c : Counts) → checked_counts cap cnt ≡ some c → cap ≡ some c.capacity
capacity_lem none cnt c h = cc h
capacity_lem (some a) none c h = cc h
capacity_lem (some a) (some b) c h = ground arith

either_way : (b : Bool) (x : Option ℕ) → (if b then x else x) ≡ x
either_way true x = refl
either_way false x = refl

count_zero :
    (b : List ℕ) (p : ℕ)
    → slice 4 8 b ≡ 0 ∷ 0 ∷ 0 ∷ 0 ∷ []
    → slice 6 8 b ≡ 0 ∷ 0 ∷ []
    → count_of b p ≡ some 0
unfolding count_of is_ff all_ff
count_zero b p h k = rw (h, k) (either_way (leb 0x24 p) (some 0))

same_capacity :
    (b b' : List ℕ)
    → slice 0 4 b' ≡ slice 0 4 b
    → slice 0 2 b' ≡ slice 0 2 b
    → slice 2 4 b' ≡ slice 2 4 b
    → capacity_of b' ≡ capacity_of b
unfolding capacity_of
same_capacity b b' h0 h1 h2 = rw (h0, h1, h2) refl

halves_lem :
    (b : List ℕ) (p : ℕ)
    → length b ≡ 10
    → decode_capacity_count b p ≡ checked_counts (capacity_of b) (count_of b p)
unfolding decode_capacity_count
halves_lem b p l = rw l refl

none_stored :
    (capacity : ℕ)
    → checked_counts (some capacity) (some 0) ≡ some (record { capacity = capacity; count = 0 })
none_stored capacity = ground arith

-- The same capacity, and no records.
pub decode-emptied :
    (b b' : List ℕ) (p : ℕ) (c : Counts)
    → decode_capacity_count b p ≡ some c
    → length b ≡ 10
    → length b' ≡ 10
    → slice 0 4 b' ≡ slice 0 4 b
    → slice 0 2 b' ≡ slice 0 2 b
    → slice 2 4 b' ≡ slice 2 4 b
    → slice 4 8 b' ≡ 0 ∷ 0 ∷ 0 ∷ 0 ∷ []
    → slice 6 8 b' ≡ 0 ∷ 0 ∷ []
    → decode_capacity_count b' p ≡ some (record { capacity = c.capacity; count = 0 })
decode-emptied b b' p c e l l' h0 h1 h2 z z2 =
    let capacity : capacity_of b ≡ some c.capacity =
      capacity_lem (capacity_of b) (count_of b p) c (sym (halves_lem b p l) ∙ e) in
    halves_lem b' p l'
    ∙ ap (λ o. checked_counts o (count_of b' p)) (same_capacity b b' h0 h1 h2 ∙ capacity)
    ∙ ap (checked_counts (some c.capacity)) (count_zero b' p z z2)
    ∙ none_stored c.capacity
