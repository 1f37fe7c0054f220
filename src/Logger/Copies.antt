-- ===== src/Logger/Copies.antt =====
-- `copy` into a range of a slice.
use go_elite_log.Base.{
  ℕ, zero, suc, ◌+◌, ◌-◌, ◌≡◌, ◌≤◌, refl, sym, ap, arith, List, [], ◌∷◌, length, take, drop, slice,
}
use go_elite_log.Logger.Configure.{overlay, copy_at}

pub length-overlay : (src dst : List ℕ) → length (overlay src dst) ≡ length dst
unfolding overlay
length-overlay [] dst = refl
length-overlay (x ∷ xs) [] = refl
length-overlay (x ∷ xs) (y ∷ ys) = ap suc (length-overlay xs ys)

pub length-copy_at : (i : ℕ) (src dst : List ℕ) → length (copy_at i src dst) ≡ length dst
unfolding copy_at
length-copy_at zero src dst = length-overlay src dst
length-copy_at (suc i) src [] = refl
length-copy_at (suc i) src (y ∷ ys) = ap suc (length-copy_at i src ys)

-- A range before the copy is as it was.
take-copy_at : (n i : ℕ) (src dst : List ℕ) → n ≤ i → take n (copy_at i src dst) ≡ take n dst
unfolding copy_at
take-copy_at zero i src dst h = refl
take-copy_at (suc n) zero src dst h = absurd (omega arith)
take-copy_at (suc n) (suc i) src [] h = refl
take-copy_at (suc n) (suc i) src (y ∷ ys) h =
    ap (λ xs. y ∷ xs) (take-copy_at n i src ys (omega arith))

pub slice-copy_at_before :
    (lo hi i : ℕ) (src dst : List ℕ)
    → lo ≤ hi
    → hi ≤ i
    → slice lo hi (copy_at i src dst) ≡ slice lo hi dst
unfolding copy_at
slice-copy_at_before zero hi i src dst h k =
    let e : hi - 0 ≡ hi = omega arith in rw e (take-copy_at hi i src dst k)
slice-copy_at_before (suc lo) zero i src dst h k = absurd (omega arith)
slice-copy_at_before (suc lo) (suc hi) zero src dst h k = absurd (omega arith)
slice-copy_at_before (suc lo) (suc hi) (suc i) src [] h k = refl
slice-copy_at_before (suc lo) (suc hi) (suc i) src (y ∷ ys) h k =
    let e : suc hi - suc lo ≡ hi - lo = omega arith in
    rw e (slice-copy_at_before lo hi i src ys (omega arith) (omega arith))

drop-overlay :
    (lo : ℕ) (src dst : List ℕ) → length src ≤ lo → drop lo (overlay src dst) ≡ drop lo dst
unfolding overlay
drop-overlay lo [] dst h = refl
drop-overlay zero (x ∷ xs) dst h = absurd (omega arith)
drop-overlay (suc lo) (x ∷ xs) [] h = refl
drop-overlay (suc lo) (x ∷ xs) (y ∷ ys) h = drop-overlay lo xs ys (omega arith)

drop-copy_at :
    (lo i : ℕ) (src dst : List ℕ) → i + length src ≤ lo → drop lo (copy_at i src dst) ≡ drop lo dst
unfolding copy_at
drop-copy_at lo zero src dst h = drop-overlay lo src dst (omega arith)
drop-copy_at zero (suc i) src dst h = absurd (omega arith)
drop-copy_at (suc lo) (suc i) src [] h = refl
drop-copy_at (suc lo) (suc i) src (y ∷ ys) h = drop-copy_at lo i src ys (omega arith)

-- A range behind the copy is as it was.
pub slice-copy_at_after :
    (lo hi i : ℕ) (src dst : List ℕ)
    → i + length src ≤ lo
    → slice lo hi (copy_at i src dst) ≡ slice lo hi dst
slice-copy_at_after lo hi i src dst h = ap (take (hi - lo)) (drop-copy_at lo i src dst h)

take-overlay_part :
    (n : ℕ) (src dst : List ℕ)
    → n ≤ length src
    → length src ≤ length dst
    → take n (overlay src dst) ≡ take n src
unfolding overlay
take-overlay_part zero src dst h k = refl
take-overlay_part (suc n) [] dst h k = absurd (omega arith)
take-overlay_part (suc n) (x ∷ xs) [] h k = absurd (omega arith)
take-overlay_part (suc n) (x ∷ xs) (y ∷ ys) h k =
    ap (λ zs. x ∷ zs) (take-overlay_part n xs ys (omega arith) (omega arith))

slice-overlay :
    (lo hi : ℕ) (src dst : List ℕ)
    → lo ≤ hi
    → hi ≤ length src
    → length src ≤ length dst
    → slice lo hi (overlay src dst) ≡ slice lo hi src
unfolding overlay
slice-overlay zero hi src dst l h k = take-overlay_part (hi - 0) src dst (omega arith) k
slice-overlay (suc lo) hi [] dst l h k = absurd (omega arith)
slice-overlay (suc lo) hi (x ∷ xs) [] l h k = absurd (omega arith)
slice-overlay (suc lo) hi (x ∷ xs) (y ∷ ys) l h k =
    let e : hi - suc lo ≡ hi - 1 - lo = omega arith in
    rw e (slice-overlay lo (hi - 1) xs ys (omega arith) (omega arith) (omega arith))

pub slice-copy_at_start :
    (lo hi : ℕ) (src dst : List ℕ)
    → lo ≤ hi
    → hi ≤ length src
    → length src ≤ length dst
    → slice lo hi (copy_at 0 src dst) ≡ slice lo hi src
unfolding copy_at
slice-copy_at_start lo hi src dst l h k = slice-overlay lo hi src dst l h k

-- A range inside the copy is the part of the source that went there.
pub slice-copy_at_inside :
    (i lo hi : ℕ) (src dst : List ℕ)
    → lo ≤ hi
    → hi ≤ length src
    → i + length src ≤ length dst
    → slice (i + lo) (i + hi) (copy_at i src dst) ≡ slice lo hi src
unfolding copy_at
slice-copy_at_inside zero lo hi src dst l h k =
    let a : 0 + lo ≡ lo = omega arith in
    let b : 0 + hi ≡ hi = omega arith in rw (a, b) (slice-overlay lo hi src dst l h (omega arith))
slice-copy_at_inside (suc i) lo hi src [] l h k = absurd (omega arith)
slice-copy_at_inside (suc i) lo hi src (y ∷ ys) l h k =
    let a : suc i + lo ≡ suc (i + lo) = omega arith in
    let b : suc i + hi - suc (i + lo) ≡ i + hi - (i + lo) = omega arith in
    rw (a, b) (slice-copy_at_inside i lo hi src ys l h (omega arith))

take-nil : (n : ℕ) → take {A = ℕ} n [] ≡ []
take-nil zero = refl
take-nil (suc n) = refl

drop-take : (lo n : ℕ) (xs : List ℕ) → drop lo (take n xs) ≡ take (n - lo) (drop lo xs)
drop-take zero n xs = let e : n - 0 ≡ n = omega arith in rw e refl
drop-take (suc lo) zero xs = let e : 0 - suc lo ≡ 0 = omega arith in rw e refl
drop-take (suc lo) (suc n) [] =
    let e : suc n - suc lo ≡ n - lo = omega arith in rw e (sym (take-nil (n - lo)))
drop-take (suc lo) (suc n) (x ∷ xs) =
    let e : suc n - suc lo ≡ n - lo = omega arith in rw e (drop-take lo n xs)

take-take : (m n : ℕ) (xs : List ℕ) → m ≤ n → take m (take n xs) ≡ take m xs
take-take zero n xs h = refl
take-take (suc m) zero xs h = absurd (omega arith)
take-take (suc m) (suc n) [] h = refl
take-take (suc m) (suc n) (x ∷ xs) h = ap (λ ys. x ∷ ys) (take-take m n xs (omega arith))

drop-drop : (m n : ℕ) (xs : List ℕ) → drop m (drop n xs) ≡ drop (n + m) xs
drop-drop m zero xs = let e : 0 + m ≡ m = omega arith in rw e refl
drop-drop zero (suc n) [] = let e : suc n + 0 ≡ suc n = omega arith in rw e refl
drop-drop (suc m) (suc n) [] = let e : suc n + suc m ≡ suc (n + suc m) = omega arith in rw e refl
drop-drop m (suc n) (x ∷ xs) =
    let e : suc n + m ≡ suc (n + m) = omega arith in rw e (drop-drop m n xs)

-- A range of a range.
pub slice-slice :
    (a b lo hi : ℕ) (xs : List ℕ)
    → lo ≤ hi
    → a + hi ≤ b
    → slice lo hi (slice a b xs) ≡ slice (a + lo) (a + hi) xs
slice-slice a b lo hi xs l h =
    let n : a + hi - (a + lo) ≡ hi - lo = omega arith in
    rw (n, drop-take lo (b - a) (drop a xs), drop-drop lo a xs)
      (take-take (hi - lo) (b - a - lo) (drop (a + lo) xs) (omega arith))

pub slice-take :
    (lo hi n : ℕ) (xs : List ℕ) → lo ≤ hi → hi ≤ n → slice lo hi (take n xs) ≡ slice lo hi xs
slice-take lo hi n xs l h =
    rw (drop-take lo n xs) (take-take (hi - lo) (n - lo) (drop lo xs) (omega arith))
