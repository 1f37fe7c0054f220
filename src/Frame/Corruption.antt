-- ===== src/Frame/Corruption.antt =====
-- internal/elitech/frame.go: what the checksum of a report detects.
use go_elite_log.Base.{
  ℕ, zero, suc, ◌+◌, ◌-◌, ◌%◌, ◌≤◌, ◌<◌, ◌≡◌, ◌≢◌, arith, List, [], ◌∷◌, length, set, take,
  length-take, get_or-set_self, get_or-set_ne, take-set, set_beyond, get_or-take,
}
use go_elite_log.Base.Result.{ok, err, bad_frame}
use go_elite_log.Frame.{Frame, at, checksum, checksum_from, decode_frame}
use native.Mathlib.Decide.{dec_lt}

abbrev sum : List ℕ → ℕ
sum [] = 0
sum (x ∷ xs) = x + sum xs

checksum_from-sum : (s : ℕ) (b : List ℕ) → s < 256 → checksum_from s b ≡ (s + sum b) % 256
unfolding checksum_from
checksum_from-sum s [] h = omega arith
checksum_from-sum s (x ∷ xs) h = omega (arith, checksum_from-sum ((s + x) % 256) xs (omega arith))

-- The checksum is the sum of the bytes, modulo 256.
pub checksum-sum : (b : List ℕ) → checksum b ≡ sum b % 256
unfolding checksum
checksum-sum b = omega (arith, checksum_from-sum 0 b (omega arith))

sum-set : (xs : List ℕ) (i v : ℕ) → i < length xs → sum (set xs i v) + at xs i ≡ sum xs + v
sum-set [] i v h = elim h [ ]
sum-set (x ∷ xs) zero v h = omega arith
sum-set (x ∷ xs) (suc i) v h = omega (arith, sum-set xs i v (omega arith))

-- A list with one byte changed has another checksum.
pub checksum-set :
    (xs : List ℕ) (i v : ℕ)
    → i < length xs
    → at xs i < 256
    → v < 256
    → v ≢ at xs i
    → checksum (set xs i v) ≢ checksum xs
checksum-set xs i v h hx hv ne e =
    absurd (omega (arith, checksum-sum (set xs i v), checksum-sum xs, sum-set xs i v h))

-- What a report that decodes has passed.
pub record IsSound (buf : List ℕ) : Type 0 where
  pub long_enough : 12 ≤ length buf
  pub magic0 : at buf 0 ≡ 0x33
  pub magic1 : at buf 1 ≡ 0xCC
  pub magic2 : at buf 2 ≡ 0x00
  pub len_lo : 12 ≤ at buf 3
  pub len_hi : at buf 3 ≤ length buf
  pub sum_ok : at buf (at buf 3 - 1) ≡ checksum (take (at buf 3 - 1) buf)

pub decode-IsSound : (buf : List ℕ) {f : Frame} → decode_frame buf ≡ ok f → IsSound buf
unfolding decode_frame
decode-IsSound buf h = ground arith

refuse_sum :
    (buf : List ℕ) (l : ℕ)
    → at buf 3 ≡ l
    → at buf (l - 1) ≢ checksum (take (l - 1) buf)
    → decode_frame buf ≡ err bad_frame
unfolding decode_frame
refuse_sum buf l e h = ground arith

module _ (buf : List ℕ) (i v : ℕ) (hx : at buf i < 256) (hv : v < 256) (change : v ≢ at buf i) where
  sum_broken :
      (n : ℕ)
      → i ≤ n
      → n < length buf
      → at buf n ≡ checksum (take n buf)
      → at (set buf i v) n ≢ checksum (take n (set buf i v))
  sum_broken n le lt e = elim (dec_lt i n) [
    | yes inside ↦ λ eq.
        checksum-set (take n buf) i v (omega (arith, length-take n buf))
          (omega (arith, get_or-take n i buf 0 inside)) hv
          (omega (arith, get_or-take n i buf 0 inside))
          (cc (eq, e, take-set n i buf v, get_or-set_ne buf i n v 0 (omega arith)))
    | no outside ↦ λ eq. change (
        cc (
          eq,
          e,
          (let q : i ≡ n = omega arith in q),
          take-set n i buf v,
          get_or-set_self buf i v 0 (omega arith),
          set_beyond (take n buf) i v (omega (arith, length-take n buf)),
        ))
  ]

-- If a report decodes, and one byte that LEN covers, other than LEN itself, is changed to another
-- byte, the report is refused as malformed.
pub decode-set :
    (buf : List ℕ) {f : Frame} (i v : ℕ)
    → decode_frame buf ≡ ok f
    → i < at buf 3
    → i ≢ 3
    → at buf i < 256
    → v < 256
    → v ≢ at buf i
    → decode_frame (set buf i v) ≡ err bad_frame
decode-set buf i v h lt ne hx hv change =
    let s = decode-IsSound buf h in
    refuse_sum (set buf i v) (at buf 3) (get_or-set_ne buf i 3 v 0 ne)
      (sum_broken buf i v hx hv change (at buf 3 - 1) (omega arith) (omega arith) s.sum_ok)
