-- ===== src/Text/Decimal.antt =====
-- Decimal numbers written and read back.
use go_elite_log.Base.{
  ℕ, zero, suc, ◌+◌, ◌*◌, ◌/◌, ◌%◌, ◌^◌, ◌<◌, ◌≡◌, refl, ◌∙◌, ap, arith, Bool, true, false, [], ◌∷◌,
  ◌==◌, if◌then◌else◌, All, Bool-cases, inl, inr,
}
use go_elite_log.Base.Int.{ℤ, pos, negsuc}
use go_elite_log.Text.{
  Text, is_digit, number, scan, parse_uint, positive, negative, atoi, digits, itoa_ℕ, itoa,
}
use native.Mathlib.Numerals.{unary_clauses}

scan_last : (n : ℕ) (out : Text) → n < 2 ^ 64 → scan (n / 10) ((b'0' + n % 10) ∷ out) ≡ scan n out
unfolding scan
scan_last n out h = ground arith

fewer_digits : (fuel n : ℕ) → n < 10 ^ suc fuel → n / 10 < 10 ^ fuel
fewer_digits fuel n h = let k : n < 10 ^ fuel * 10 = simp unary_clauses at h in omega arith

-- Reading the digits of `n`, and then the rest, is reading the rest behind `n`.
scan-digits :
    (fuel n : ℕ) (out : Text) → n < 10 ^ fuel → n < 2 ^ 64 → scan 0 (digits fuel n out) ≡ scan n out
unfolding digits
scan-digits zero n out h k = let e : n ≡ 0 = omega arith in rw e refl
scan-digits (suc fuel) n out h k = elim (Bool-cases (n / 10 == 0)) [
  | inl done ↦ let z : n / 10 ≡ 0 = ground arith in rw done (rw z at (scan_last n out k))
  | inr more ↦ rw more (
      scan-digits fuel (n / 10) ((b'0' + n % 10) ∷ out) (fewer_digits fuel n h) (omega arith)
      ∙ scan_last n out k)
]

-- A text of digits only, with one at least.
abbrev pub IsNumeral : Text → Type 0
IsNumeral [] = ⊥
IsNumeral (c ∷ s) = (is_digit c ≡ true) × All (λ d. is_digit d ≡ true) s

digit_of : (n : ℕ) → is_digit (b'0' + n % 10) ≡ true
digit_of n = ground arith

either_IsNumeral :
    (b : Bool) (x y : Text) → IsNumeral x → IsNumeral y → IsNumeral (if b then x else y)
either_IsNumeral true x y hx hy = hx
either_IsNumeral false x y hx hy = hy

digits-IsNumeral :
    (fuel n : ℕ) (out : Text)
    → All (λ d. is_digit d ≡ true) out
    → IsNumeral (digits (suc fuel) n out)
unfolding digits
digits-IsNumeral zero n out h = either_IsNumeral (n / 10 == 0) _ _ (digit_of n, h) (digit_of n, h)
digits-IsNumeral (suc fuel) n out h =
    either_IsNumeral (n / 10 == 0) ((b'0' + n % 10) ∷ out)
      (digits (suc fuel) (n / 10) ((b'0' + n % 10) ∷ out)) (digit_of n, h)
      (digits-IsNumeral fuel (n / 10) ((b'0' + n % 10) ∷ out) (digit_of n, h))

pub itoa_ℕ-IsNumeral : (n : ℕ) → IsNumeral (itoa_ℕ n)
unfolding itoa_ℕ
itoa_ℕ-IsNumeral n = digits-IsNumeral 19 n [] tt

parse_uint-numeral : (s : Text) → IsNumeral s → parse_uint s ≡ scan 0 s
unfolding parse_uint
parse_uint-numeral [] h = elim h [ ]
parse_uint-numeral (c ∷ s) h = refl

atoi-numeral : (s : Text) → IsNumeral s → atoi s ≡ positive (parse_uint s)
unfolding atoi
atoi-numeral [] h = elim h [ ]
atoi-numeral (c ∷ s) (d, h) = ground arith

pub parse_uint-itoa_ℕ : (n : ℕ) → n < 2 ^ 64 → parse_uint (itoa_ℕ n) ≡ number n
unfolding itoa_ℕ
parse_uint-itoa_ℕ n h =
    parse_uint-numeral (digits 20 n []) (digits-IsNumeral 19 n [] tt)
    ∙ scan-digits 20 n [] (omega arith) h
    ∙ (unfold scan in refl)

positive_lem : (n : ℕ) → n < 2 ^ 63 → positive (number n) ≡ (pos n, true)
positive_lem n h = ground arith

negative_lem : (n : ℕ) → n < 2 ^ 63 → negative (number (suc n)) ≡ (negsuc n, true)
negative_lem n h = ground arith

atoi_minus : (s : Text) → atoi (b'-' ∷ s) ≡ negative (parse_uint s)
unfolding atoi
atoi_minus s = refl

abbrev pub InInt64 : ℤ → Type 0
InInt64 (pos n) = n < 2 ^ 63
InInt64 (negsuc n) = n < 2 ^ 63

-- Every int64 is read back from its decimal text.
pub atoi-itoa : (v : ℤ) → InInt64 v → atoi (itoa v) ≡ (v, true)
unfolding itoa
atoi-itoa (pos n) h =
    atoi-numeral (itoa_ℕ n) (itoa_ℕ-IsNumeral n)
    ∙ ap positive (parse_uint-itoa_ℕ n (omega arith))
    ∙ positive_lem n h
atoi-itoa (negsuc n) h =
    atoi_minus (itoa_ℕ (suc n))
    ∙ ap negative (parse_uint-itoa_ℕ (suc n) (omega arith))
    ∙ negative_lem n h
