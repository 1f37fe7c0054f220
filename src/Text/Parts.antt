-- ===== src/Text/Parts.antt =====
-- Texts cut at a separator, and numbers in hexadecimal digits.
use go_elite_log.Base.{
  ℕ, zero, suc, ◌+◌, ◌*◌, ◌/◌, ◌%◌, ◌^◌, ◌<◌, ◌≡◌, ◌≢◌, ◌↔◌, refl, ◌∙◌, ap, arith, true, [], ◌∷◌,
  ◌++◌, some, All,
}
use go_elite_log.Text.{
  Text, text_eq, split, cut, hex_value, hex_digit, hex_text, scan_hex, parse_hex,
}

text_eq_refl : (s : Text) → text_eq s s ≡ true
text_eq_refl [] = refl
text_eq_refl (c ∷ s) = ground (arith, text_eq_refl s)

eq_of_text_eq : (s t : Text) → text_eq s t ≡ true → s ≡ t
eq_of_text_eq [] [] h = refl
eq_of_text_eq [] (d ∷ t) h = cc
eq_of_text_eq (c ∷ s) [] h = cc
eq_of_text_eq (c ∷ s) (d ∷ t) h = ground (arith, eq_of_text_eq s t)

pub text_eq_iff : (s t : Text) → (text_eq s t ≡ true) ↔ (s ≡ t)
text_eq_iff s t = (eq_of_text_eq s t, λ e. rw e (text_eq_refl t))

abbrev pub Lacks : ℕ → Text → Type 0
Lacks sep s = All (λ c. c ≢ sep) s

pub split_end : (sep : ℕ) (a : Text) → Lacks sep a → split sep a ≡ a ∷ []
unfolding split
split_end sep [] h = refl
split_end sep (c ∷ a) (hc, ha) = ground (arith, split_end sep a ha)

split_at : (sep : ℕ) (a s : Text) → Lacks sep a → split sep (a ++ (sep ∷ s)) ≡ a ∷ split sep s
unfolding split
split_at sep [] s h = ground arith
split_at sep (c ∷ a) s (hc, ha) = ground (arith, split_at sep a s ha)

-- Three parts without the separator come back.
pub split_three :
    (sep : ℕ) (a b c : Text)
    → Lacks sep a
    → Lacks sep b
    → Lacks sep c
    → split sep (a ++ (sep ∷ (b ++ (sep ∷ c)))) ≡ a ∷ b ∷ c ∷ []
split_three sep a b c ha hb hc =
    split_at sep a (b ++ (sep ∷ c)) ha
    ∙ ap (λ ps. a ∷ ps) (split_at sep b c hb ∙ ap (λ ps. b ∷ ps) (split_end sep c hc))

cut_at : (sep : ℕ) (a s : Text) → Lacks sep a → cut sep (a ++ (sep ∷ s)) ≡ some (a, s)
unfolding cut
cut_at sep [] s h = ground arith
cut_at sep (c ∷ a) s (hc, ha) = ground (arith, cut_at sep a s ha)

pub cut-append : (sep : ℕ) (a s : Text) → Lacks sep a → cut sep (a ++ (sep ∷ s)) ≡ some (a, s)
cut-append = cut_at

hex_value-hex_digit : (d : ℕ) → d < 16 → hex_value (hex_digit d) ≡ some d
hex_value-hex_digit d h = ground arith

pub hex_text-Lacks : (width n : ℕ) → Lacks b':' (hex_text width n)
unfolding hex_text
hex_text-Lacks zero n = tt
hex_text-Lacks (suc width) n = (hex_digit_ne (n / 16 ^ width % 16), hex_text-Lacks width n)
  where
    hex_digit_ne : (d : ℕ) → hex_digit d ≢ b':'
    hex_digit_ne d = ground arith

scan_step : (n d : ℕ) (s : Text) → d < 16 → scan_hex n (hex_digit d ∷ s) ≡ scan_hex (n * 16 + d) s
unfolding scan_hex
scan_step n d s h = rw (hex_value-hex_digit d h) refl

scan_end : (n m : ℕ) → n ≡ m → m < 2 ^ 32 → scan_hex n [] ≡ some m
unfolding scan_hex
scan_end n m e h = ground arith

-- The four last digits of a number.
scan_four :
    (m n : ℕ)
    → m * 65536 + n % 65536 < 2 ^ 32
    → scan_hex m (hex_text 4 n) ≡ some (m * 65536 + n % 65536)
unfolding hex_text
scan_four m n h =
    let d3 : ℕ = n / 16 ^ 3 % 16 in
    let d2 : ℕ = n / 16 ^ 2 % 16 in
    let d1 : ℕ = n / 16 ^ 1 % 16 in
    let d0 : ℕ = n / 16 ^ 0 % 16 in
    scan_step m d3 _ (omega arith)
    ∙ scan_step (m * 16 + d3) d2 _ (omega arith)
    ∙ scan_step ((m * 16 + d3) * 16 + d2) d1 _ (omega arith)
    ∙ scan_step (((m * 16 + d3) * 16 + d2) * 16 + d1) d0 [] (omega arith)
    ∙ scan_end ((((m * 16 + d3) * 16 + d2) * 16 + d1) * 16 + d0) (m * 65536 + n % 65536)
        (omega arith) h

parse_hex-digit : (d : ℕ) (s : Text) → parse_hex (hex_digit d ∷ s) ≡ scan_hex 0 (hex_digit d ∷ s)
unfolding parse_hex
parse_hex-digit d s = refl

zero_digit : (d : ℕ) (s : Text) → d ≡ 0 → scan_hex 0 (hex_digit d ∷ s) ≡ scan_hex 0 s
zero_digit d s e = scan_step 0 d s (omega arith) ∙ ap (λ m. scan_hex m s) (omega arith)

leading : (n : ℕ) → n < 65536 → scan_hex 0 (hex_text 8 n) ≡ scan_hex 0 (hex_text 4 n)
unfolding hex_text
leading n h =
    zero_digit (n / 16 ^ 7 % 16) _ (omega arith)
    ∙ zero_digit (n / 16 ^ 6 % 16) _ (omega arith)
    ∙ zero_digit (n / 16 ^ 5 % 16) _ (omega arith)
    ∙ zero_digit (n / 16 ^ 4 % 16) _ (omega arith)

parse_hex-hex_text :
    (width n : ℕ) → parse_hex (hex_text (suc width) n) ≡ scan_hex 0 (hex_text (suc width) n)
unfolding hex_text
parse_hex-hex_text width n = parse_hex-digit (n / 16 ^ width % 16) (hex_text width n)

-- A number of 16 bits comes back from four digits, and from eight.
pub parse_hex-four : (n : ℕ) → n < 65536 → parse_hex (hex_text 4 n) ≡ some n
parse_hex-four n h = parse_hex-hex_text 3 n ∙ scan_four 0 n (omega arith) ∙ ap some (omega arith)

pub parse_hex-eight : (n : ℕ) → n < 65536 → parse_hex (hex_text 8 n) ≡ some n
parse_hex-eight n h =
    parse_hex-hex_text 7 n ∙ leading n h ∙ scan_four 0 n (omega arith) ∙ ap some (omega arith)
