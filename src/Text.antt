-- ===== src/Text.antt =====
-- What the program uses of Go's packages strings and strconv, on texts as lists of bytes.
pub mod Decimal
pub mod Parts
use Prim.Native.Char.{code}
use Prim.Native.String.{String}
use go_elite_log.Base.{
  ℕ, zero, suc, ◌+◌, ◌-◌, ◌*◌, ◌/◌, ◌%◌, ◌^◌, Bool, true, false, ◌&&◌, ◌||◌, Option, none, some,
  List, [], ◌∷◌, ◌++◌, ltb, leb, ◌==◌, if◌then◌else◌, option_or,
}
use go_elite_log.Base.Int.{ℤ, pos, negsuc, sub_ℕ}

abbrev pub Text : Type 0
Text = List ℕ

-- The bytes of a literal of ASCII characters.
abbrev pub codes : String → Text
codes String.[] = []
codes (String.◌∷◌ c s) = code c ∷ codes s

abbrev pub text_eq : Text → Text → Bool
text_eq [] [] = true
text_eq [] (d ∷ t) = false
text_eq (c ∷ s) [] = false
text_eq (c ∷ s) (d ∷ t) = (c == d) && text_eq s t

-- `strings.Split`, by a separator of one byte: the current part, and what is left.
abbrev add_to_first : ℕ → List Text → List Text
add_to_first c [] = (c ∷ []) ∷ []
add_to_first c (p ∷ ps) = (c ∷ p) ∷ ps

unfoldable pub split : ℕ → Text → List Text
split sep [] = [] ∷ []
split sep (c ∷ s) = let rest = split sep s in if c == sep then [] ∷ rest else add_to_first c rest

-- `strings.Cut`, by a separator of one byte.
unfoldable pub cut : ℕ → Text → Option (Text × Text)
cut sep [] = none
cut sep (c ∷ s) =
    let rest = cut sep s in
    if c == sep then some ([], s) else option_or none (λ p. some (c ∷ p.0, p.1)) rest

-- `strings.TrimPrefix`
abbrev pub has_prefix : Text → Text → Option Text
has_prefix [] s = some s
has_prefix (c ∷ p) [] = none
has_prefix (c ∷ p) (d ∷ s) = if c == d then has_prefix p s else none

abbrev pub trim_prefix : Text → Text → Text
trim_prefix p s = option_or s (λ r. r) (has_prefix p s)

abbrev pub is_digit : ℕ → Bool
is_digit c = leb b'0' c && leb c b'9'

-- `strconv.ParseUint` in base ten: a number below 2^64, or an error of syntax or of range,
-- whichever is met first.
pub data Scanned : Type 0 where
  number : ℕ → Scanned
  bad_syntax out_of_range : Scanned

unfoldable pub scan : ℕ → Text → Scanned
scan n [] = number n
scan n (c ∷ s) =
    let m = n * 10 + (c - b'0') in
    let rest = scan m s in
    if is_digit c then (if leb (2 ^ 64) m then out_of_range else rest) else bad_syntax

unfoldable pub parse_uint : Text → Scanned
unfolding scan
parse_uint [] = bad_syntax
parse_uint (c ∷ s) = scan 0 (c ∷ s)

-- `strconv.Atoi`: the value, and whether there is no error. A value out of range is the nearest
-- int64.
abbrev pub positive : Scanned → ℤ × Bool
positive (number n) = if leb (2 ^ 63) n then (pos (2 ^ 63 - 1), false) else (pos n, true)
positive bad_syntax = (pos 0, false)
positive out_of_range = (pos (2 ^ 63 - 1), false)

abbrev pub negative : Scanned → ℤ × Bool
negative (number n) = if ltb (2 ^ 63) n then (sub_ℕ 0 (2 ^ 63), false) else (sub_ℕ 0 n, true)
negative bad_syntax = (pos 0, false)
negative out_of_range = (sub_ℕ 0 (2 ^ 63), false)

unfoldable pub atoi : Text → ℤ × Bool
unfolding parse_uint
atoi [] = (pos 0, false)
atoi (c ∷ s) =
    if c == b'-'
    then negative (parse_uint s)
    else positive (parse_uint (if c == b'+' then s else c ∷ s))

abbrev pub if_parsed : ℤ × Bool → Option ℤ
if_parsed (v, true) = some v
if_parsed (v, false) = none

abbrev pub atoi_ok : Text → Option ℤ
atoi_ok s = if_parsed (atoi s)

-- `strconv.Itoa`: each round writes the last digit before the digits so far. An int64 has at most
-- 19 digits.
unfoldable pub digits : ℕ → ℕ → Text → Text
digits zero n out = out
digits (suc fuel) n out =
    let here = (b'0' + n % 10) ∷ out in
    let rest = digits fuel (n / 10) here in if n / 10 == 0 then here else rest

unfoldable pub itoa_ℕ : ℕ → Text
unfolding digits
itoa_ℕ n = digits 20 n []

unfoldable pub itoa : ℤ → Text
unfolding itoa_ℕ
itoa (pos n) = itoa_ℕ n
itoa (negsuc n) = b'-' ∷ itoa_ℕ (suc n)

-- `strconv.ParseUint` in base sixteen for 32 bits.
abbrev pub hex_value : ℕ → Option ℕ
hex_value c =
    if is_digit c
    then some (c - b'0')
    else if leb b'a' c && leb c b'f'
    then some (c - b'a' + 10)
    else if leb b'A' c && leb c b'F'
    then some (c - b'A' + 10)
    else none

unfoldable pub scan_hex : ℕ → Text → Option ℕ
scan_hex n [] = if ltb n (2 ^ 32) then some n else none
scan_hex n (c ∷ s) = option_or none (λ d. scan_hex (n * 16 + d) s) (hex_value c)

unfoldable pub parse_hex : Text → Option ℕ
unfolding scan_hex
parse_hex [] = none
parse_hex (c ∷ s) = scan_hex 0 (c ∷ s)

-- The verb `%X` with a width and leading zeros, as many digits as the width.
abbrev pub hex_digit : ℕ → ℕ
hex_digit d = if ltb d 10 then b'0' + d else b'A' + (d - 10)

unfoldable pub hex_text : ℕ → ℕ → Text
hex_text zero n = []
hex_text (suc width) n = hex_digit (n / 16 ^ width % 16) ∷ hex_text width n
