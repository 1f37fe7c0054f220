-- ===== src/Record/Shown.antt =====
-- internal/elitech/service.go and internal/web/web.go: a value in tenths as `%.1f` and
-- `strconv.FormatFloat` print it, and a reader of such texts.
use go_elite_log.Base.{
  ℕ, ◌+◌, ◌-◌, ◌*◌, ◌/◌, ◌%◌, ◌^◌, ◌<◌, ◌≡◌, ◌≢◌, refl, ap, ◌∙◌, arith, Bool, true, false, [], ◌∷◌,
  ◌++◌, ◌==◌, if◌then◌else◌, Option, some, none, All,
}
use go_elite_log.Text.{
  Text, is_digit, cut, Scanned, number, bad_syntax, out_of_range, parse_uint, itoa_ℕ,
}
use go_elite_log.Text.Decimal.{IsNumeral, itoa_ℕ-IsNumeral, parse_uint-itoa_ℕ}
use go_elite_log.Text.Parts.{Lacks, cut-append}
use go_elite_log.Record.{Tenths}

abbrev pub sign_text : Bool → Text
sign_text true = b'-' ∷ []
sign_text false = []

abbrev pub magnitude_text : ℕ → Text
magnitude_text n = itoa_ℕ (n / 10) ++ (b'.' ∷ (b'0' + n % 10) ∷ [])

-- A negative zero keeps its sign.
unfoldable pub tenths_text : Tenths → Text
tenths_text t = sign_text t.negative ++ magnitude_text t.magnitude

abbrev pub last_digit : ℕ → Text → Option ℕ
last_digit n [] = none
last_digit n (d ∷ []) = if is_digit d then some (n * 10 + (d - b'0')) else none
last_digit n (d ∷ e ∷ s) = none

abbrev pub whole_part : Scanned → Text → Option ℕ
whole_part (number n) s = last_digit n s
whole_part bad_syntax s = none
whole_part out_of_range s = none

abbrev pub read_parts : Option (Text × Text) → Option ℕ
read_parts none = none
read_parts (some (whole, frac)) = whole_part (parse_uint whole) frac

abbrev pub signed : Bool → Option ℕ → Option Tenths
signed b none = none
signed b (some n) = some (record { negative = b; magnitude = n })

-- What a text of tenths says.
unfoldable pub read_tenths : Text → Option Tenths
read_tenths [] = none
read_tenths (c ∷ s) =
    if c == b'-'
    then signed true (read_parts (cut b'.' s))
    else signed false (read_parts (cut b'.' (c ∷ s)))

IsNumeral-Lacks : (s : Text) → IsNumeral s → Lacks b'.' s
IsNumeral-Lacks [] h = elim h [ ]
IsNumeral-Lacks (c ∷ s) (hc, hs) = (ground arith, digits_lack s hs)
  where
    digits_lack : (s : Text) → All (λ d. is_digit d ≡ true) s → Lacks b'.' s
    digits_lack [] h = tt
    digits_lack (c ∷ s) (hc, hs) = (ground arith, digits_lack s hs)

read_magnitude : (n : ℕ) → n < 2 ^ 63 → read_parts (cut b'.' (magnitude_text n)) ≡ some n
read_magnitude n h =
    ap read_parts
      (cut-append b'.' (itoa_ℕ (n / 10)) _ (IsNumeral-Lacks _ (itoa_ℕ-IsNumeral (n / 10))))
    ∙ ap (λ w. whole_part w ((b'0' + n % 10) ∷ [])) (parse_uint-itoa_ℕ (n / 10) (omega arith))
    ∙ ground arith

read_unsigned :
    (a b : Text)
    → IsNumeral a
    → read_tenths (a ++ b) ≡ signed false (read_parts (cut b'.' (a ++ b)))
unfolding read_tenths
read_unsigned [] b h = elim h [ ]
read_unsigned (c ∷ s) b (hc, hs) = ground arith

read_negative : (s : Text) → read_tenths (b'-' ∷ s) ≡ signed true (read_parts (cut b'.' s))
unfolding read_tenths
read_negative s = refl

read_signed :
    (b : Bool) (n : ℕ)
    → n < 2 ^ 63
    → read_tenths (sign_text b ++ magnitude_text n) ≡ some (record { negative = b; magnitude = n })
read_signed true n h = read_negative (magnitude_text n) ∙ ap (signed true) (read_magnitude n h)
read_signed false n h =
    read_unsigned (itoa_ℕ (n / 10)) _ (itoa_ℕ-IsNumeral (n / 10))
    ∙ ap (signed false) (read_magnitude n h)

append-ne-empty : (a b : Text) (c : ℕ) → a ++ (c ∷ b) ≢ []
append-ne-empty [] b c = λ e. cc
append-ne-empty (x ∷ a) b c = λ e. cc

signed-ne-empty : (b : Bool) (n : ℕ) → sign_text b ++ magnitude_text n ≢ []
signed-ne-empty true n = λ e. cc
signed-ne-empty false n = append-ne-empty (itoa_ℕ (n / 10)) _ _

pub read_tenths-tenths_text :
    (t : Tenths) → t.magnitude < 2 ^ 63 → read_tenths (tenths_text t) ≡ some t
unfolding tenths_text
read_tenths-tenths_text t h = read_signed t.negative t.magnitude h

pub tenths_text-ne-empty : (t : Tenths) → tenths_text t ≢ []
unfolding tenths_text
tenths_text-ne-empty t = signed-ne-empty t.negative t.magnitude
