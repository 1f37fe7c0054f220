-- ===== src/Web/Interval.antt =====
-- internal/web/web.go, `parseInterval`: the sampling interval of the form.
use go_elite_log.Base.{
  ℕ, ◌+◌, ◌*◌, ◌/◌, ◌%◌, ◌≤◌, ◌<◌, ◌≡◌, ◌≢◌, refl, ap, ◌∙◌, arith, true, Option, none, some, List,
  [], ◌∷◌,
}
use go_elite_log.Base.Int.{ℤ, pos, negsuc}
use go_elite_log.Base.Result.{Result, ok, err, panicked, stuck, ◌>>=◌}
use go_elite_log.Calendar.{second, minute}
use go_elite_log.Logger.Configure.{valid_interval}
use go_elite_log.Web.{minutes_of, seconds_of, checked_span, seconds_field, parse_interval}

bind-ok :
    {A B : Type 0} (r : Result A) (f : A → Result B) {b : B}
    → (r >>= f) ≡ ok b
    → (a : A) × (r ≡ ok a) × (f a ≡ ok b)
bind-ok (ok a) f e = (a, cc, e)
bind-ok (err x) f e = cc
bind-ok panicked f e = cc
bind-ok stuck f e = cc

seconds_of-tens : (o : Option ℤ) {s : ℕ} → seconds_of o ≡ ok s → s % 10 ≡ 0
seconds_of-tens (some (pos n)) e = ground arith
seconds_of-tens (some (negsuc n)) e = cc
seconds_of-tens none e = cc

checked_span-valid :
    (m s : ℕ) {d : ℕ}
    → s % 10 ≡ 0
    → checked_span (m * minute + s * second) ≡ ok d
    → valid_interval d ≡ true
checked_span-valid m s h e = ground arith

valid_fields :
    (d : ℕ)
    → valid_interval d ≡ true
    → (minutes_of (some (pos (d / minute))) >>= λ m.
        seconds_of (some (pos (d % minute / second))) >>= λ s.
        checked_span (m * minute + s * second))
      ≡ ok d
valid_fields d v =
    let back : d / minute * minute + d % minute / second * second ≡ d = ground arith in
    let m : d / minute ≤ 1440 = ground arith in
    let s : d % minute / second < 60 = omega arith in
    let t : d % minute / second % 10 ≡ 0 = ground arith in ground arith

module _ (trim_space : List ℕ → List ℕ) (atoi : List ℕ → Option ℤ) where
  seconds_field-tens : (f : List ℕ) {s : ℕ} → seconds_field trim_space atoi f ≡ ok s → s % 10 ≡ 0
  seconds_field-tens [] e = ground arith
  seconds_field-tens (c ∷ cs) e = seconds_of-tens (atoi (c ∷ cs)) e

  seconds_field_filled :
      (f : List ℕ) → f ≢ [] → seconds_field trim_space atoi f ≡ seconds_of (atoi f)
  seconds_field_filled [] h = absurd (h refl)
  seconds_field_filled (c ∷ cs) h = refl

  -- Whatever the fields hold, an interval that the form accepts is one that `Configure` accepts.
  pub valid_interval-parse_interval :
      (minutes_text seconds_text : List ℕ) {d : ℕ}
      → parse_interval trim_space atoi minutes_text seconds_text ≡ ok d
      → valid_interval d ≡ true
  unfolding parse_interval
  valid_interval-parse_interval mt st e =
      let (m, p, e1) = bind-ok (minutes_of (atoi (trim_space mt))) _ e in
      let (s, q, e2) = bind-ok (seconds_field trim_space atoi (trim_space st)) _ e1 in
      checked_span-valid m s (seconds_field-tens (trim_space st) q) e2

  -- Each interval that `Configure` accepts can be entered: the form yields it from a seconds
  -- field that is not blank and the fields that read as its whole minutes and its remaining
  -- seconds.
  pub parse_interval_reaches :
      (minutes_text seconds_text : List ℕ) (d : ℕ)
      → valid_interval d ≡ true
      → trim_space seconds_text ≢ []
      → atoi (trim_space minutes_text) ≡ some (pos (d / minute))
      → atoi (trim_space seconds_text) ≡ some (pos (d % minute / second))
      → parse_interval trim_space atoi minutes_text seconds_text ≡ ok d
  unfolding parse_interval
  parse_interval_reaches mt st d v filled em es =
      rw (em, seconds_field_filled (trim_space st) filled ∙ ap seconds_of es) (valid_fields d v)
