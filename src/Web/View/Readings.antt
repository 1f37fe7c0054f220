-- ===== src/Web/View/Readings.antt =====
-- internal/web/web.go: what `renderLatestReading` and `renderSummary` show of the records.
use go_elite_log.Base.{
  ℕ, zero, suc, ◌≡◌, ◌≢◌, ◌⊎◌, inl, inr, refl, sym, ap, ◌∙◌, subst, arith, Bool, true, false,
  Option, none, some, List, [], ◌∷◌, ◌++◌, length, option_or, All, All-append, length-append,
  Bool-cases, if◌then◌else◌,
}
use mathlib.Core.List.{append-nil, append_assoc}
use go_elite_log.Record.{Sample, RecordStatus, measurement, pause, stop, error, Tenths}
use go_elite_log.Service.Csv.{if_measured}
use go_elite_log.Web.View.{
  is_measured, reading_if, get, latest_below, latest_of, below, least, greatest, Summary,
  no_summary, with_reading, summary_from, summary,
}

-- The measurements among the records, by their temperatures.
abbrev pub measured : List Sample → List Tenths
measured [] = []
measured (r ∷ rs) = if_measured r.status (r.temperature ∷ measured rs) (measured rs)

-- No reading is below the lowest or above the highest, and both are readings.
abbrev pub Within : Tenths → Tenths → Tenths → Type 0
Within lo hi t = (below t lo ≡ false) × (below hi t ≡ false)

abbrev pub IsIn : Tenths → List Tenths → Type 0
IsIn t [] = ⊥
IsIn t (x ∷ xs) = (t ≡ x) ⊎ IsIn t xs

-- What a summary says of readings.
abbrev pub Sums : Summary → List Tenths → Type 0
Sums s ts =
    ((ts ≡ []) × (s ≡ no_summary))
    ⊎ ((lo : Tenths) × (hi : Tenths) × (s.count ≡ length ts)
        × (s.lowest ≡ some lo)
        × (s.highest ≡ some hi)
        × IsIn lo ts
        × IsIn hi ts
        × All (Within lo hi) ts)

IsIn-left : (t : Tenths) (xs ys : List Tenths) → IsIn t xs → IsIn t (xs ++ ys)
IsIn-left t [] ys h = elim h [ ]
IsIn-left t (x ∷ xs) ys (inl e) = inl e
IsIn-left t (x ∷ xs) ys (inr h) = inr (IsIn-left t xs ys h)

IsIn-last : (t : Tenths) (xs : List Tenths) → IsIn t (xs ++ (t ∷ []))
IsIn-last t [] = inl refl
IsIn-last t (x ∷ xs) = inr (IsIn-last t xs)

Within-more : (lo hi t x : Tenths) → Within lo hi x → Within (least lo t) (greatest hi t) x
Within-more lo hi t x (a, b) = (ground arith, ground arith)

Within-new : (lo hi t : Tenths) → Within (least lo t) (greatest hi t) t
Within-new lo hi t = (ground arith, ground arith)

All-Within :
    (lo hi t : Tenths) (xs : List Tenths)
    → All (Within lo hi) xs
    → All (Within (least lo t) (greatest hi t)) xs
All-Within lo hi t [] h = tt
All-Within lo hi t (x ∷ xs) (hx, hs) = (Within-more lo hi t x hx, All-Within lo hi t xs hs)

either_IsIn :
    (b : Bool) (t m : Tenths) (xs : List Tenths)
    → IsIn m xs
    → IsIn (if b then t else m) (xs ++ (t ∷ []))
either_IsIn true t m xs h = IsIn-last t xs
either_IsIn false t m xs h = IsIn-left m xs (t ∷ []) h

-- A reading more.
Sums-with_reading :
    (s : Summary) (ts : List Tenths) (t : Tenths)
    → Sums s ts
    → Sums (with_reading t s) (ts ++ (t ∷ []))
Sums-with_reading s ts t (inl (e, z)) =
    rw (e, z) (inr (t, t, refl, refl, refl, inl refl, inl refl, ((ground arith, ground arith), tt)))
Sums-with_reading s ts t (inr (lo, hi, n, l, h, il, ih, w)) =
    rw (l, h)
      (inr (
        least lo t,
        greatest hi t,
        (rw n (sym (length-append ts (t ∷ [])))),
        refl,
        refl,
        either_IsIn (below t lo) t lo ts il,
        either_IsIn (below hi t) t hi ts ih,
        All-append (Within (least lo t) (greatest hi t)) ts (t ∷ []) (All-Within lo hi t ts w)
            (Within-new lo hi t, tt),
      ))

Sums-status :
    (st : RecordStatus) (s : Summary) (ts rest : List Tenths) (t : Tenths) (k : Summary → Summary)
    → ((s : Summary) (ts : List Tenths) → Sums s ts → Sums (k s) (ts ++ rest))
    → Sums s ts
    → Sums (k (if_measured st (with_reading t s) s)) (ts ++ if_measured st (t ∷ rest) rest)
Sums-status measurement s ts rest t k ih h =
    subst (λ l. Sums (k (with_reading t s)) l) (append_assoc ts (t ∷ []) rest)
      (ih _ _ (Sums-with_reading s ts t h))
Sums-status pause s ts rest t k ih h = ih s ts h
Sums-status stop s ts rest t k ih h = ih s ts h
Sums-status error s ts rest t k ih h = ih s ts h

Sums-summary_from :
    (recs : List Sample) (s : Summary) (ts : List Tenths)
    → Sums s ts
    → Sums (summary_from s recs) (ts ++ measured recs)
unfolding summary_from
Sums-summary_from [] s ts h = rw (append-nil ts) h
Sums-summary_from (r ∷ rs) s ts h =
    Sums-status r.status s ts (measured rs) r.temperature (λ s. summary_from s rs)
      (Sums-summary_from rs) h

-- The summary counts the measurements; where there are some, its lowest and highest temperatures
-- are two of theirs, with none below the one or above the other; where there are none, it is
-- empty.
pub Sums-summary : (recs : List Sample) → Sums (summary recs) (measured recs)
unfolding summary
Sums-summary recs = Sums-summary_from recs no_summary [] (inl (refl, refl))

abbrev if_none : Option Sample → Option Sample → Option Sample
if_none later first = option_or first some later

one_more :
    (o first x : Option Sample)
    → option_or (if_none o first) (λ y. reading_if (is_measured y) y (if_none o first)) x
      ≡ if_none (option_or o (λ y. reading_if (is_measured y) y o) x) first
one_more o first none = refl
one_more o first (some y) = elim (Bool-cases (is_measured y)) [
  | inl e ↦ rw e refl
  | inr e ↦ rw e refl
]

latest_below-cons :
    (r : Sample) (rs : List Sample) (n : ℕ)
    → latest_below (r ∷ rs) (suc n)
      ≡ if_none (latest_below rs n) (reading_if (is_measured r) r none)
unfolding latest_below get
latest_below-cons r rs zero = refl
latest_below-cons r rs (suc n) =
    ap (λ o. option_or o (λ y. reading_if (is_measured y) y o) (get rs n))
      (latest_below-cons r rs n)
    ∙ one_more (latest_below rs n) (reading_if (is_measured r) r none) (get rs n)

-- The newest measurement, with what stands before it and behind it.
abbrev pub NewestOf : List Sample → Option Sample → Type 0
NewestOf recs o =
    ((o ≡ none) × All (λ x. x.status ≢ measurement) recs)
    ⊎ ((before : List Sample) × (r : Sample) × (behind : List Sample) × (o ≡ some r)
        × (recs ≡ before ++ (r ∷ behind))
        × (r.status ≡ measurement)
        × All (λ x. x.status ≢ measurement) behind)

measured_status : (st : RecordStatus) → if_measured st true false ≡ true → st ≡ measurement
measured_status measurement q = refl
measured_status pause q = cc
measured_status stop q = cc
measured_status error q = cc

unmeasured_status : (st : RecordStatus) → if_measured st true false ≡ false → st ≢ measurement
unmeasured_status measurement q = cc
unmeasured_status pause q = cc
unmeasured_status stop q = cc
unmeasured_status error q = cc

NewestOf-cons :
    (r : Sample) (rs : List Sample) (o : Option Sample)
    → NewestOf rs o
    → NewestOf (r ∷ rs) (if_none o (reading_if (is_measured r) r none))
NewestOf-cons r rs o (inl (e, m)) = elim (Bool-cases (is_measured r)) [
  | inl q ↦ rw (e, q) (inr ([], r, rs, refl, refl, measured_status r.status q, m))
  | inr q ↦ rw (e, q) (inl (refl, (unmeasured_status r.status q, m)))
]
NewestOf-cons r rs o (inr (before, x, behind, e, p, q, m)) =
    rw e (inr (r ∷ before, x, behind, refl, ap (λ l. r ∷ l) p, q, m))

-- The record of `renderLatestReading` has the status of a measurement, no record behind it has,
-- and there is none exactly where no record has that status.
pub NewestOf-latest_of : (recs : List Sample) → NewestOf recs (latest_of recs)
unfolding latest_of latest_below
NewestOf-latest_of [] = inl (refl, tt)
NewestOf-latest_of (r ∷ rs) =
    rw (latest_below-cons r rs (length rs))
      (NewestOf-cons r rs (latest_of rs) (NewestOf-latest_of rs))
