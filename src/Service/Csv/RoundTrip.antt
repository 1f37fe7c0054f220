-- ===== src/Service/Csv/RoundTrip.antt =====
-- internal/elitech/service.go, `WriteCSV`: what a reader of the file sees of the records.
use go_elite_log.Base.{
  ◌^◌, ◌<◌, ◌≡◌, ◌≢◌, refl, sym, ap, ◌∙◌, arith, Bool, true, false, List, [], ◌∷◌, ◌++◌, map, ◌||◌,
  if◌then◌else◌, some, none, option_or, All,
}
use mathlib.Core.List.{append-nil, append_assoc}
use go_elite_log.Base.Int.{pos, ◌+ℤ◌}
use go_elite_log.Base.Result.{ok}
use go_elite_log.Base.Step.{Step, pure, ◌>>◌, >>=-eq-ok, >>=_state}
use go_elite_log.Calendar.{Time}
use go_elite_log.Text.{Text, codes, if_parsed}
use go_elite_log.Text.Decimal.{atoi-itoa, InInt64}
use go_elite_log.Record.{Sample, RecordStatus, measurement, pause, stop, error, status_text, Tenths}
use go_elite_log.Record.Shown.{
  tenths_text, read_tenths, read_tenths-tenths_text, tenths_text-ne-empty,
}
use go_elite_log.Service.Csv.{
  with_humidity, csv_header, if_measured, csv_row, put_rows, write_csv, Seen, read_cell, read_row,
}

-- What the file holds of a record: values of measurements only.
abbrev pub seen_of : (Time → Text) → Sample → Seen
seen_of rfc3339 r = record {
  index = r.index +ℤ pos 1;
  time = rfc3339 r.time;
  temperature = if_measured r.status (some r.temperature) none;
  humidity = if_measured r.status (if r.has_humidity then some r.humidity else none) none;
  status = codes (status_text r.status);
}

-- Numbers that are int64 values.
abbrev pub IsSmall : Sample → Type 0
IsSmall r =
    InInt64 (r.index +ℤ pos 1)
    × (r.temperature.magnitude < 2 ^ 63)
    × (r.humidity.magnitude < 2 ^ 63)

read_cell-filled :
    (s : Text) → s ≢ [] → read_cell s ≡ option_or none (λ t. some (some t)) (read_tenths s)
read_cell-filled [] h = absurd (h refl)
read_cell-filled (c ∷ s) h = refl

read_cell-tenths : (t : Tenths) → t.magnitude < 2 ^ 63 → read_cell (tenths_text t) ≡ some (some t)
read_cell-tenths t h =
    read_cell-filled (tenths_text t) (tenths_text-ne-empty t)
    ∙ ap (λ o. option_or none (λ t. some (some t)) o) (read_tenths-tenths_text t h)

read_temperature :
    (r : RecordStatus) (t : Tenths)
    → t.magnitude < 2 ^ 63
    → read_cell (if_measured r (tenths_text t) []) ≡ some (if_measured r (some t) none)
read_temperature measurement t h = read_cell-tenths t h
read_temperature pause t h = refl
read_temperature stop t h = refl
read_temperature error t h = refl

read_humidity :
    (r : RecordStatus) (b : Bool) (t : Tenths)
    → t.magnitude < 2 ^ 63
    → read_cell (if_measured r (if b then tenths_text t else []) [])
      ≡ some (if_measured r (if b then some t else none) none)
read_humidity measurement true t h = read_cell-tenths t h
read_humidity measurement false t h = refl
read_humidity pause b t h = refl
read_humidity stop b t h = refl
read_humidity error b t h = refl

dry :
    (s : RecordStatus) (b : Bool) (t : Tenths)
    → b ≡ false
    → if_measured s (if b then some t else none) none ≡ none
dry measurement b t e = rw e refl
dry pause b t e = refl
dry stop b t e = refl
dry error b t e = refl

-- A file without a column of humidity holds records without humidity.
abbrev Covers : Bool → Sample → Type 0
Covers wh r = wh ≡ false → r.has_humidity ≡ false

seen_first : (seen : Bool) (recs : List Sample) → with_humidity seen recs ≡ false → seen ≡ false
unfolding with_humidity
seen_first seen [] e = e
seen_first seen (r ∷ rs) e =
    let k : (seen || r.has_humidity) ≡ false = seen_first _ rs e in ground arith

with_humidity-Covers :
    (seen : Bool) (recs : List Sample) → All (Covers (with_humidity seen recs)) recs
unfolding with_humidity
with_humidity-Covers seen [] = tt
with_humidity-Covers seen (r ∷ rs) = (
  λ e. let k : (seen || r.has_humidity) ≡ false = seen_first _ rs e in ground arith,
  with_humidity-Covers (seen || r.has_humidity) rs,
)

module _ (rfc3339 : Time → Text) where
  read_row-csv_row :
      (wh : Bool) (r : Sample)
      → IsSmall r
      → Covers wh r
      → read_row (csv_row rfc3339 wh r) ≡ some (seen_of rfc3339 r)
  unfolding csv_row
  read_row-csv_row true r (i, t, h) e =
      rw
        (
          ap if_parsed (atoi-itoa (r.index +ℤ pos 1) i),
          read_temperature r.status r.temperature t,
          read_humidity r.status r.has_humidity r.humidity h,
        )
        refl
  read_row-csv_row false r (i, t, h) e =
      rw
        (
          ap if_parsed (atoi-itoa (r.index +ℤ pos 1) i),
          read_temperature r.status r.temperature t,
          dry r.status r.has_humidity r.humidity (e refl),
        )
        refl

  read-rows :
      (wh : Bool) (recs : List Sample)
      → All IsSmall recs
      → All (Covers wh) recs
      → map read_row (map (csv_row rfc3339 wh) recs) ≡ map (λ r. some (seen_of rfc3339 r)) recs
  read-rows wh [] h c = refl
  read-rows wh (r ∷ rs) (hr, hs) (cr, cs) =
      rw (read_row-csv_row wh r hr cr, read-rows wh rs hs cs) refl

  -- A file that grows by a row with each row that is put without an error, and not with a flush.
  module _ {W : Type 0} (put : List Text → Step W (Unit {0})) (flush : Step W (Unit {0}))
      (file : W → List (List Text))
      (puts : (row : List Text) (w : W)
        → (put row w).0 ≡ ok tt
        → file (put row w).1 ≡ file w ++ (row ∷ []))
      (flushes : (w : W) → (flush w).0 ≡ ok tt → file (flush w).1 ≡ file w) where
    file-put_rows :
        (wh : Bool) (recs : List Sample) (w : W)
        → (put_rows rfc3339 put flush wh recs w).0 ≡ ok tt
        → file (put_rows rfc3339 put flush wh recs w).1 ≡ file w ++ map (csv_row rfc3339 wh) recs
    unfolding put_rows pure
    file-put_rows wh [] w e = sym (append-nil (file w))
    file-put_rows wh (r ∷ rs) w e =
        let (u, p, q) =
          >>=-eq-ok (put (csv_row rfc3339 wh r)) (λ u. put_rows rfc3339 put flush wh rs) w e in
        rw (>>=_state (put (csv_row rfc3339 wh r)) (λ u. put_rows rfc3339 put flush wh rs) w p) (
          file-put_rows wh rs (put (csv_row rfc3339 wh r) w).1 q
          ∙ ap (λ f. f ++ map (csv_row rfc3339 wh) rs) (puts (csv_row rfc3339 wh r) w p)
          ∙ append_assoc (file w) (csv_row rfc3339 wh r ∷ []) _)

    file-write_csv :
        (recs : List Sample) (w : W)
        → (write_csv rfc3339 put flush recs w).0 ≡ ok tt
        → file (write_csv rfc3339 put flush recs w).1
          ≡ file w
            ++ (csv_header (with_humidity false recs)
                ∷ map (csv_row rfc3339 (with_humidity false recs)) recs)
    unfolding write_csv
    file-write_csv recs w e =
        let wh : Bool = with_humidity false recs in
        let (u, p, q) =
          >>=-eq-ok (put (csv_header wh)) (λ u. put_rows rfc3339 put flush wh recs >> flush) w e in
        let (u', p', q') =
          >>=-eq-ok (put_rows rfc3339 put flush wh recs) (λ u. flush) (put (csv_header wh) w).1 q in
        rw
          (
            >>=_state (put (csv_header wh)) (λ u. put_rows rfc3339 put flush wh recs >> flush) w p,
            >>=_state (put_rows rfc3339 put flush wh recs) (λ u. flush) (put (csv_header wh) w).1
                p',
          )
          (flushes _ q'
            ∙ file-put_rows wh recs (put (csv_header wh) w).1 p'
            ∙ ap (λ f. f ++ map (csv_row rfc3339 wh) recs) (puts (csv_header wh) w p)
            ∙ append_assoc (file w) (csv_header wh ∷ []) _)

    -- If `WriteCSV` succeeds on a writer that adds a row with each `Write` that succeeds and none
    -- with a `Flush` that succeeds, it has added a header and one row for each record; for
    -- indices and tenths that are int64 values, each row reads back as the record's index from 1,
    -- the text of its time, its status, and, for a measurement only, its temperature and its
    -- humidity if it has one.
    pub read-write_csv :
        (recs : List Sample) (w : W)
        → All IsSmall recs
        → (write_csv rfc3339 put flush recs w).0 ≡ ok tt
        → (header : List Text) × (body : List (List Text)) × (file
              (write_csv rfc3339 put flush recs w).1
            ≡ file w ++ (header ∷ body))
          × (map read_row body ≡ map (λ r. some (seen_of rfc3339 r)) recs)
    read-write_csv recs w small e = (
      csv_header (with_humidity false recs),
      map (csv_row rfc3339 (with_humidity false recs)) recs,
      file-write_csv recs w e,
      read-rows (with_humidity false recs) recs small (with_humidity-Covers false recs),
    )
