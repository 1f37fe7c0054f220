-- ===== src/Service/Csv.antt =====
-- internal/elitech/service.go, `WriteCSV`. The csv.Writer is a parameter, and so is the text of a
-- time in RFC 3339; an index stays below 2^63.
pub mod RoundTrip
use go_elite_log.Base.{
  ℕ, ◌+◌, ◌*◌, ◌^◌, ◌<◌, ◌≡◌, ◌≢◌, refl, sym, ap, ◌∙◌, arith, Bool, true, false, List, [], ◌∷◌,
  ◌++◌, map, ◌||◌, if◌then◌else◌, Option, some, none, option_or, All,
}
use go_elite_log.Base.Int.{ℤ, pos, negsuc, ◌+ℤ◌, ◌-ℤ◌}
use go_elite_log.Base.Result.{Result, ok, err, panicked, stuck}
use go_elite_log.Base.Step.{Step, pure, ◌>>=◌, ◌>>◌, >>=-eq-ok, >>=_state}
use go_elite_log.Calendar.{Time}
use go_elite_log.Text.{Text, codes, atoi, atoi_ok, itoa, if_parsed}
use go_elite_log.Text.Decimal.{atoi-itoa, InInt64}
use go_elite_log.Record.{Sample, RecordStatus, measurement, pause, stop, error, status_text, Tenths}
use go_elite_log.Record.Shown.{
  tenths_text, read_tenths, read_tenths-tenths_text, tenths_text-ne-empty,
}

-- `withHumidity`, of which `seen` is so far.
unfoldable pub with_humidity : Bool → List Sample → Bool
with_humidity seen [] = seen
with_humidity seen (r ∷ rs) = with_humidity (seen || r.has_humidity) rs

abbrev pub csv_header : Bool → List Text
csv_header false = codes "index" ∷ codes "time" ∷ codes "temperature" ∷ codes "status" ∷ []
csv_header true =
    codes "index" ∷ codes "time" ∷ codes "temperature" ∷ codes "humidity" ∷ codes "status" ∷ []

abbrev pub if_measured : {A : Type 0} → RecordStatus → A → A → A
if_measured measurement a b = a
if_measured pause a b = b
if_measured stop a b = b
if_measured error a b = b

abbrev pub temperature_cell : Sample → Text
temperature_cell r = if_measured r.status (tenths_text r.temperature) []

abbrev pub humidity_cell : Sample → Text
humidity_cell r = if_measured r.status (if r.has_humidity then tenths_text r.humidity else []) []

module _ (rfc3339 : Time → Text) where
  unfoldable pub csv_row : Bool → Sample → List Text
  unfolding status_text
  csv_row false r =
      itoa (r.index +ℤ pos 1)
      ∷ rfc3339 r.time
      ∷ temperature_cell r
      ∷ codes (status_text r.status)
      ∷ []
  csv_row true r =
      itoa (r.index +ℤ pos 1)
      ∷ rfc3339 r.time
      ∷ temperature_cell r
      ∷ humidity_cell r
      ∷ codes (status_text r.status)
      ∷ []

  -- `cw.Write`, and `cw.Flush` with `cw.Error`.
  module _ {W : Type 0} (put : List Text → Step W (Unit {0})) (flush : Step W (Unit {0})) where
    unfoldable pub put_rows : Bool → List Sample → Step W (Unit {0})
    unfolding csv_row
    put_rows wh [] = pure tt
    put_rows wh (r ∷ rs) = put (csv_row wh r) >>= (λ u. put_rows wh rs)

    -- `WriteCSV`
    unfoldable pub write_csv : List Sample → Step W (Unit {0})
    unfolding with_humidity put_rows
    write_csv recs = do
      put (csv_header (with_humidity false recs))
      put_rows (with_humidity false recs) recs
      flush

-- What a reader of the file sees of a record.
pub record Seen : Type 0 where
  pub index : ℤ
  pub time : Text
  pub temperature : Option Tenths
  pub humidity : Option Tenths
  pub status : Text

-- An empty cell, or tenths.
abbrev pub read_cell : Text → Option (Option Tenths)
read_cell [] = some none
read_cell (c ∷ s) = option_or none (λ t. some (some t)) (read_tenths (c ∷ s))

abbrev pub seen_with :
    Option ℤ → Text → Option (Option Tenths) → Option (Option Tenths) → Text → Option Seen
seen_with (some i) t (some a) (some b) s =
    some (record { index = i; time = t; temperature = a; humidity = b; status = s })
seen_with (some i) t (some a) none s = none
seen_with (some i) t none b s = none
seen_with none t a b s = none

-- A reader of a row, by the number of its cells.
abbrev pub read_row : List Text → Option Seen
read_row (i ∷ t ∷ a ∷ s ∷ []) = seen_with (atoi_ok i) t (read_cell a) (some none) s
read_row (i ∷ t ∷ a ∷ b ∷ s ∷ []) = seen_with (atoi_ok i) t (read_cell a) (read_cell b) s
read_row other = none
