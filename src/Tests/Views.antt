-- ===== src/Tests/Views.antt =====
-- What the pages and the CSV file show of two records, and the forms.
use go_elite_log.Base.{◌≡◌, ◌≢◌, refl, arith, true, false, some, List, [], ◌∷◌, ◌++◌, map}
use go_elite_log.Base.Int.{pos}
use go_elite_log.Base.Result.{ok}
use go_elite_log.Base.Step.{Step, pure, ◌>>=◌}
use go_elite_log.Calendar.{Time}
use go_elite_log.Text.{Text, codes}
use go_elite_log.Record.{Sample, no_sample, stop}
use go_elite_log.Service.Csv.{with_humidity, csv_row, put_rows, write_csv, read_row}
use go_elite_log.Service.Csv.RoundTrip.{seen_of, read-write_csv}
use go_elite_log.Web.Form.{
  Values, form_value, is_confirmed, confirm_name, confirm_fields, confirm_fields_lem,
}
use go_elite_log.Web.View.{latest_of, summary}
use go_elite_log.Web.View.Readings.{measured, Sums, NewestOf, Sums-summary, NewestOf-latest_of}

abbrev warm : Sample
warm = record no_sample { temperature = record { negative = false; magnitude = 217 } }

abbrev cold : Sample
cold = record no_sample {
  index = pos 1;
  temperature = record { negative = true; magnitude = 5 };
  humidity = record { negative = false; magnitude = 550 };
  has_humidity = true;
}

abbrev ended : Sample
ended = record no_sample { index = pos 2; status = stop }

abbrev three_records : List Sample
three_records = warm ∷ cold ∷ ended ∷ []

-- A file in memory, and times without a text.
abbrev File : Type 0
File = List (List Text)

abbrev put : List Text → Step File (Unit {0})
put row w = (ok tt, w ++ (row ∷ []))

abbrev flush : Step File (Unit {0})
flush w = (ok tt, w)

abbrev no_text : Time → Text
no_text t = []

abbrev rows_of : File → List (List Text)
rows_of w = w

write_run : (write_csv no_text put flush three_records []).0 ≡ ok tt
unfolding write_csv put_rows csv_row with_humidity pure ◌>>=◌
write_run = refl

read-write_csv_example :
    (header : List Text) × (body : List (List Text)) × (rows_of
        (write_csv no_text put flush three_records []).1
      ≡ [] ++ (header ∷ body))
    × (map read_row body ≡ map (λ r. some (seen_of no_text r)) three_records)
read-write_csv_example =
    read-write_csv no_text put flush rows_of (λ row w e. refl) (λ w e. refl) three_records []
      (
        (omega arith, omega arith, omega arith),
        ((omega arith, omega arith, omega arith), ((omega arith, omega arith, omega arith), tt)),
      )
      write_run

Sums-summary_example : Sums (summary three_records) (measured three_records)
Sums-summary_example = Sums-summary three_records

NewestOf-latest_of_example : NewestOf three_records (latest_of three_records)
NewestOf-latest_of_example = NewestOf-latest_of three_records

abbrev some_values : Values
some_values = (codes "interval_minutes", codes "10") ∷ (codes "confirm", codes "no") ∷ []

confirm_fields_lem_example :
    (is_confirmed (confirm_fields some_values) ≡ true)
    × ((name : Text)
        → name ≢ confirm_name
        → form_value (confirm_fields some_values) name ≡ form_value some_values name)
confirm_fields_lem_example = confirm_fields_lem some_values
