-- ===== src/Web/Sent.antt =====
-- internal/web/web.go, `renderControls`: the form of the settings as it is filled in, and what the
-- site makes of it when it comes back.
use go_elite_log.Base.{
  ℕ, ◌≡◌, ◌≢◌, refl, ap, ◌∙◌, Bool, true, false, none, List, [], ◌∷◌, ◌++◌, ltb,
}
use mathlib.Core.List.{append-nil}
use go_elite_log.Base.Result.{ok}
use go_elite_log.Text.{Text, codes, atoi_ok, itoa_ℕ, text_eq}
use go_elite_log.Text.Decimal.{IsNumeral}
use go_elite_log.Logger.Identity.{DeviceInfo}
use go_elite_log.Logger.Configure.{Settings, valid_interval}
use go_elite_log.Text.Parts.{text_eq_iff}
use go_elite_log.Web.{parse_interval}
use go_elite_log.Loggers.{Loggers}
use go_elite_log.Web.Form.{
  Values, form_value, is_filled, is_confirmed, confirm_fields, confirm_name, confirm_fields_lem,
}
use go_elite_log.Web.Controls.{Choice, marked, interval_controls, parse_interval-interval_controls}
use go_elite_log.Web.Site.{Request, interval_of, settings_of_form}

-- The fields of the form, and whether it warns of records that are erased.
pub record SettingsForm : Type 0 where
  pub minutes : Text
  pub seconds : List Choice
  pub button_stop : Bool
  pub software_stop : Bool
  pub warns : Bool

-- `renderControls`
unfoldable pub controls : DeviceInfo → SettingsForm
unfolding interval_controls
controls i = record {
  minutes = (interval_controls i.interval).0;
  seconds = (interval_controls i.interval).1;
  button_stop = i.start.button_stop;
  software_stop = i.start.software_stop;
  warns = ltb 0 i.record_count;
}

-- What a browser sends of a form: the text of a field, the option that is selected, the boxes that
-- are checked. The clock's box is.
abbrev pub box : Bool → Text → Values
box true name = (name, codes "on") ∷ []
box false name = []

abbrev pub selected : List ℕ → Text
selected [] = codes "0"
selected (s ∷ ss) = itoa_ℕ s

abbrev sent_values : Text → Text → Bool → Bool → Values
sent_values minutes seconds button software =
    (codes "interval_minutes", minutes)
    ∷ (codes "interval_seconds", seconds)
    ∷ (box button (codes "button_stop")
        ++ (box software (codes "software_stop") ++ ((codes "sync_clock", codes "on") ∷ [])))

abbrev pub sent : SettingsForm → Values
sent f = sent_values f.minutes (selected (marked f.seconds)) f.button_stop f.software_stop

abbrev pub posted : Values → Request
posted vs = record { form_error = none; post = vs; query = [] }

-- The settings that stand in the form.
abbrev pub shown_settings : DeviceInfo → Settings
shown_settings i = record {
  interval = i.interval;
  start_immediately = false;
  button_stop = i.start.button_stop;
  software_stop = i.start.software_stop;
  sync_clock = true;
}

values_lem :
    (m s : Text) (b w : Bool)
    → (form_value (sent_values m s b w) (codes "interval_minutes") ≡ m)
      × (form_value (sent_values m s b w) (codes "interval_seconds") ≡ s)
      × (is_filled (form_value (sent_values m s b w) (codes "button_stop")) ≡ b)
      × (is_filled (form_value (sent_values m s b w) (codes "software_stop")) ≡ w)
      × (is_filled (form_value (sent_values m s b w) (codes "sync_clock")) ≡ true)
unfolding form_value
values_lem m s true true = (refl, refl, refl, refl, refl)
values_lem m s true false = (refl, refl, refl, refl, refl)
values_lem m s false true = (refl, refl, refl, refl, refl)
values_lem m s false false = (refl, refl, refl, refl, refl)

other_name : (name : Text) → text_eq name confirm_name ≡ false → name ≢ confirm_name
other_name name h e =
    let same : text_eq name confirm_name ≡ true = (text_eq_iff name confirm_name).1 e in cc

abbrev with_boxes : ℕ → Bool → Bool → Bool → Settings
with_boxes n b w c = record {
  interval = n;
  start_immediately = false;
  button_stop = b;
  software_stop = w;
  sync_clock = c;
}

same_settings :
    (n : ℕ) {b b' w w' c : Bool}
    → b ≡ b'
    → w ≡ w'
    → c ≡ true
    → with_boxes n b w c ≡ with_boxes n b' w' true
same_settings n b w c = rw (b, w, c) refl

module _ (S : Loggers) (trim_space : Text → Text) where
  -- These values are read as the interval and the settings that the form shows.
  abbrev pub Reads : DeviceInfo → Values → Type 0
  Reads i vs =
      (interval_of S trim_space (posted vs) ≡ ok i.interval)
      × (settings_of_form (posted vs) i.interval ≡ shown_settings i)

  module _ (keeps_numerals : (s : Text) → IsNumeral s → trim_space s ≡ s) where
    Reads-same_values :
        (i : DeviceInfo) (vs : Values)
        → valid_interval i.interval ≡ true
        → ((name : Text)
            → name ≢ confirm_name
            → form_value vs name ≡ form_value (sent (controls i)) name)
        → Reads i vs
    unfolding controls
    Reads-same_values i vs v same =
        let (e_m, e_s, e_b, e_w, e_c) =
          values_lem (interval_controls i.interval).0
            (selected (marked (interval_controls i.interval).1)) i.start.button_stop
            i.start.software_stop in
        let (s, one, parsed) =
          parse_interval-interval_controls trim_space keeps_numerals i.interval v in
        let value : (name : Text)
            → text_eq name confirm_name ≡ false
            → form_value (vs ++ []) name ≡ form_value (sent (controls i)) name =
          λ name h. ap (λ xs. form_value xs name) (append-nil vs) ∙ same name (other_name name h) in
        let minutes : form_value (vs ++ []) (codes "interval_minutes")
            ≡ (interval_controls i.interval).0 =
          value (codes "interval_minutes") refl ∙ e_m in
        let seconds : form_value (vs ++ []) (codes "interval_seconds") ≡ itoa_ℕ s =
          value (codes "interval_seconds") refl ∙ e_s ∙ ap selected one in
        (
          ap
                (λ t.
                  parse_interval trim_space atoi_ok t
                    (form_value (vs ++ []) (codes "interval_seconds")))
                minutes
              ∙ ap (parse_interval trim_space atoi_ok (interval_controls i.interval).0) seconds
              ∙ parsed,
          same_settings i.interval (ap is_filled (value (codes "button_stop") refl) ∙ e_b)
              (ap is_filled (value (codes "software_stop") refl) ∙ e_w)
              (ap is_filled (value (codes "sync_clock") refl) ∙ e_c),
        )

    -- For an `Info` with an interval that `Configure` accepts, the form of the settings, sent by
    -- a browser as it is filled in, is read as that interval and those stop bits, with the clock;
    -- and so it is when `confirmForm` has passed it on, which also confirms it; where trimming
    -- leaves a text of digits as it is.
    pub settings_of_form-controls :
        (i : DeviceInfo)
        → valid_interval i.interval ≡ true
        → Reads i (sent (controls i))
          × Reads i (confirm_fields (sent (controls i)))
          × (is_confirmed (confirm_fields (sent (controls i))) ≡ true)
    settings_of_form-controls i v = (
      Reads-same_values i (sent (controls i)) v (λ name h. refl),
      Reads-same_values i (confirm_fields (sent (controls i))) v
          (confirm_fields_lem (sent (controls i))).1,
      (confirm_fields_lem (sent (controls i))).0,
    )
