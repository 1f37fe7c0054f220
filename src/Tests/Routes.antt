-- ===== src/Tests/Routes.antt =====
-- The site behind a choice of patterns by method and path, asked to start a recording.
use go_elite_log.Base.{
  ◌*◌, ◌≡◌, ◌⊎◌, sym, ap, ◌∙◌, refl, Bool, true, false, ◌&&◌, Option, none, some, List, [], ◌∷◌,
  All, if◌then◌else◌,
}
use go_elite_log.Text.{Text, codes, text_eq}
use go_elite_log.Text.Parts.{text_eq_iff}
use go_elite_log.Logger.Requests.{IsRead, log_of}
use go_elite_log.Web.Site.{no_info, Response, unavailable}
use go_elite_log.Base.Result.{no_logger}
use go_elite_log.Calendar.{second}
use go_elite_log.Info.{start_manual}
use go_elite_log.Logger.Identity.{DeviceInfo}
use go_elite_log.Loggers.Guarded.{recorded}
use go_elite_log.Web.Form.{is_confirmed, confirm_fields}
use go_elite_log.Web.Sent.{Reads, sent, controls, settings_of_form-controls}
use go_elite_log.Web.Router.{
  Target, Pattern, Verb, Incoming, get_verb, post_verb, to_home, to_configure, to_records,
  to_monitor, to_start, to_stop, to_csv, to_favicon, to_stylesheet,
}
use go_elite_log.Web.Router.Guarded.{ByMethod, answered, Changes, requests_guarded}
use go_elite_log.Tests.Device.{logger}
use go_elite_log.Tests.Nodes.{open_node, dev_root, tree_of, plugged_in, untrimmed, some_form}

abbrev method_of : Verb → Text
method_of get_verb = codes "GET"
method_of post_verb = codes "POST"

abbrev is_asked : Pattern → Text → Text → Bool
is_asked p method path = text_eq method (method_of p.verb) && text_eq path p.path

unfoldable first_asked : (Target → Pattern) → Text → Text → List Target → Option Target
first_asked patterns method path [] = none
first_asked patterns method path (t ∷ ts) =
    let rest = first_asked patterns method path ts in
    if is_asked (patterns t) method path then some t else rest

abbrev targets : List Target
targets =
    to_home ∷ to_configure ∷ to_records ∷ to_monitor ∷ to_start ∷ to_stop ∷ to_csv ∷ to_favicon
    ∷ to_stylesheet ∷ []

abbrev by_path : (Target → Pattern) → Text → Text → Option Target
by_path patterns method path = first_asked patterns method path targets

asked_if :
    (b : Bool) (t u : Target) (rest : Option Target) (P : Target → Type 0)
    → (b ≡ true → P t)
    → (rest ≡ some u → P u)
    → (if b then some t else rest) ≡ some u
    → P u
asked_if true t u rest P h k e = let same : t ≡ u = cc in rw (sym same) (h refl)
asked_if false t u rest P h k e = k e

left_of : (b c : Bool) → (b && c) ≡ true → b ≡ true
left_of true c h = refl
left_of false c h = h

asked_by_method :
    (p : Pattern) (method path : Text)
    → is_asked p method path ≡ true
    → p.verb ≡ post_verb
    → method ≡ codes "POST"
asked_by_method p method path a v =
    (text_eq_iff method (method_of p.verb)).0 (left_of _ _ a) ∙ ap method_of v

first_asked-ByMethod :
    (patterns : Target → Pattern) (method path : Text) (t : Target) (ts : List Target)
    → first_asked patterns method path ts ≡ some t
    → (patterns t).verb ≡ post_verb
    → method ≡ codes "POST"
unfolding first_asked
first_asked-ByMethod patterns method path t [] e = cc e
first_asked-ByMethod patterns method path t (u ∷ ts) e =
    asked_if (is_asked (patterns u) method path) u t (first_asked patterns method path ts)
      (λ x. (patterns x).verb ≡ post_verb → method ≡ codes "POST")
      (asked_by_method (patterns u) method path) (first_asked-ByMethod patterns method path t ts) e

by_path-ByMethod : ByMethod by_path
by_path-ByMethod patterns method path t e = first_asked-ByMethod patterns method path t targets e

abbrev asset : Incoming → Response
asset i = unavailable no_logger

abbrev to_begin : Incoming
to_begin = record { method = codes "POST"; path = codes "/start"; request = some_form }

requests_guarded_example :
    All IsRead (
      log_of logger (
        answered logger open_node dev_root tree_of untrimmed by_path asset asset asset to_begin
          plugged_in))
    ⊎ Changes logger open_node dev_root tree_of untrimmed by_path asset asset asset to_begin
        plugged_in
unfolding plugged_in
requests_guarded_example =
    requests_guarded logger open_node dev_root tree_of untrimmed by_path asset asset asset to_begin
      plugged_in by_path-ByMethod tt

-- A device that is set to ten and a half minutes and to be stopped by software.
abbrev half_minutes : DeviceInfo
half_minutes = record no_info {
  interval = 630 * second;
  record_count = 7;
  start = record { mode = start_manual; button_stop = false; software_stop = true };
}

settings_of_form-controls_example :
    Reads
      (recorded logger open_node dev_root tree_of)
      untrimmed
      half_minutes
      (sent (controls half_minutes))
    × Reads
        (recorded logger open_node dev_root tree_of)
        untrimmed
        half_minutes
        (confirm_fields (sent (controls half_minutes)))
    × (is_confirmed (confirm_fields (sent (controls half_minutes))) ≡ true)
settings_of_form-controls_example =
    settings_of_form-controls (recorded logger open_node dev_root tree_of) untrimmed (λ s h. refl)
      half_minutes refl
