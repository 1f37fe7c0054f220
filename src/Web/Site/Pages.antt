-- ===== src/Web/Site/Pages.antt =====
-- internal/web/web.go: the requests, the pages as lists of blocks, and what the handlers ask for.
use go_elite_log.Base.{ℕ, Bool, true, false, Option, List, [], ◌∷◌, ◌++◌, ◌==◌, if◌then◌else◌}
use go_elite_log.Base.Int.{ℤ, pos}
use go_elite_log.Base.Result.{Error, stop_unacknowledged}
use go_elite_log.Calendar.{minute, zero_time}
use go_elite_log.Text.{Text, codes, atoi}
use go_elite_log.Record.{Sample}
use go_elite_log.Info.{no_status}
use go_elite_log.Hid.{Device}
use go_elite_log.Logger.Identity.{DeviceInfo}
use go_elite_log.Logger.Configure.{Settings}
use go_elite_log.Web.{Headline}
use go_elite_log.Web.Form.{Values, form_value, is_filled, confirm_fields, Confirm}
use Prim.Native.String.{String}

-- A message: a text, the text of an error, or an error behind a text.
pub data Message : Type 0 where
  said : String → Message
  told : Error → Message
  told_after : String → Error → Message

pub data Block : Type 0 where
  danger warning : Message → Block
  prompt : Confirm → Block
  device_error : Device → Error → Block
  device_facts : Device → DeviceInfo → Block
  latest_reading : List Sample → Bool → Block
  settings_form : DeviceInfo → Block
  recording_controls : DeviceInfo → Block
  links : ℤ → Block
  record_table : List Sample → Bool → Block
  state_box : Headline → Block
  state_text : String → Message → Block
  monitor_facts : DeviceInfo → Block

-- A page has a title and a number of seconds after which it loads itself again, 0 for never.
pub data Response : Type 0 where
  page : String → ℕ → List Block → Response
  see_other : String → Response
  csv : List Sample → Response
  unavailable : Error → Response

-- `errMsg` and `prompt`, of which one is empty.
pub data Notice : Type 0 where
  no_notice : Notice
  problem : Message → Notice
  asking : Confirm → Notice

abbrev pub notice_blocks : Notice → List Block
notice_blocks no_notice = []
notice_blocks (problem m) = danger m ∷ []
notice_blocks (asking c) = prompt c ∷ []

-- The body and the query of a request; the error of `ParseForm`.
pub record Request : Type 0 where
  pub form_error : Option Error
  pub post : Values
  pub query : Values

abbrev pub all_values : Request → Values
all_values r = r.post ++ r.query

abbrev pub value_of : Request → String → Text
value_of r name = form_value (all_values r) (codes name)

-- `strconv.Atoi(r.URL.Query().Get("last"))`, its error dropped.
abbrev pub last_of : Request → ℤ
last_of r = (atoi (form_value r.query (codes "last"))).0

abbrev pub monitor_refresh : ℕ
monitor_refresh = 5

abbrev pub records_refresh : ℕ
records_refresh = 9

abbrev pub records_refresh_of : Notice → ℕ
records_refresh_of no_notice = records_refresh
records_refresh_of (problem m) = 0
records_refresh_of (asking c) = 0

-- The zero `Info` that stands there after an error.
abbrev pub no_info : DeviceInfo
no_info = record {
  identity = record { model = 0; serial = []; protocol = 0 };
  capacity = 0;
  record_count = 0;
  count_known = false;
  interval = 0;
  start = record { mode = 0; button_stop = false; software_stop = false };
  recording = false;
  status = no_status;
  fahrenheit = false;
  battery = pos 0;
  configured_at = zero_time;
  started_at = zero_time;
  stopped_at = zero_time;
  device_time = zero_time;
}

-- The settings of the form of `configure`, and those of `start`.
abbrev pub settings_of_form : Request → ℕ → Settings
settings_of_form r interval = record {
  interval = interval;
  start_immediately = false;
  button_stop = is_filled (value_of r "button_stop");
  software_stop = is_filled (value_of r "software_stop");
  sync_clock = is_filled (value_of r "sync_clock");
}

abbrev pub settings_to_start : DeviceInfo → Settings
settings_to_start i = record {
  interval = if i.interval == 0 then minute else i.interval;
  start_immediately = true;
  button_stop = i.start.button_stop;
  software_stop = true;
  sync_clock = true;
}

abbrev pub ask_configure : Request → Confirm
ask_configure r = record {
  action = "/configure";
  cancel = "/";
  warning = "Saving these settings erases the stored records.";
  fields = confirm_fields (all_values r);
}

abbrev pub ask_start : Request → Confirm
ask_start r = record {
  action = "/start";
  cancel = "records";
  warning = "Starting a new recording erases the stored records.";
  fields = confirm_fields r.post;
}

abbrev pub stop_message : Error → Message
stop_message stop_unacknowledged =
    said
      "Stop command sent, but the logger did not acknowledge it. An idle logger stays silent; if it was recording, unplug and replug it and check the state above."
stop_message e = told_after "Stop failed: " e
