-- ===== src/Web/Facts.antt =====
-- internal/web/web.go: the texts of durations and times, the tables of facts, and the context of a
-- page. How a time is formatted is a parameter.
use go_elite_log.Base.{
  ℕ, Bool, true, false, Option, none, some, List, [], ◌∷◌, ◌++◌, ltb, ◌==◌, if◌then◌else◌,
  option_or,
}
use go_elite_log.Base.Int.{ℤ}
use go_elite_log.Base.Result.{Error, permission}
use go_elite_log.Calendar.{Time, is_zero, hour, minute}
use go_elite_log.Record.{Tenths}
use go_elite_log.Text.{Text, codes, itoa_ℕ, hex_text}
use go_elite_log.Info.{mode_text}
use go_elite_log.Hid.{Device}
use go_elite_log.Logger.Identity.{DeviceInfo, temperature_unit}
use go_elite_log.Web.{
  Part, day, Headline, stopped_at, recording_since_time, holding_records, not_started, format_span,
  duration_text, logging_time,
}
use go_elite_log.Web.View.{count_text, battery_text, extremes, yes_no}
use Prim.Native.String.{String}

abbrev pub unit_letter : ℕ → ℕ
unit_letter unit =
    if unit == day
    then b'd'
    else if unit == hour
    then b'h'
    else if unit == minute
    then b'm'
    else b's'

-- `strings.Join` of the parts, each a number and the letter of its unit.
unfoldable pub parts_text : List Part → Text
unfolding itoa_ℕ
parts_text [] = []
parts_text (p ∷ []) = itoa_ℕ p.0 ++ (unit_letter p.1 ∷ [])
parts_text (p ∷ q ∷ ps) = itoa_ℕ p.0 ++ (unit_letter p.1 ∷ b' ' ∷ parts_text (q ∷ ps))

abbrev unknown : Text
unknown = codes "unknown"

-- An en dash.
abbrev pub dash : Text
dash = 0xE2 ∷ 0x80 ∷ 0x93 ∷ []

abbrev pub duration_words : ℕ → Text
duration_words d = option_or unknown parts_text (duration_text d)

abbrev pub logging_words : DeviceInfo → Text
logging_words i =
    option_or unknown
      (λ t.
        parts_text t.0
        ++ (codes " total, "
            ++ (parts_text t.1 ++ (codes " recorded, " ++ (parts_text t.2 ++ codes " remaining")))))
      (logging_time i)

abbrev pub extremes_text : Tenths → Tenths → Text
extremes_text lo hi = option_or dash (λ t. t) (extremes lo hi)

-- A row of a table: its field and its value.
abbrev pub Fact : Type 0
Fact = Text × Text

module _ (format_time : Time → Text) where
  abbrev pub time_text : Time → Text
  time_text t = if is_zero t then dash else format_time t

  -- The rows of `renderMonitorFacts`; the unit stands in a field's name, so it is apart.
  pub record MonitorFacts : Type 0 where
    pub temperature_unit : String
    pub rows : List Fact

  unfoldable pub monitor_facts : DeviceInfo → MonitorFacts
  unfolding parts_text
  monitor_facts i = record {
    temperature_unit = temperature_unit i;
    rows =
        (codes "Records", count_text i)
        ∷ (codes "Sampling interval", duration_words i.interval)
        ∷ (
          codes "Temperature min / max",
          extremes_text i.status.min_temperature i.status.max_temperature,
        )
        ∷ (codes "Humidity min / max", extremes_text i.status.min_humidity i.status.max_humidity)
        ∷ (codes "Device clock", time_text i.device_time)
        ∷ (codes "Battery", battery_text i.battery)
        ∷ (codes "Serial", i.identity.serial)
        ∷ [];
  }

  -- The rows of `renderInfo`.
  unfoldable pub info_facts : Device → DeviceInfo → List Fact
  unfolding hex_text parts_text
  info_facts dev i =
      (codes "Node", dev.path)
      ∷ (codes "Name", dev.name)
      ∷ (codes "Model", codes "0x" ++ hex_text 4 i.identity.model)
      ∷ (codes "Serial", i.identity.serial)
      ∷ (codes "Protocol", codes "0x" ++ hex_text 2 i.identity.protocol)
      ∷ (codes "Records", count_text i)
      ∷ (codes "Sampling interval", duration_words i.interval)
      ∷ (codes "Logging time at this interval", logging_words i)
      ∷ (codes "Start mode", codes (mode_text i.start.mode))
      ∷ (codes "Stop by button", codes (yes_no i.start.button_stop))
      ∷ (codes "Stop by software", codes (yes_no i.start.software_stop))
      ∷ (codes "Battery", battery_text i.battery)
      ∷ (codes "Configured at", time_text i.configured_at)
      ∷ (codes "Started at", time_text i.started_at)
      ∷ (codes "Stopped at", time_text i.stopped_at)
      ∷ (codes "Device clock", time_text i.device_time)
      ∷ []

  -- The three texts of `recordingState`; `since` is `time.Since`.
  pub record StateTexts : Type 0 where
    pub state : String
    pub colour : String
    pub detail : Text

  unfoldable pub state_texts : (Time → ℤ) → DeviceInfo → Headline → StateTexts
  unfolding parts_text
  state_texts since i (stopped_at t) = record {
    state = "Stopped";
    colour = "is-warning";
    detail = codes "stopped " ++ time_text t;
  }
  state_texts since i (recording_since_time t) = record {
    state = "Recording";
    colour = "is-success";
    detail =
        codes "since "
        ++ (time_text t ++ (codes " (" ++ (parts_text (format_span (since t)) ++ codes ")")));
  }
  state_texts since i holding_records = record {
    state = "Holding records";
    colour = "is-info";
    detail = codes "not recording; " ++ (count_text i ++ codes " stored");
  }
  state_texts since i not_started = record {
    state = "Not started";
    colour = "is-light";
    detail = codes "hold the button for 10 s after unplugging to start";
  }

-- The hint of `renderDeviceError`, which stands behind a lack of permission only.
abbrev pub is_permission : Error → Bool
is_permission permission = true
is_permission e = false

-- The context of `renderRefreshing`, with what the page has written into the buffer.
pub record Context : Type 0 where
  pub title : String
  pub results : Text
  pub version : Text
  pub refresh : Option Text

unfoldable pub context_of : Text → String → ℕ → Text → Context
unfolding itoa_ℕ
context_of version title seconds results = record {
  title = title;
  results = results;
  version = version;
  refresh = if ltb 0 seconds then some (itoa_ℕ seconds) else none;
}
