-- ===== src/Cli.antt =====
-- cmd/elitelog/main.go: the commands over `elitech.Service`. What they print is a list of the values
-- that are printed, and package flag is a parameter: what it makes of the arguments of a command.
pub mod Guarded
pub mod Invariants
pub mod Version
use go_elite_log.Base.{
  ℕ, zero, suc, ◌+◌, ◌%◌, ◌^◌, ◌*◌, Bool, true, false, not, ◌&&◌, Option, none, some, List, [], ◌∷◌,
  length, take, drop, ltb, ◌==◌, ◌!=◌, if◌then◌else◌, option_or,
}
use go_elite_log.Base.Int.{ℤ}
use go_elite_log.Base.Result.{Result, ok, err, Error, no_logger, unconfirmed}
use go_elite_log.Base.Step.{
  Step, Outcome, got, lost, outcome_or, pure, raise, lift, attempt, ◌>>=◌, ◌>>◌,
}
use go_elite_log.Calendar.{Time}
use go_elite_log.Text.{Text, codes, text_eq}
use go_elite_log.Record.{Sample}
use go_elite_log.Info.{StartMode}
use go_elite_log.Hid.{Device}
use go_elite_log.Logger.Identity.{DeviceInfo}
use go_elite_log.Logger.Configure.{Settings}
use go_elite_log.Loggers.{Loggers, first_of, all_or_error}

-- A line of `peek`: its offset and its bytes.
abbrev pub Line : Type 0
Line = ℕ × List ℕ

pub data Printed : Type 0 where
  facts : Device → DeviceInfo → Printed
  rows : List Sample → Printed
  started : StartMode → ℕ → Time → Printed
  stopped : Time → ℕ → Printed
  dump : ℕ → List Line → Printed
  version_text usage_text : Printed
  message : Error → Printed

-- What `flag.Parse` makes of arguments: their values, or the process exits with a code.
pub data Parsed (A : Type 0) : Type 0 where
  parsed : A → Parsed A
  leaves : ℕ → Parsed A

-- The flags of the four commands that have some. A duration is 0 unless it is positive.
pub record Flags : Type 0 where
  pub serve_flags : List Text → Parsed Text
  pub records_flags : List Text → Parsed ℤ
  pub start_flags : List Text → Parsed (ℕ × ℕ)
  pub peek_flags : List Text → Parsed (ℕ × ℕ × ℕ)

-- The command that the first argument names.
pub data Command : Type 0 where
  serve_command info_command records_command start_command stop_command peek_command : Command
  version_command no_command : Command

unfoldable pub command_of : List Text → Command
command_of [] = no_command
command_of (name ∷ args) =
    if text_eq name (codes "serve")
    then serve_command
    else if text_eq name (codes "info")
    then info_command
    else if text_eq name (codes "records")
    then records_command
    else if text_eq name (codes "start")
    then start_command
    else if text_eq name (codes "stop")
    then stop_command
    else if text_eq name (codes "peek")
    then peek_command
    else if text_eq name (codes "version")
    then version_command
    else no_command

abbrev pub arguments : List Text → List Text
arguments [] = []
arguments (name ∷ args) = args

-- `for i := 0; i < len(data); i += 16`, with as many steps as there are bytes.
unfoldable pub dump_lines : ℕ → ℕ → List ℕ → List Line
dump_lines zero offset bytes = []
dump_lines (suc n) offset [] = []
dump_lines (suc n) offset (b ∷ bs) =
    (offset % 2 ^ 32, take 16 (b ∷ bs)) ∷ dump_lines n (offset + 16) (drop 16 (b ∷ bs))

-- `listen` is `http.ListenAndServe`, and `raw` opens the device and calls `ReadRaw`.
module _ (S : Loggers) (flags : Flags) (listen : Text → Step S.World (Unit {0}))
    (raw : Device → ℕ → ℕ → ℕ → Step S.World (List ℕ)) where
  abbrev pub Call : Type 0 → Type 0
  Call A = Step S.World A

  -- `firstDevice`
  unfoldable pub require_device : Call Device
  require_device = do ds ← S.find; option_or (raise no_logger) pure (first_of ds)

  -- `info`
  unfoldable pub print_info : Call (List Printed)
  unfolding require_device
  print_info = do dev ← require_device; i ← S.info dev; pure (facts dev i ∷ [])

  -- `records`
  unfoldable pub print_records : ℤ → Call (List Printed)
  unfolding require_device
  print_records last = do
    dev ← require_device
    r ← S.records dev last
    recs ← lift (all_or_error r)
    pure (rows recs ∷ [])

  abbrev pub start_settings : DeviceInfo → ℕ → Settings
  start_settings i interval = record {
    interval = if ltb 0 interval then interval else i.interval;
    start_immediately = true;
    button_stop = i.start.button_stop;
    software_stop = true;
    sync_clock = true;
  }

  -- `start` once the device has told its state.
  unfoldable pub start_with : ℕ → ℕ → Device → DeviceInfo → Call (List Printed)
  start_with interval confirm dev i =
      if ltb 0 i.record_count && ((confirm % 2 ^ 32) != i.record_count)
      then raise unconfirmed
      else (do
        r ← S.configure dev (start_settings i interval) (confirm % 2 ^ 32)
        after ← lift (all_or_error r)
        pure (started after.start.mode after.interval after.started_at ∷ []))

  -- `start`
  unfoldable pub start_recording : ℕ → ℕ → Call (List Printed)
  unfolding require_device start_with
  start_recording interval confirm = do
    dev ← require_device
    i ← S.info dev
    start_with interval confirm dev i

  -- `stop`
  unfoldable pub stop_recording : Call (List Printed)
  unfolding require_device
  stop_recording = do
    dev ← require_device
    S.stop dev
    i ← S.info dev
    pure (stopped i.stopped_at i.record_count ∷ [])

  -- `peek`
  unfoldable pub peek : ℕ → ℕ → ℕ → Call (List Printed)
  unfolding require_device dump_lines
  peek operation offset n = do
    dev ← require_device
    bytes ← raw dev (operation % 2 ^ 16) (offset % 2 ^ 32) (n % 2 ^ 8)
    pure (dump operation (dump_lines (length bytes) (offset % 2 ^ 32) bytes) ∷ [])

  -- The exit code of the process with what it has printed.
  abbrev pub exit_of : Outcome (List Printed) → ℕ × List Printed
  exit_of (got out) = (0, out)
  exit_of (lost e) = (1, message e ∷ [])

  abbrev pub run : Call (List Printed) → Call (ℕ × List Printed)
  run m = do r ← attempt m; pure (exit_of r)

  abbrev pub with_flags :
      {A : Type 0} → Parsed A → (A → Call (List Printed)) → Call (ℕ × List Printed)
  with_flags (parsed a) m = run (m a)
  with_flags (leaves code) m = pure (code, [])

  abbrev pub run_command : Command → List Text → Call (ℕ × List Printed)
  run_command serve_command args =
      with_flags (flags.serve_flags args) (λ addr. do listen addr; pure [])
  run_command info_command args = run print_info
  run_command records_command args = with_flags (flags.records_flags args) print_records
  run_command start_command args =
      with_flags (flags.start_flags args) (λ p. start_recording p.0 p.1)
  run_command stop_command args = run stop_recording
  run_command peek_command args = with_flags (flags.peek_flags args) (λ p. peek p.0 p.1 p.2)
  run_command version_command args = pure (0, version_text ∷ [])
  run_command no_command args = pure (2, usage_text ∷ [])

  -- `main`
  unfoldable pub main : List Text → Call (ℕ × List Printed)
  unfolding print_info print_records start_recording stop_recording peek command_of
  main args = run_command (command_of args) (arguments args)
