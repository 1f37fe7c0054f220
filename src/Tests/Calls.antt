-- ===== src/Tests/Calls.antt =====
-- The calls of the service on the device of `Device`, which counts how often it is open.
use go_elite_log.Base.{
  ℕ, ◌≢◌, ◌+◌, ◌-◌, ◌*◌, ◌≡◌, ◌⊎◌, refl, true, false, All, Option, none, [], ◌∷◌,
}
use go_elite_log.Base.Int.{pos}
use go_elite_log.Base.Result.{ok, stuck, Error}
use go_elite_log.Calendar.{second, zero_time}
use go_elite_log.Frame.{checksum, encode_frame, decode_frame}
use go_elite_log.Info.{
  no_status, decode_start_byte, encode_start_byte, encode_interval, is_ff, all_zero,
  decode_date_time, decode_capacity_count, capacity_of, count_of, decode_status, decode_interval,
}
use go_elite_log.Record.{all_ff, decode_tenths}
use go_elite_log.Logger.Transport.{
  Transport, World, pure, lift, attempt, gets, raise, require, set_protocol, write, read, now,
  sleep, close, ◌>>=◌,
}
use go_elite_log.Logger.Exchange.{
  drain_loop, drain, read_report, send, await_loop, await_reply, get_with, get, read_op5,
  set_parameter,
}
use go_elite_log.Logger.Identity.{
  DeviceInfo, info, trim_end, trim_ascii, prime_with, prime, count_tries, read_capacity_count,
  status_blocks, read_status,
}
use go_elite_log.Logger.Configure.{
  Settings, configure, commit, format, write_blocks, read_blocks, patch_blocks, modify, copy_at,
  overlay, verify_settings,
}
use go_elite_log.Service.{service_records, service_configure, with_logger, service_info}
use go_elite_log.Service.Closed.{Handles, service_configure_closed, service_records_closed}
use go_elite_log.Service.Verified.{service_configure_verified}
use go_elite_log.Service.Guarded.{recorded_open, MayErase, service_configure_guarded}
use go_elite_log.Service.Termination.{service_configure_ends}
use go_elite_log.Logger.Configure.{wanted_mode}
use go_elite_log.Logger.Requests.{recorder, IsRead, log_of}
use go_elite_log.Tests.Device.{Device, serve, receive, logger, recording, time_of, ticking}

-- The device with the number of times that it is open.
unfoldable counted : Transport
unfolding logger
counted = record {
  World = Device × ℕ;
  write = λ b w. ((logger.write b w.0).0, ((logger.write b w.0).1, w.1));
  read = λ wait w. ((logger.read wait w.0).0, ((logger.read wait w.0).1, w.1));
  now = λ w. ((logger.now w.0).0, ((logger.now w.0).1, w.1));
  sleep = λ d w. (logger.sleep d w.0, w.1);
  close = λ w. (none, (w.0, w.1 - 1));
}

unfoldable open_it : World counted → Option Error × World counted
unfolding counted logger
open_it w = (none, (w.0, w.1 + 1))

unfoldable held : World counted → ℕ
unfolding counted logger
held w = w.1

unfoldable at_rest : World counted
unfolding counted logger
at_rest = (recording, 0)

handles : Handles counted open_it held
unfolding counted open_it held logger
handles = record {
  opens = λ w e. refl;
  refuses = λ w e p. cc;
  closes = λ w. refl;
  reading = λ wait w. refl;
  timing = λ w. refl;
  sleeping = λ d w. refl;
  writing = λ b w. refl;
}

at_rest_closed : held at_rest ≡ 0
unfolding held at_rest
at_rest_closed = refl

unfoldable recorded_rest : World logger
unfolding logger
recorded_rest = recording

abbrev some_settings : Settings
some_settings = record {
  interval = 600 * second;
  start_immediately = true;
  button_stop = true;
  software_stop = true;
  sync_clock = false;
}

abbrev some_info : DeviceInfo
some_info = record {
  identity = record { model = 0x0510; serial = b'E' ∷ b'F' ∷ []; protocol = 0x35 };
  capacity = 16;
  record_count = 2;
  count_known = true;
  interval = 600 * second;
  start = record { mode = 0; button_stop = true; software_stop = true };
  recording = false;
  status = no_status;
  fahrenheit = false;
  battery = pos 0;
  configured_at = zero_time;
  started_at = zero_time;
  stopped_at = zero_time;
  device_time = zero_time;
}

configure_run : (service_configure counted open_it some_settings 2 at_rest).0 ≡ ok (some_info, none)
unfolding open_it at_rest counted service_configure service_info with_logger verify_settings info
    decode_start_byte decode_status decode_date_time all_zero all_ff decode_tenths decode_interval
    read_status status_blocks read_op5 configure commit format write_blocks read_blocks patch_blocks
    modify set_parameter encode_start_byte encode_interval close is_ff decode_capacity_count
    capacity_of count_of read_capacity_count count_tries prime prime_with trim_ascii trim_end get
    get_with drain drain_loop send await_loop await_reply read_report lift read write now sleep gets
    attempt set_protocol pure raise require ◌>>=◌ encode_frame decode_frame checksum logger receive
    serve copy_at overlay
configure_run = refl

service_configure_verified_example :
    ((configure counted some_settings 2 (record { world = (open_it at_rest).1; protocol = 0 })).0
      ≡ ok tt)
    × ((600 * second ≡ 600 * second)
        × (some_info.start.mode ≡ wanted_mode some_settings)
        × (some_info.start.button_stop ≡ some_settings.button_stop)
        × (some_info.start.software_stop ≡ some_settings.software_stop))
service_configure_verified_example =
    service_configure_verified counted open_it some_settings 2 at_rest configure_run

service_configure_closed_example :
    held (service_configure counted open_it some_settings 2 at_rest).1 ≡ 0
service_configure_closed_example =
    service_configure_closed counted open_it held handles some_settings 2 at_rest at_rest_closed
      (λ e. cc (configure_run, e))

-- Opening the device of `Device`, which always succeeds.
unfoldable open_logger : World logger → Option Error × World logger
unfolding logger
open_logger d = (none, d)

unfoldable blank_log : World (recorder logger)
unfolding logger
blank_log = (recording, [])

service_configure_guarded_example :
    All IsRead (
      log_of logger
        (service_configure
          (recorder logger)
          (recorded_open logger open_logger)
          some_settings
          1
          blank_log).1)
    ⊎ MayErase logger open_logger some_settings 1 (recorded_open logger open_logger blank_log).1
unfolding blank_log
service_configure_guarded_example =
    service_configure_guarded logger open_logger some_settings 1 blank_log tt

service_configure_ends_example :
    (service_configure logger open_logger some_settings 2 recorded_rest).0 ≢ stuck
service_configure_ends_example =
    service_configure_ends logger open_logger time_of ticking some_settings 2 recorded_rest

service_records_closed_example : held (service_records counted open_it (pos 1) at_rest).1 ≡ 0
service_records_closed_example =
    service_records_closed counted open_it held handles (pos 1) at_rest at_rest_closed
