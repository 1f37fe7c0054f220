-- ===== src/Tests/Methods.antt =====
-- The methods of the logger on the device of `Device`.
use go_elite_log.Base.{
  ℕ, ◌≢◌, ◌⊎◌, All, replicate, arith, true, false, ◌*◌, ◌≡◌, refl, none, some, List, [], ◌∷◌,
}
use go_elite_log.Base.Int.{pos}
use go_elite_log.Base.Result.{ok, err, stuck, records_present}
use go_elite_log.Calendar.{second, zero_time}
use go_elite_log.Frame.{Frame, checksum, encode_frame, decode_frame, is_record_ack}
use go_elite_log.Info.{
  no_status, decode_start_byte, encode_start_byte, encode_interval, Counts, is_ff, all_zero,
  decode_date_time, decode_capacity_count, capacity_of, count_of, decode_status, decode_interval,
}
use go_elite_log.Record.{
  Sample, no_sample, all_ff, decode_record_tenths, decode_record_th, decode_record,
  decode_record_at,
}
use go_elite_log.Logger.Transport.{
  World, Session, pure, lift, attempt, gets, raise, require, set_protocol, write, read, now, sleep,
  close, ◌>>=◌, ◌>>◌,
}
use go_elite_log.Logger.Exchange.{
  drain_loop, drain, read_report, send, await_loop, await_reply, get_with, get, read_op5,
  set_parameter,
}
use go_elite_log.Logger.Identity.{
  trim_end, trim_ascii, prime_with, prime, count_tries, read_capacity_count, status_blocks,
  read_status,
}
use go_elite_log.Logger.Configure.{
  Settings, configure, commit, format, write_blocks, read_blocks, patch_blocks, modify, copy_at,
  overlay,
}
use go_elite_log.Logger.Requests.{recorder, IsRead, log_of}
use go_elite_log.Logger.Download.{
  record_width, plausible_from, plausible_records, wanted_start, first_offset, place, packet_from,
  classify, still_waiting, packet_loop, get_record_packet, request_packet, records_loop, clean_up,
  download_from, records,
}
use go_elite_log.Logger.Configure.{valid_interval, verify_settings}
use go_elite_log.Logger.Identity.{DeviceInfo}
use go_elite_log.Logger.Requests.{records_reads}
use go_elite_log.Logger.Erase.{Confirmed, configure_guarded}
use go_elite_log.Logger.Sequence.{changes, changes-configure}
use go_elite_log.Logger.Termination.{records_ends}
use go_elite_log.Logger.Slots.{Within, newest_from}
use go_elite_log.Logger.Selection.{records_window}
use go_elite_log.Logger.Written.{verify-patch_blocks}
use go_elite_log.Tests.Device.{serve, receive, logger, session, time_of, ticking}

abbrev some_records : List Sample
some_records =
    record no_sample {
      index = pos 1;
      time = pos (600 * second);
      temperature = record { negative = true; magnitude = 5 };
      humidity = record { negative = false; magnitude = 550 };
      has_humidity = true;
    }
    ∷ []

records_run : (records logger (pos 1) session).0 ≡ ok (some_records, none)
unfolding decode_record_tenths decode_record_th all_ff is_ff decode_date_time all_zero records
    download_from clean_up records_loop request_packet get_record_packet packet_loop still_waiting
    classify packet_from place first_offset wanted_start plausible_records plausible_from
    record_width decode_record_at decode_record decode_capacity_count capacity_of count_of
    decode_status decode_interval read_status status_blocks read_capacity_count count_tries prime
    prime_with trim_ascii trim_end read_op5 get get_with drain drain_loop send await_loop
    await_reply read_report is_record_ack lift read write now sleep gets attempt set_protocol pure
    raise require ◌>>=◌ encode_frame decode_frame checksum logger session receive serve copy_at
    overlay
records_run = refl

get_run : (get_with logger 0x94 2 1000 session).0 ≡ ok (0x00 ∷ 0x35 ∷ [])
unfolding get_with drain drain_loop send await_loop await_reply read_report lift read write now pure
    require ◌>>=◌ encode_frame decode_frame checksum logger session receive serve copy_at overlay
get_run = refl

-- The same session, with an empty record of the reports.
unfoldable logged : Session (World (recorder logger))
unfolding logger session
logged = record { world = (session.world, []); protocol = 0 }

abbrev some_settings : Settings
some_settings = record {
  interval = 600 * second;
  start_immediately = true;
  button_stop = true;
  software_stop = true;
  sync_clock = false;
}

configure_run : (configure (recorder logger) some_settings 2 logged).0 ≡ ok tt
unfolding configure commit format write_blocks read_blocks patch_blocks modify set_parameter
    encode_start_byte encode_interval close logged is_ff decode_capacity_count capacity_of count_of
    read_capacity_count count_tries prime prime_with trim_ascii trim_end get get_with drain
    drain_loop send await_loop await_reply read_report lift read write now sleep gets attempt
    set_protocol pure raise require ◌>>=◌ encode_frame decode_frame checksum logger session receive
    serve copy_at overlay
configure_run = refl

-- Without the confirmed count the two records stay.
configure_refused : (configure (recorder logger) some_settings 1 logged).0 ≡ err records_present
unfolding configure raise commit logged is_ff decode_capacity_count capacity_of count_of
    read_capacity_count count_tries prime prime_with trim_ascii trim_end get get_with drain
    drain_loop send await_loop await_reply read_report lift read write now sleep gets attempt
    set_protocol pure require ◌>>=◌ encode_frame decode_frame checksum logger session receive serve
    copy_at overlay
configure_refused = refl

configure_guarded_example :
    All IsRead (log_of logger (configure (recorder logger) some_settings 1 logged).1.world)
    ⊎ ((valid_interval (600 * second) ≡ true)
        × Confirmed logger some_settings 1
            ((prime (recorder logger) >> read_capacity_count (recorder logger)) logged).0)
unfolding logged
configure_guarded_example = configure_guarded logger some_settings 1 logged tt

changes-configure_example :
    changes (log_of logger (configure (recorder logger) some_settings 2 logged).1.world)
    ≡ (4, 0x00, 0x30)
      ∷ (4, 0x30, 0x30)
      ∷ (4, 0x60, 0x30)
      ∷ (4, 0x98, 0x34)
      ∷ (4, 0xCC, 0x30)
      ∷ (4, 0xFD, 0x2F)
      ∷ (0x02C0, 0, 1)
      ∷ []
unfolding logged
changes-configure_example = changes-configure logger some_settings 2 logged configure_run

records_ends_example : (records logger (pos 1) session).0 ≢ stuck
records_ends_example = records_ends logger time_of ticking (pos 1) session

records_reads_example :
    All IsRead (log_of logger (records (recorder logger) (pos 1) logged).1.world)
unfolding logged
records_reads_example = records_reads logger (pos 1) logged tt

records_window_example :
    (c : Counts) × (((prime logger >> read_capacity_count logger) session).0 ≡ ok (some c))
    × Within (newest_from 1 c.count) c.count some_records
records_window_example = records_window logger 1 session (omega arith) records_run

abbrev two_bytes : List ℕ
two_bytes = 4 ∷ 5 ∷ []

abbrev protocol_bytes : List ℕ
protocol_bytes = 0x00 ∷ 0x35 ∷ []

abbrev wide_reply : Frame
wide_reply = record { op = 3; offset = 0x90; n = 8; payload = 0 ∷ 1 ∷ 2 ∷ 3 ∷ 4 ∷ 5 ∷ 6 ∷ 7 ∷ [] }

abbrev some_info : DeviceInfo
some_info = record {
  identity = record { model = 0x0510; serial = []; protocol = 0x35 };
  capacity = 16;
  record_count = 0;
  count_known = true;
  interval = 600 * second;
  start = record { mode = 0; button_stop = true; software_stop = true };
  recording = true;
  status = no_status;
  fahrenheit = false;
  battery = pos 3;
  configured_at = zero_time;
  started_at = zero_time;
  stopped_at = zero_time;
  device_time = zero_time;
}

verify-patch_blocks_example : verify_settings some_info some_settings ≡ []
unfolding patch_blocks modify copy_at overlay encode_start_byte decode_start_byte encode_interval
    decode_interval is_ff all_ff
verify-patch_blocks_example =
    verify-patch_blocks some_settings none (replicate 48 0) (replicate 48 0) [] some_info refl
      (omega arith) (omega arith) refl refl
