-- ===== src/Tests/Fakes.antt =====
-- The simulated logger on concrete memories: seven records of a device with a humidity sensor.
use go_elite_log.Base.{
  ℕ, true, false, Option, inr, zero, suc, ◌+◌, ◌*◌, ◌≡◌, refl, arith, [], length, get_or, inl, some,
  none,
}
use go_elite_log.Base.Int.{pos}
use go_elite_log.Base.Result.{ok, Error, err, stop_unacknowledged}
use go_elite_log.Record.{decode_record_at}
use go_elite_log.Info.{Counts, decode_capacity_count}
use go_elite_log.Logger.Download.{records, request_packet}
use go_elite_log.Fake.{FakeDevice, fake, new_fake_device, add_records_th, th_records, ffs}
use go_elite_log.Calendar.{second}
use go_elite_log.Logger.Identity.{DeviceInfo}
use go_elite_log.Logger.Configure.{Settings, stop, verify_settings}
use go_elite_log.Service.{service_records, service_configure}
use go_elite_log.Fake.Exchange.{Progress, idle, on}
use go_elite_log.Logger.Transport.{got}
use go_elite_log.Fake.Preamble.{Shy, request_packet_ready}
use go_elite_log.Fake.Stopped.{halted, stop_lem}
use go_elite_log.Fake.Service.{service_records_download, service_configure_succeeds}
use go_elite_log.Fake.Memory.{Plain}
use go_elite_log.Fake.Methods.{Yields, bytes, protocol_of}
use go_elite_log.Fake.Packets.{Uniform, data_report}
use go_elite_log.Fake.Stored.{Legible, stored_from, records_download}

abbrev seven : FakeDevice
unfolding new_fake_device add_records_th
seven = add_records_th 7 new_fake_device

abbrev seven_counts : Counts
seven_counts = record { capacity = 32000; count = 7 }

th_width : (n i idx : ℕ) → length (get_or (th_records n i) idx (ffs 4)) ≡ 4
unfolding th_records
th_width zero i idx = refl
th_width (suc n) i zero = refl
th_width (suc n) i (suc idx) = th_width n (i + 1) idx

seven-Uniform : Uniform seven 4
unfolding add_records_th new_fake_device
seven-Uniform = (inl refl, λ idx. th_width 7 0 idx)

seven-Plain : Plain seven
unfolding add_records_th new_fake_device
seven-Plain = record { narrow = refl; counted = refl; ready = refl; memory = refl; states = refl }

seven-Legible : Legible seven (protocol_of seven) 7
unfolding add_records_th new_fake_device decode_record_at th_records
seven-Legible zero h = refl
seven-Legible (suc zero) h = refl
seven-Legible (suc (suc k)) h = absurd (omega arith)

seven_lem : decode_capacity_count (bytes seven 0x42 10) (protocol_of seven) ≡ some seven_counts
unfolding decode_capacity_count add_records_th new_fake_device
seven_lem = refl

records_download_example :
    Yields seven seven 0 (protocol_of seven) (stored_from seven 5 7, none) (records fake (pos 2))
records_download_example =
    records_download seven 4 0 2 seven_counts seven-Plain seven-Uniform seven_lem (omega arith)
      seven-Legible (omega arith)

abbrev found : FakeDevice → Option Error × FakeDevice
found w = (none, record w { closed = false })

abbrev at_rest : Progress
at_rest = record { clock = 0; written = []; reads = 0; seen = false }

abbrev each_minute : Settings
each_minute = record {
  interval = 60 * second;
  start_immediately = true;
  button_stop = false;
  software_stop = true;
  sync_clock = true;
}

service_records_download_example :
    (g : Progress) × (service_records fake found (pos 2) (idle seven at_rest)
      ≡ (ok (stored_from seven 5 7, none), idle (record seven { closed = true }) g))
service_records_download_example =
    service_records_download found (λ w. refl) seven 4 2 seven_counts seven-Plain seven-Uniform
      seven_lem (omega arith) seven-Legible (omega arith) at_rest

service_configure_succeeds_example :
    (i : DeviceInfo) × (w : FakeDevice) × (service_configure fake found each_minute 7
        (idle seven at_rest)
      ≡ (ok (i, none), w))
    × (i.record_count ≡ 0)
    × (i.capacity ≡ 32000)
    × (verify_settings i each_minute ≡ [])
    × (w.formats ≡ seven.formats + 1)
    × (w.closed ≡ true)
service_configure_succeeds_example =
    service_configure_succeeds found (λ w. refl) seven seven-Plain each_minute 7 seven_counts
      seven_lem refl (inr refl) at_rest

-- The same device, silent about being stopped.
abbrev silent : FakeDevice
silent = record seven { silent_stop = true }

silent-Plain : Plain silent
silent-Plain = record {
  narrow = seven-Plain.narrow;
  counted = seven-Plain.counted;
  ready = seven-Plain.ready;
  memory = seven-Plain.memory;
  states = seven-Plain.states;
}

stop_lem_example :
    (g : Progress) × (stop fake (on (idle silent at_rest) 0)
      ≡ (err stop_unacknowledged, on (idle (halted silent) g) (protocol_of silent)))
stop_lem_example = stop_lem silent 0 at_rest silent-Plain

-- The same device, which is silent about its records until it has seen the preamble.
abbrev shy : FakeDevice
shy = record seven { needs_preamble = true }

shy-Shy : Shy shy
shy-Shy = record { narrow = seven-Plain.narrow; counted = seven-Plain.counted; needs = refl }

request_packet_ready_example :
    (g : Progress) × (request_packet fake false 0 (on (idle shy at_rest) (protocol_of seven))
      ≡ (ok (got (data_report shy 0), true), on (idle shy g) (protocol_of seven)))
    × (g.seen ≡ true)
request_packet_ready_example =
    request_packet_ready shy shy-Shy 4 seven-Uniform 0 (protocol_of seven) at_rest refl
      (omega arith) (seven-Legible 0 (omega arith))
