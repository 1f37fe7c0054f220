-- ===== src/Fake/Inspect.antt =====
-- internal/elitech/logger.go, `Info`, on the simulated logger of internal/elitech/fake_test.go.
use go_elite_log.Base.{ℕ, ◌≡◌, arith, true, some, if◌then◌else◌, slice}
use go_elite_log.Calendar.{is_zero}
use go_elite_log.Frame.{at}
use go_elite_log.Info.{Counts, decode_capacity_count, decode_interval, decode_start_byte}
use go_elite_log.Logger.Identity.{
  DeviceInfo, info, date_time_of, fahrenheit_of, battery_of, or_no_interval,
}
use go_elite_log.Fake.{FakeDevice, fake}
use go_elite_log.Fake.Memory.{Plain}
use go_elite_log.Fake.Methods.{
  Yields, Yields-bind, Yields-pure, Yields-attempt, Yields-get, Yields-prime,
  Yields-read_capacity_count, Yields-read_status, bytes, protocol_of, identity_of, status_of,
}

-- What the memories hold, with the capacity and the count that are decoded from them.
abbrev pub info_of : FakeDevice → Counts → DeviceInfo
info_of d c = record {
  identity = identity_of d;
  capacity = c.capacity;
  record_count = c.count;
  count_known = true;
  interval = or_no_interval (decode_interval (bytes d 0x4C 2));
  start = decode_start_byte (at (bytes d 0x20 1) 0);
  recording = (status_of d).recording;
  status = status_of d;
  fahrenheit = fahrenheit_of (bytes d 0x21 1);
  battery = battery_of (bytes d 0x26 2);
  configured_at = date_time_of (bytes d 0x28 7);
  started_at =
      if is_zero (status_of d).started_at
      then date_time_of (slice 0 7 (bytes d 0x30 15))
      else (status_of d).started_at;
  stopped_at = date_time_of (slice 8 15 (bytes d 0x30 15));
  device_time = date_time_of (bytes d 0x88 7);
}

module _ (d : FakeDevice) (plain : Plain d) where
  pub Yields-info :
      (p : ℕ) (c : Counts)
      → decode_capacity_count (bytes d 0x42 10) (protocol_of d) ≡ some c
      → Yields d d p (protocol_of d) (info_of d c) (info fake)
  unfolding info
  Yields-info p c e = Yields-bind _ (Yields-prime d plain) (
      Yields-bind _ (Yields-read_capacity_count d plain c e) (
        Yields-bind _ (Yields-attempt (Yields-get d plain 0x4C 2 (omega arith) (omega arith))) (
          Yields-bind _ (Yields-attempt (Yields-get d plain 0x20 1 (omega arith) (omega arith))) (
            Yields-bind _ (Yields-attempt (Yields-get d plain 0x21 1 (omega arith) (omega arith))) (
              Yields-bind _ (Yields-attempt (Yields-get d plain 0x26 2 (omega arith) (omega arith)))
                (Yields-bind _
                  (Yields-attempt (Yields-get d plain 0x28 7 (omega arith) (omega arith)))
                  (Yields-bind _
                    (Yields-attempt (Yields-get d plain 0x30 15 (omega arith) (omega arith)))
                    (Yields-bind _
                      (Yields-attempt (Yields-get d plain 0x88 7 (omega arith) (omega arith)))
                      (Yields-bind _ (Yields-read_status d plain) (Yields-pure _))))))))))
