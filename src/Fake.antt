-- ===== src/Fake.antt =====
-- internal/elitech/fake_test.go: the simulated logger, as a transport. A slice of its memories stops
-- at their ends, where Go panics; the clock, which is the host's in the tests, moves by a nanosecond
-- with each read.
pub mod Exchange
pub mod Memory
pub mod Methods
pub mod Packets
pub mod Slots
pub mod Download
pub mod Stored
pub mod Inspect
pub mod Writes
pub mod Settled
pub mod Patched
pub mod Configured
pub mod Service
pub mod Stopped
pub mod Preamble
use go_elite_log.Base.{
  ℕ, zero, suc, ◌+◌, ◌-◌, ◌*◌, ◌/◌, ◌%◌, Bool, true, false, not, ◌&&◌, ◌||◌, Option, none, some,
  option_or, List, [], ◌∷◌, ◌++◌, length, slice, take, replicate, get_or, ltb, leb, ◌==◌,
  if◌then◌else◌,
}
use go_elite_log.Base.Result.{Result, ok, err, panicked, stuck, Error}
use go_elite_log.Frame.{
  Frame, encode_frame, decode_frame, op_get_record, op_get_parameter, op_set_parameter, op_read05,
  op_format, op_stop,
}
use go_elite_log.Record.{records_per_packet, record_size}
use go_elite_log.Logger.Transport.{Transport, World, Reading, report, deadline_exceeded}
use go_elite_log.Logger.Configure.{copy_at}

-- `type fakeDevice struct`; `records_th` is none where the slice is nil.
pub record FakeDevice : Type 0 where
  pub mem : List ℕ
  pub stat : List ℕ
  pub records : List (List ℕ)
  pub records_th : Option (List (List ℕ))
  pub queue : List (List ℕ)
  pub written : List Frame
  pub formats : ℕ
  pub stops : ℕ
  pub silent_stop : Bool
  pub needs_preamble : Bool
  pub preamble_seen : Bool
  pub closed : Bool
  pub protocol : ℕ
  pub capacity_reads : ℕ
  pub capacity_ff_until : ℕ
  pub wide_reads : Bool
  pub clock : ℕ

-- `isFFs`
abbrev pub ffs : ℕ → List ℕ
ffs n = replicate n 0xFF

abbrev pub big_endian16 : ℕ → List ℕ
big_endian16 n = n / 256 % 256 ∷ n % 256 ∷ []

abbrev pub big_endian32 : ℕ → List ℕ
big_endian32 n = n / 16777216 % 256 ∷ n / 65536 % 256 ∷ n / 256 % 256 ∷ n % 256 ∷ []

-- `newFakeDevice`
unfoldable pub new_memory : List ℕ
unfolding copy_at
new_memory = copy_at 0x27 (0x0A ∷ []) (
    copy_at 0x88 (26 ∷ 9 ∷ 3 ∷ 23 ∷ 14 ∷ 5 ∷ 30 ∷ []) (
      copy_at 0x4C (big_endian16 60) (
        copy_at 0x42 (big_endian32 32000) (
          copy_at 0x38 (ffs 7) (
            copy_at 0x30 (26 ∷ 9 ∷ 3 ∷ 23 ∷ 9 ∷ 5 ∷ 0 ∷ []) (
              copy_at 0x28 (26 ∷ 9 ∷ 3 ∷ 23 ∷ 9 ∷ 0 ∷ 0 ∷ []) (
                copy_at 0x20 (0x19 ∷ []) (
                  copy_at 0x95 (0x35 ∷ []) (
                    copy_at 0x02
                      (b'R' ∷ b'C' ∷ b'5' ∷ b'A' ∷ b'1' ∷ b'2' ∷ b'3' ∷ b'4' ∷ b'5' ∷ b'6' ∷ b'7'
                        ∷ [])
                      (copy_at 0x00 (big_endian16 0x2005) (replicate 0x200 0)))))))))))

unfoldable pub new_fake_device : FakeDevice
unfolding new_memory
new_fake_device = record {
  mem = new_memory;
  stat = replicate 0x200 0;
  records = [];
  records_th = none;
  queue = [];
  written = [];
  formats = 0;
  stops = 0;
  silent_stop = false;
  needs_preamble = false;
  preamble_seen = false;
  closed = false;
  protocol = 0x35;
  capacity_reads = 0;
  capacity_ff_until = 0;
  wide_reads = false;
  clock = 0;
}

-- The four-byte records that `addRecordsTH` adds, from number `i` on.
unfoldable pub th_records : ℕ → ℕ → List (List ℕ)
th_records zero i = []
th_records (suc n) i = (0x01 ∷ (0x15 + i) % 256 ∷ 0x02 ∷ 0xA9 ∷ []) ∷ th_records n (i + 1)

-- `addRecordsTH`
unfoldable pub add_records_th : ℕ → FakeDevice → FakeDevice
unfolding th_records copy_at
add_records_th n d = record d {
  records_th = some (option_or [] (λ rs. rs) d.records_th ++ th_records n 0);
  mem = copy_at 0x46 (big_endian32 n) d.mem;
  stat =
      copy_at 0x8A (n % 256 ∷ n / 256 % 256 ∷ [])
        (copy_at 8 (26 ∷ 9 ∷ 0 ∷ 23 ∷ 14 ∷ 58 ∷ 34 ∷ []) (copy_at 0 (1 ∷ []) d.stat));
}

-- The records that `addRecords` adds, after `baseRecord` of record_test.go.
unfoldable pub base_records : ℕ → ℕ → List (List ℕ)
base_records zero i = []
base_records (suc n) i =
    (0xC0 ∷ 0x78 ∷ 0x9A ∷ 0xBC ∷ 0x2E ∷ (0x1B + i) % 256 ∷ i % 60 ∷ 0x00 ∷ [])
    ∷ base_records n (i + 1)

-- `addRecords`
unfoldable pub add_records : ℕ → FakeDevice → FakeDevice
unfolding base_records copy_at
add_records n d =
    let rs = d.records ++ base_records n 0 in
    record d { records = rs; mem = copy_at 0x46 (big_endian32 (length rs)) d.mem }

-- `Read`
abbrev pub next : List (List ℕ) → FakeDevice → Reading × FakeDevice
next [] d = (deadline_exceeded, record d { clock = d.clock + 1 })
next (r ∷ rs) d = (report r, record d { queue = rs; clock = d.clock + 1 })

-- What `encodeFrame` returns, where it does not panic.
abbrev pub bytes_of : Result (List ℕ) → List ℕ
bytes_of (ok b) = b
bytes_of (err e) = []
bytes_of panicked = []
bytes_of stuck = []

abbrev pub answer : ℕ → ℕ → ℕ → List ℕ → FakeDevice → FakeDevice
answer o offset n payload d = record d {
  queue = d.queue ++ (bytes_of (encode_frame o offset n payload) ∷ []);
}

-- The bytes of the record number `idx`, or of an empty slot.
abbrev pub slot : FakeDevice → ℕ → List ℕ
slot d idx =
    option_or (get_or d.records idx (ffs record_size)) (λ rs. get_or rs idx (ffs 4)) d.records_th

-- The loop over the slots of a packet.
unfoldable pub slots_from : FakeDevice → ℕ → ℕ → List ℕ
slots_from d zero idx = []
slots_from d (suc n) idx = slot d idx ++ slots_from d n (idx + 1)

abbrev pub on_read05 : Frame → FakeDevice → FakeDevice
on_read05 f d =
    answer op_read05 f.offset f.n (slice f.offset (f.offset + f.n) d.stat)
      (record d { preamble_seen = (f.offset == 0x140) || d.preamble_seen })

abbrev pub on_plain_get : Frame → FakeDevice → FakeDevice
on_plain_get f d =
    if d.wide_reads && leb 4 f.offset
    then answer op_get_parameter (f.offset - 4) ((f.n + 4) % 256)
        (slice (f.offset - 4) (f.offset + f.n) d.mem) d
    else answer op_get_parameter f.offset f.n (slice f.offset (f.offset + f.n) d.mem) d

abbrev pub on_get : Frame → FakeDevice → FakeDevice
on_get f d =
    if f.offset == 0x42
    then (if leb (d.capacity_reads + 1) d.capacity_ff_until
        then answer op_get_parameter f.offset f.n (ffs f.n)
            (record d { capacity_reads = d.capacity_reads + 1 })
        else on_plain_get f (record d { capacity_reads = d.capacity_reads + 1 }))
    else on_plain_get f d

abbrev pub on_set : Frame → FakeDevice → FakeDevice
on_set f d =
    answer op_set_parameter f.offset 1 (1 ∷ [])
      (record d { mem = copy_at f.offset f.payload d.mem })

abbrev pub on_get_record : Frame → FakeDevice → FakeDevice
on_get_record f d =
    if d.needs_preamble && not d.preamble_seen
    then d
    else answer op_get_record f.offset records_per_packet (slots_from d records_per_packet f.offset)
        (answer op_get_record 0 0 [] d)

abbrev pub on_stop : FakeDevice → FakeDevice
on_stop d =
    if d.silent_stop
    then record d { stops = d.stops + 1 }
    else answer op_stop 0 1 (1 ∷ []) (record d { stops = d.stops + 1 })

abbrev pub on_format : FakeDevice → FakeDevice
on_format d =
    answer op_format 0 1 (1 ∷ []) (record d {
      formats = d.formats + 1;
      records = [];
      mem = copy_at 0x46 (big_endian32 0) d.mem;
    })

-- The switch of `Write`.
abbrev pub serve : Frame → FakeDevice → FakeDevice
serve f d =
    if f.op == op_read05
    then on_read05 f d
    else if f.op == op_get_parameter
    then on_get f d
    else if f.op == op_set_parameter
    then on_set f d
    else if f.op == op_get_record
    then on_get_record f d
    else if f.op == op_stop
    then on_stop d
    else if f.op == op_format
    then on_format d
    else d

abbrev pub receive : Result Frame → FakeDevice → Option Error × FakeDevice
receive (ok f) d = (none, serve f (record d { written = d.written ++ (f ∷ []) }))
receive (err e) d = (some e, d)
receive panicked d = (none, d)
receive stuck d = (none, d)

abbrev pub fake : Transport
fake = record {
  World = FakeDevice;
  write = λ b d. receive (decode_frame b) d;
  read = λ wait d. next d.queue d;
  now = λ d. (d.clock, d);
  sleep = λ t d. d;
  close = λ d. (none, record d { closed = true });
}
