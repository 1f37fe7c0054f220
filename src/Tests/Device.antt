-- ===== src/Tests/Device.antt =====
-- A small logger behind the transport, like the one of internal/elitech/fake_test.go: it answers each request
-- from its two memories and its records, and a read takes the time that it waits.
use go_elite_log.Base.{
  ℕ, ◌+◌, ◌*◌, ◌≡◌, refl, none, List, [], ◌∷◌, ◌++◌, slice, replicate, ◌==◌, if◌then◌else◌, arith,
  ◌<◌,
}
use go_elite_log.Base.Result.{Result, ok, err, panicked, stuck}
use go_elite_log.Frame.{Frame, encode_frame, decode_frame}
use go_elite_log.Logger.Transport.{Transport, World, Reading, report, deadline_exceeded, Session}
use go_elite_log.Logger.Configure.{copy_at}
use go_elite_log.Logger.Logic.Ending.{Ticking}

pub record Device : Type 0 where
  pub clock : ℕ
  pub replies : List (List ℕ)
  pub parameters : List ℕ
  pub states : List ℕ
  pub store : List ℕ

abbrev answer : ℕ → ℕ → ℕ → List ℕ → List (List ℕ)
answer o offset n payload = elim (encode_frame o offset n payload) [ ok b ↦ b ∷ [] | _ ↦ [] ]

unfoldable pub serve : Frame → Device → Device
unfolding encode_frame copy_at
serve f d =
    if f.op == 3
    then record d {
      replies = d.replies ++ answer 3 f.offset f.n (slice f.offset (f.offset + f.n) d.parameters);
    }
    else if f.op == 4
    then record d {
      replies = d.replies ++ answer 4 f.offset 1 (1 ∷ []);
      parameters = copy_at f.offset f.payload d.parameters;
    }
    else if f.op == 5
    then record d {
      replies = d.replies ++ answer 5 f.offset f.n (slice f.offset (f.offset + f.n) d.states);
    }
    else if f.op == 1
    then record d {
      replies =
          d.replies ++ answer 1 f.offset f.n (slice (f.offset * 4) (f.offset * 4 + 24) d.store);
    }
    else record d { replies = d.replies ++ answer f.op 0 1 (1 ∷ []) }

abbrev serve_if : Result Frame → Device → Device
serve_if (ok f) d = serve f d
serve_if (err e) d = d
serve_if panicked d = d
serve_if stuck d = d

unfoldable pub receive : List ℕ → Device → Device
unfolding decode_frame
receive b d = serve_if (decode_frame b) d

abbrev next : List (List ℕ) → ℕ → Device → Reading × Device
next [] wait d = (deadline_exceeded, record d { clock = d.clock + 1 + wait })
next (b ∷ bs) wait d = (report b, record d { clock = d.clock + 1; replies = bs })

unfoldable pub logger : Transport
unfolding receive
logger = record {
  World = Device;
  write = λ b d. (none, receive b d);
  read = λ wait d. next d.replies wait d;
  now = λ d. (d.clock, d);
  sleep = λ t d. record d { clock = d.clock + t };
  close = λ d. (none, d);
}

-- A protocol 0x35 logger with a capacity of 16 and two records, which records every ten minutes.
abbrev pub some_parameters : List ℕ
some_parameters = copy_at 0x4C (0x00 ∷ 0x3C ∷ []) (
    copy_at 0x94 (0x00 ∷ 0x35 ∷ []) (
      copy_at 0x42 (0 ∷ 0 ∷ 0 ∷ 16 ∷ 0 ∷ 0 ∷ 0 ∷ 2 ∷ 0 ∷ 0 ∷ [])
        (copy_at 0 (0x05 ∷ 0x10 ∷ b'E' ∷ b'F' ∷ 0 ∷ []) (replicate 301 0))))

-- Temperature and humidity in tenths: 21.7 and 55.0, then -0.5 and 55.0.
abbrev pub first_record : List ℕ
first_record = 0x00 ∷ 0xD9 ∷ 0x02 ∷ 0x26 ∷ []

abbrev pub second_record : List ℕ
second_record = 0x10 ∷ 0x05 ∷ 0x02 ∷ 0x26 ∷ []

abbrev pub recording : Device
recording = record {
  clock = 0;
  replies = [];
  parameters = some_parameters;
  states = replicate 400 0;
  store = first_record ++ (second_record ++ replicate 56 0xFF);
}

serve-clock : (f : Frame) (d : Device) → (serve f d).clock ≡ d.clock
unfolding serve
serve-clock f d = ground arith

serve_if-clock : (r : Result Frame) (d : Device) → (serve_if r d).clock ≡ d.clock
serve_if-clock (ok f) d = serve-clock f d
serve_if-clock (err e) d = refl
serve_if-clock panicked d = refl
serve_if-clock stuck d = refl

receive-clock : (b : List ℕ) (d : Device) → (receive b d).clock ≡ d.clock
unfolding receive
receive-clock b d = serve_if-clock (decode_frame b) d

next_later : (bs : List (List ℕ)) (wait : ℕ) (d : Device) → d.clock < (next bs wait d).1.clock
next_later [] wait d = omega arith
next_later (b ∷ bs) wait d = omega arith

unfoldable pub time_of : World logger → ℕ
unfolding logger
time_of d = d.clock

pub ticking : Ticking logger time_of
unfolding logger time_of
ticking = record {
  shown = λ d. refl;
  timing = λ d. omega arith;
  reading = λ wait d. next_later d.replies wait d;
  writing = λ b d. omega (arith, receive-clock b d);
  sleeping = λ t d. omega arith;
  closing = λ d. omega arith;
}

unfoldable pub session : Session (World logger)
unfolding logger
session = record { world = recording; protocol = 0 }
