-- ===== src/Fake/Exchange.antt =====
-- internal/elitech/fake_test.go: one request to the simulated logger and its reply.
use go_elite_log.Base.{
  ℕ, suc, ◌+◌, ◌^◌, ◌≡◌, ◌≤◌, ◌<◌, refl, ap, ◌∙◌, arith, Bool, List, [], ◌∷◌, ◌++◌, length, lt→ltb,
  ==_iff,
}
use go_elite_log.Base.Result.{ok}
use go_elite_log.Base.Step.{>>=-eq}
use go_elite_log.Frame.{Frame, encode_frame, decode_frame}
use go_elite_log.Frame.RoundTrip.{encode_frame-eq, decode-report}
use go_elite_log.Logger.Transport.{Session, Action, pure, lift, require, ◌>>=◌, write, read, now}
use go_elite_log.Logger.Exchange.{drain_loop, drain, read_report, send, await_loop, await_reply}
use go_elite_log.Fake.{FakeDevice, fake, serve, answer, bytes_of}

-- What requests that are answered change in an idle device beside its memories.
pub record Progress : Type 0 where
  pub clock : ℕ
  pub written : List Frame
  pub reads : ℕ
  pub seen : Bool

-- The device `d` with no report waiting.
abbrev pub idle : FakeDevice → Progress → FakeDevice
idle d g = record d {
  queue = [];
  clock = g.clock;
  written = g.written;
  capacity_reads = g.reads;
  preamble_seen = g.seen;
}

abbrev pub tick : Progress → Progress
tick g = record g { clock = g.clock + 1 }

abbrev pub on : FakeDevice → ℕ → Session FakeDevice
on w p = record { world = w; protocol = p }

pub drain-idle :
    (d : FakeDevice) (g : Progress) (p : ℕ)
    → drain fake (on (idle d g) p) ≡ (ok tt, on (idle d (tick g)) p)
unfolding drain drain_loop read pure ◌>>=◌
drain-idle d g p = refl

pub send-fake :
    (o offset n : ℕ) (payload : List ℕ) (w : FakeDevice) (p : ℕ)
    → o < 65536
    → offset < 2 ^ 24
    → length payload ≤ 52
    → send fake o offset n payload (on w p) ≡ (
      ok tt,
      on
          (serve
            (record { op = o; offset = offset; n = n; payload = payload })
            (record w {
              written =
                  w.written ++ (record { op = o; offset = offset; n = n; payload = payload } ∷ []);
            }))
          p,
    )
unfolding send lift write ◌>>=◌
send-fake o offset n payload w p ho hf hl =
    rw (encode_frame-eq o offset n payload hl, decode-report o offset n payload hl ho hf) refl

pub await-head :
    (want wait : ℕ) (f : Frame) (r : List ℕ) (rs : List (List ℕ)) (w : FakeDevice) (p : ℕ)
    → 0 < wait
    → w.queue ≡ r ∷ rs
    → decode_frame r ≡ ok f
    → f.op ≡ want
    → await_reply fake want wait (on w p)
      ≡ (ok f, on (record w { queue = rs; clock = w.clock + 1 }) p)
unfolding await_reply await_loop read_report require now read lift pure ◌>>=◌
await-head want wait f r rs w p h q d e =
    let n : wait + 1 ≡ suc wait = omega arith in
    rw (n, lt→ltb w.clock (w.clock + wait) (omega arith), q, d, (==_iff f.op want).1 e) refl

pub decode-answer :
    (o offset n : ℕ) (payload : List ℕ)
    → o < 65536
    → offset < 2 ^ 24
    → length payload ≤ 52
    → decode_frame (bytes_of (encode_frame o offset n payload))
      ≡ ok (record { op = o; offset = offset; n = n; payload = payload })
decode-answer o offset n payload ho hf hl =
    rw (encode_frame-eq o offset n payload hl) (decode-report o offset n payload hl ho hf)

-- A request to an idle device `d` that it answers with a frame as the device `d'`.
pub request :
    {A : Type 0} (o offset n : ℕ) (payload : List ℕ) (wait : ℕ) (d d' : FakeDevice)
    (g g' : Progress) (p : ℕ) (f : Frame) (k : Frame → Action FakeDevice A)
    → o < 65536
    → offset < 2 ^ 24
    → length payload ≤ 52
    → 0 < wait
    → f.offset < 2 ^ 24
    → length f.payload ≤ 52
    → f.op ≡ o
    → serve
        (record { op = o; offset = offset; n = n; payload = payload })
        (idle d (record (tick g) {
          written =
              g.written ++ (record { op = o; offset = offset; n = n; payload = payload } ∷ []);
        }))
      ≡ answer f.op f.offset f.n f.payload (idle d' g')
    → (drain fake >>= (λ u. send fake o offset n payload >>= (λ v. await_reply fake o wait >>= k)))
        (on (idle d g) p)
      ≡ k f (on (idle d' (tick g')) p)
request o offset n payload wait d d' g g' p f k ho hf hl hw ff fl fo served =
    >>=-eq (drain fake) _ (drain-idle d g p)
    ∙ >>=-eq (send fake o offset n payload) _ (
        send-fake o offset n payload (idle d (tick g)) p ho hf hl
        ∙ ap (λ w. (ok tt, on w p)) served)
    ∙ >>=-eq (await_reply fake o wait) k (
        await-head o wait f (bytes_of (encode_frame f.op f.offset f.n f.payload)) []
          (answer f.op f.offset f.n f.payload (idle d' g')) p hw refl
          (decode-answer f.op f.offset f.n f.payload (rw fo ho) ff fl) fo)
