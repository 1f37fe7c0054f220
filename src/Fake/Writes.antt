-- ===== src/Fake/Writes.antt =====
-- internal/elitech/logger.go, `Configure`, on the simulated logger of internal/elitech/fake_test.go:
-- the blocks that it reads and writes, and the store that it erases.
use go_elite_log.Base.{
  Bool, true, false, Option, none, some, ℕ, ◌+◌, ◌≡◌, ◌≤◌, refl, ◌∙◌, arith, List, [], ◌∷◌, ◌++◌,
  length, take, All, length-take,
}
use go_elite_log.Base.Step.{>>=-eq}
use go_elite_log.Logger.Transport.{pure, attempt, got, lift, read, now, sleep, close, ◌>>=◌, ◌>>◌}
use go_elite_log.Logger.Exchange.{drain, send, read_report, timeout_command}
use go_elite_log.Logger.Configure.{
  Block, Settings, config_blocks, read_blocks, write_blocks, patch_blocks, copy_at, format,
  hold_after_format, commit, clock_if,
}
use go_elite_log.Base.Result.{ok}
use go_elite_log.Frame.{Frame, decode_frame, encode_frame, op_format}
use go_elite_log.Logger.Panics.Methods.{length-patch_blocks}
use go_elite_log.Fake.{FakeDevice, fake, big_endian32, bytes_of}
use go_elite_log.Fake.Exchange.{Progress, idle, tick, on, drain-idle, send-fake, decode-answer}
use go_elite_log.Fake.Memory.{Plain, with_bytes, set_parameter-fake}
use go_elite_log.Fake.Methods.{Yields, yields, run, Yields-bind, Yields-pure, Yields-get, bytes}

-- What the blocks hold.
abbrev pub blocks_of : FakeDevice → List Block → List (List ℕ)
blocks_of d [] = []
blocks_of d (b ∷ bs) = bytes d b.offset b.size ∷ blocks_of d bs

-- The device with the blocks written over its parameters.
abbrev pub with_blocks : List Block → List (List ℕ) → FakeDevice → FakeDevice
with_blocks [] ps d = d
with_blocks (b ∷ bs) [] d = d
with_blocks (b ∷ bs) (p ∷ ps) d = with_blocks bs ps (with_bytes b.offset (take b.written p) d)

-- A block lies in the parameters and fits in a report.
abbrev pub Fits : Block → Type 0
Fits b = (b.offset + b.size ≤ 0x200) × (b.size ≤ 52) × (b.written ≤ 52)

config_blocks-Fits : All Fits config_blocks
config_blocks-Fits = (
  (omega arith, omega arith, omega arith),
  (
    (omega arith, omega arith, omega arith),
    (
      (omega arith, omega arith, omega arith),
      (
        (omega arith, omega arith, omega arith),
        ((omega arith, omega arith, omega arith), ((omega arith, omega arith, omega arith), tt)),
      ),
    ),
  ),
)

Yields-read_blocks :
    (d : FakeDevice) (plain : Plain d) (p : ℕ) (bs : List Block)
    → All Fits bs
    → Yields d d p p (blocks_of d bs) (read_blocks fake bs)
unfolding read_blocks
Yields-read_blocks d plain p [] h = Yields-pure []
Yields-read_blocks d plain p (b ∷ bs) ((h, k, l), hs) =
    Yields-bind _ (Yields-get d plain b.offset b.size h k)
      (Yields-bind _ (Yields-read_blocks d plain p bs hs) (Yields-pure _))

Yields-write_blocks :
    (d : FakeDevice) (p : ℕ) (bs : List Block) (ps : List (List ℕ))
    → All Fits bs
    → length ps ≡ length bs
    → Yields d (with_blocks bs ps d) p p tt (write_blocks fake bs ps)
unfolding write_blocks
Yields-write_blocks d p [] ps hs e = Yields-pure tt
Yields-write_blocks d p (b ∷ bs) [] hs e = absurd (omega arith)
Yields-write_blocks d p (b ∷ bs) (x ∷ ps) ((h, k, l), hs) e =
    Yields-bind _
      (yields (λ g. (
        _,
        set_parameter-fake d b.offset b.declared (take b.written x) g p (omega arith)
            (omega (arith, length-take b.written x)),
      )))
      (Yields-write_blocks (with_bytes b.offset (take b.written x) d) p bs ps hs (omega arith))

-- The device with its store erased and the connection closed.
abbrev pub erased : FakeDevice → FakeDevice
erased d = record d {
  formats = d.formats + 1;
  records = [];
  mem = copy_at 0x46 (big_endian32 0) d.mem;
  closed = true;
}

pub read_report-head :
    (wait : ℕ) (f : Frame) (r : List ℕ) (rs : List (List ℕ)) (w : FakeDevice) (p : ℕ)
    → w.queue ≡ r ∷ rs
    → decode_frame r ≡ ok f
    → attempt (read_report fake wait) (on w p)
      ≡ (ok (got f), on (record w { queue = rs; clock = w.clock + 1 }) p)
unfolding attempt read_report read lift pure ◌>>=◌
read_report-head wait f r rs w p q d = rw (q, d) refl

abbrev after_format : Progress → Progress
after_format g = record g {
  clock = g.clock + 1 + 1;
  written = g.written ++ (record { op = op_format; offset = 0; n = 1; payload = 0 ∷ [] } ∷ []);
}

close-fake :
    (t : ℕ) (w : FakeDevice) (p : ℕ)
    → (sleep fake t >> close fake) (on w p) ≡ (ok tt, on (record w { closed = true }) p)
unfolding sleep close ◌>>=◌
close-fake t w p = refl

Yields-format : (d : FakeDevice) (p : ℕ) → Yields d (erased d) p p tt (format fake)
unfolding format
Yields-format d p = yields (λ g. (
  after_format g,
  >>=-eq (drain fake) _ (drain-idle d g p)
      ∙ >>=-eq (send fake op_format 0 1 (0 ∷ [])) _ (
          send-fake op_format 0 1 (0 ∷ []) (idle d (tick g)) p (omega arith) (omega arith)
            (omega arith))
      ∙ >>=-eq (attempt (read_report fake timeout_command)) _ (
          read_report-head timeout_command
            (record { op = op_format; offset = 0; n = 1; payload = 1 ∷ [] })
            (bytes_of (encode_frame op_format 0 1 (1 ∷ []))) [] _ p refl
            (decode-answer op_format 0 1 (1 ∷ []) (omega arith) (omega arith) (omega arith)))
      ∙ close-fake hold_after_format _ p,
))

-- `Configure` once the store may be erased: the device that it leaves, where the clock is read
-- exactly if the settings ask for it.
abbrev pub configured : Settings → Option ℕ → FakeDevice → FakeDevice
configured s clock d =
    erased (with_blocks config_blocks (patch_blocks s clock (blocks_of d config_blocks)) d)

Yields-write :
    (d : FakeDevice) (p : ℕ) (s : Settings) (clock : Option ℕ)
    → Yields d (configured s clock d) p p tt (
        write_blocks fake config_blocks (patch_blocks s clock (blocks_of d config_blocks))
        >>= (λ u. format fake))
Yields-write d p s clock =
    Yields-bind _
      (Yields-write_blocks d p config_blocks _ config_blocks-Fits (length-patch_blocks s clock _))
      (Yields-format _ p)

clock_of :
    (b : Bool) (g : Progress) (d : FakeDevice) (p : ℕ)
    → (clock : Option ℕ) × (clock_if fake b (on (idle d g) p) ≡ (ok clock, on (idle d g) p))
unfolding now pure ◌>>=◌
clock_of true g d p = (some g.clock, refl)
clock_of false g d p = (none, refl)

pub commit-fake :
    (d : FakeDevice) (plain : Plain d) (p : ℕ) (s : Settings) (g : Progress)
    → (clock : Option ℕ) × (g' : Progress) × (commit fake s (on (idle d g) p)
        ≡ (ok tt, on (idle (configured s clock d) g') p))
unfolding commit
commit-fake d plain p s g =
    let (g1, e1) = run (Yields-read_blocks d plain p config_blocks config_blocks-Fits) g in
    let (clock, e2) = clock_of s.sync_clock g1 d p in
    let (g2, e3) = run (Yields-write d p s clock) g1 in
    (
      clock,
      g2,
      >>=-eq (read_blocks fake config_blocks) _ e1 ∙ >>=-eq (clock_if fake s.sync_clock) _ e2 ∙ e3,
    )
