-- ===== src/Fake/Methods.antt =====
-- internal/elitech/logger.go on the simulated logger of internal/elitech/fake_test.go: `primeWith`,
-- `readCapacityCount`, `readStatus` and `Info`.
use go_elite_log.Base.{ℕ, ◌+◌, ◌*◌, ◌≡◌, ◌≤◌, ◌<◌, refl, ap, ◌∙◌, arith, some, List, ◌++◌, slice}
use go_elite_log.Base.Result.{ok}
use go_elite_log.Base.Step.{>>=-eq}
use go_elite_log.Frame.{at}
use go_elite_log.Info.{Counts, decode_capacity_count, decode_status, Status}
use go_elite_log.Logger.Transport.{
  Action, got, pure, gets, attempt, outcome, set_protocol, sleep, ◌>>=◌,
}
use go_elite_log.Logger.Exchange.{get_with, get, read_op5, timeout_get}
use go_elite_log.Logger.Identity.{
  Identity, prime_with, prime, count_tries, read_capacity_count, status_blocks, read_status,
  trim_ascii,
}
use go_elite_log.Fake.{FakeDevice, fake}
use go_elite_log.Fake.Exchange.{Progress, idle, on}
use go_elite_log.Fake.Memory.{Plain, get_with-fake, get-fake, read_op5-fake}

-- From the idle device `d` the call returns `a` and leaves the idle device `d'`.
pub data Yields {A : Type 0} (d d' : FakeDevice) (p p' : ℕ) (a : A) (m : Action FakeDevice A)
    : Type 0 where
  yields :
      ((g : Progress) → (g' : Progress) × (m (on (idle d g) p) ≡ (ok a, on (idle d' g') p')))
      → Yields d d' p p' a m

pub run :
    {A : Type 0} {d d' : FakeDevice} {p p' : ℕ} {a : A} {m : Action FakeDevice A}
    → Yields d d' p p' a m
    → (g : Progress) → (g' : Progress) × (m (on (idle d g) p) ≡ (ok a, on (idle d' g') p'))
run (yields h) = h

pub Yields-bind :
    {A B : Type 0} {d d' d'' : FakeDevice} {p p' p'' : ℕ} {a : A} {b : B} {m : Action FakeDevice A}
    (f : A → Action FakeDevice B)
    → Yields d d' p p' a m
    → Yields d' d'' p' p'' b (f a)
    → Yields d d'' p p'' b (m >>= f)
Yields-bind {m = m} f (yields h) (yields k) =
    yields (λ g. let (g', e) = h g in let (g'', q) = k g' in (g'', >>=-eq m f e ∙ q))

pub Yields-pure : {A : Type 0} {d : FakeDevice} {p : ℕ} (a : A) → Yields d d p p a (pure a)
unfolding pure
Yields-pure a = yields (λ g. (g, refl))

pub Yields-attempt :
    {A : Type 0} {d d' : FakeDevice} {p p' : ℕ} {a : A} {m : Action FakeDevice A}
    → Yields d d' p p' a m
    → Yields d d' p p' (got a) (attempt m)
unfolding attempt
Yields-attempt {m = m} (yields h) =
    yields (λ g. let (g', e) = h g in (g', ap (λ r. (outcome r.0, r.1)) e))

pub Yields-set_protocol : {d : FakeDevice} {p : ℕ} (p' : ℕ) → Yields d d p p' tt (set_protocol p')
unfolding set_protocol
Yields-set_protocol p' = yields (λ g. (g, refl))

pub Yields-protocol : {d : FakeDevice} {p : ℕ} → Yields d d p p p (gets (λ s. s.protocol))
unfolding gets
Yields-protocol = yields (λ g. (g, refl))

pub Yields-sleep : {d : FakeDevice} {p : ℕ} (t : ℕ) → Yields d d p p tt (sleep fake t)
unfolding sleep
Yields-sleep t = yields (λ g. (g, refl))

-- The parameters and the states that a request reads.
abbrev pub bytes : FakeDevice → ℕ → ℕ → List ℕ
bytes d offset n = slice offset (offset + n) d.mem

abbrev pub state_bytes : FakeDevice → ℕ → ℕ → List ℕ
state_bytes d offset n = slice offset (offset + n) d.stat

abbrev pub protocol_of : FakeDevice → ℕ
protocol_of d = at (bytes d 0x94 2) 1

abbrev pub identity_of : FakeDevice → Identity
identity_of d = record {
  model = at (bytes d 0x00 14) 0 * 256 + at (bytes d 0x00 14) 1;
  serial = trim_ascii (slice 2 14 (bytes d 0x00 14));
  protocol = protocol_of d;
}

abbrev pub status_of : FakeDevice → Status
status_of d =
    decode_status (state_bytes d 0x00 0x20) (state_bytes d 0x80 0x30 ++ state_bytes d 0xB0 0x10)

module _ (d : FakeDevice) (plain : Plain d) where
  Yields-get_with :
      {p : ℕ} (offset n wait : ℕ)
      → offset + n ≤ 0x200
      → n ≤ 52
      → 0 < wait
      → Yields d d p p (bytes d offset n) (get_with fake offset n wait)
  Yields-get_with {p} offset n wait h k w =
      yields (λ g. (_, get_with-fake d offset n wait g p plain h k w))

  pub Yields-get :
      {p : ℕ} (offset n : ℕ)
      → offset + n ≤ 0x200
      → n ≤ 52
      → Yields d d p p (bytes d offset n) (get fake offset n)
  Yields-get {p} offset n h k = yields (λ g. (_, get-fake d offset n g p plain h k))

  Yields-read_op5 :
      {p : ℕ} (offset n : ℕ)
      → offset + n ≤ 0x200
      → n ≤ 52
      → Yields d d p p (state_bytes d offset n) (read_op5 fake offset n)
  Yields-read_op5 {p} offset n h k = yields (λ g. (_, read_op5-fake d offset n g p plain h k))

  pub Yields-prime_with :
      {p : ℕ} (wait : ℕ)
      → 0 < wait
      → Yields d d p (protocol_of d) (identity_of d) (prime_with fake wait)
  unfolding prime_with
  Yields-prime_with wait w =
      Yields-bind _ (Yields-get_with 0x00 14 wait (omega arith) (omega arith) w) (
        Yields-bind _ (Yields-get_with 0x94 2 wait (omega arith) (omega arith) w)
          (Yields-bind _ (Yields-set_protocol (protocol_of d)) (Yields-pure (identity_of d))))

  pub Yields-prime : {p : ℕ} → Yields d d p (protocol_of d) (identity_of d) (prime fake)
  unfolding prime
  Yields-prime = Yields-prime_with timeout_get (omega arith)

  pub Yields-read_capacity_count :
      {p : ℕ} (c : Counts)
      → decode_capacity_count (bytes d 0x42 10) p ≡ some c
      → Yields d d p p (some c) (read_capacity_count fake)
  unfolding read_capacity_count count_tries
  Yields-read_capacity_count {p} c e = Yields-bind _ (Yields-pure tt) (
      Yields-bind _ (Yields-attempt (Yields-get 0x42 10 (omega arith) (omega arith)))
        (Yields-bind _ Yields-protocol (rw e (Yields-pure (some c)))))

  Yields-status_blocks : {p : ℕ} → Yields d d p p (status_of d) (status_blocks fake)
  unfolding status_blocks
  Yields-status_blocks = Yields-bind _ (Yields-read_op5 0x00 0x20 (omega arith) (omega arith)) (
      Yields-bind _ (Yields-read_op5 0x80 0x30 (omega arith) (omega arith)) (
        Yields-bind _ (Yields-read_op5 0xB0 0x10 (omega arith) (omega arith))
          (Yields-pure (status_of d))))

  pub Yields-read_status : {p : ℕ} → Yields d d p p (status_of d) (read_status fake)
  unfolding read_status
  Yields-read_status =
      Yields-bind _ (Yields-attempt Yields-status_blocks) (Yields-pure (status_of d))
