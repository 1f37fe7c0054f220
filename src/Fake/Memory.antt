-- ===== src/Fake/Memory.antt =====
-- internal/elitech/fake_test.go: parameter and status requests to the simulated logger.
use go_elite_log.Base.{
  ℕ, zero, suc, ◌+◌, ◌-◌, ◌^◌, ◌≡◌, ◌≤◌, ◌<◌, inl, inr, refl, ap, ◌∙◌, arith, false, ◌||◌,
  Bool-cases, List, [], ◌∷◌, ◌++◌, length, slice, take, ltb, leb, ◌==◌, ◌!=◌, if◌then◌else◌,
  length-slice,
}
use go_elite_log.Base.Result.{ok, bad_frame}
use go_elite_log.Frame.{Frame, op_get_parameter, op_set_parameter, op_read05}
use go_elite_log.Logger.Transport.{Session, pure, raise, lift}
use go_elite_log.Logger.Exchange.{
  window, get_with, get, set_reply, set_parameter, read_op5, timeout_get, timeout_set,
}
use go_elite_log.Logger.Configure.{copy_at}
use go_elite_log.Fake.{FakeDevice, fake, serve, answer}
use go_elite_log.Fake.Exchange.{Progress, idle, tick, on, request}

-- A device that answers every request at once and in full.
pub record Plain (d : FakeDevice) : Type 0 where
  pub narrow : d.wide_reads ≡ false
  pub counted : d.capacity_ff_until ≡ 0
  pub ready : d.needs_preamble ≡ false
  pub memory : length d.mem ≡ 0x200
  pub states : length d.stat ≡ 0x200

-- A request of `n` bytes at `offset`.
abbrev pub asked : ℕ → ℕ → ℕ → List ℕ → Frame
asked o offset n payload = record { op = o; offset = offset; n = n; payload = payload }

abbrev pub after_get : ℕ → ℕ → Progress → Progress
after_get offset n g = tick (record (tick g) {
  written = g.written ++ (asked op_get_parameter offset n [] ∷ []);
  reads = if offset == 0x42 then g.reads + 1 else g.reads;
})

take-all : (n : ℕ) (xs : List ℕ) → length xs ≡ n → take n xs ≡ xs
take-all zero [] h = refl
take-all zero (x ∷ xs) h = absurd (omega arith)
take-all (suc n) [] h = refl
take-all (suc n) (x ∷ xs) h = ap (λ ys. x ∷ ys) (take-all n xs (omega arith))

-- The reply is the range that was asked for.
window-whole :
    (offset n : ℕ) (payload : List ℕ)
    → length payload ≡ n
    → window fake offset n (asked op_get_parameter offset n payload) ≡ ok payload
window-whole offset n payload h =
    let a : offset - offset ≡ 0 = omega arith in
    let b : 0 + n - 0 ≡ n = omega arith in
    let c : (ltb offset offset || ltb (length payload) (0 + n)) ≡ false = ground arith in
    rw (a, c, b, take-all n payload h) refl

none_left : (r : ℕ) → leb (r + 1) 0 ≡ false
none_left r = ground arith

pub served_get :
    (d : FakeDevice) (offset n : ℕ) (g : Progress)
    → d.wide_reads ≡ false
    → d.capacity_ff_until ≡ 0
    → serve
        (asked op_get_parameter offset n [])
        (idle d (record g { written = g.written ++ (asked op_get_parameter offset n [] ∷ []) }))
      ≡ answer op_get_parameter offset n (slice offset (offset + n) d.mem) (
          idle d (record g {
            written = g.written ++ (asked op_get_parameter offset n [] ∷ []);
            reads = if offset == 0x42 then g.reads + 1 else g.reads;
          }))
served_get d offset n g narrow counted = elim (Bool-cases (offset == 0x42)) [
  | inl e ↦ rw (e, counted, narrow, none_left g.reads) refl
  | inr e ↦ rw (e, narrow) refl
]

pub get_with-fake :
    (d : FakeDevice) (offset n wait : ℕ) (g : Progress) (p : ℕ)
    → Plain d
    → offset + n ≤ 0x200
    → n ≤ 52
    → 0 < wait
    → get_with fake offset n wait (on (idle d g) p)
      ≡ (ok (slice offset (offset + n) d.mem), on (idle d (after_get offset n g)) p)
unfolding get_with lift
get_with-fake d offset n wait g p pl h hn hw =
    let len : length (slice offset (offset + n) d.mem) ≡ n =
      omega (arith, length-slice offset (offset + n) d.mem (omega arith) (rw pl.memory h)) in
    request op_get_parameter offset n [] wait d d g _ p
      (asked op_get_parameter offset n (slice offset (offset + n) d.mem))
      (λ f. lift (window fake offset n f)) (omega arith) (omega arith) (omega arith) hw
      (omega arith) (omega arith) refl (served_get d offset n (tick g) pl.narrow pl.counted)
    ∙ ap (λ r. (r, on (idle d (after_get offset n g)) p)) (window-whole offset n _ len)

pub get-fake :
    (d : FakeDevice) (offset n : ℕ) (g : Progress) (p : ℕ)
    → Plain d
    → offset + n ≤ 0x200
    → n ≤ 52
    → get fake offset n (on (idle d g) p)
      ≡ (ok (slice offset (offset + n) d.mem), on (idle d (after_get offset n g)) p)
unfolding get
get-fake d offset n g p pl h hn = get_with-fake d offset n timeout_get g p pl h hn (omega arith)

abbrev pub after_read05 : ℕ → ℕ → Progress → Progress
after_read05 offset n g = tick (record (tick g) {
  written = g.written ++ (asked op_read05 offset n [] ∷ []);
  seen = (offset == 0x140) || g.seen;
})

pub read_op5-fake :
    (d : FakeDevice) (offset n : ℕ) (g : Progress) (p : ℕ)
    → Plain d
    → offset + n ≤ 0x200
    → n ≤ 52
    → read_op5 fake offset n (on (idle d g) p)
      ≡ (ok (slice offset (offset + n) d.stat), on (idle d (after_read05 offset n g)) p)
unfolding read_op5
read_op5-fake d offset n g p pl h hn =
    let bytes : List ℕ = slice offset (offset + n) d.stat in
    let len : length bytes ≡ n =
      omega (arith, length-slice offset (offset + n) d.stat (omega arith) (rw pl.states h)) in
    request op_read05 offset n [] timeout_get d d g _ p (asked op_read05 offset n bytes)
      (λ f.
        if f.offset != offset || ltb (length f.payload) n
        then raise bad_frame
        else pure (take n f.payload))
      (omega arith) (omega arith) (omega arith) (omega arith) (omega arith) (omega arith) refl refl
    ∙ in_full offset n bytes len
  where
    in_full :
        (offset n : ℕ) (bytes : List ℕ)
        → length bytes ≡ n
        → {s : Session FakeDevice}
        → (if offset != offset || ltb (length bytes) n
              then raise bad_frame
              else pure (take n bytes))
            s
          ≡ (ok bytes, s)
    in_full offset n bytes len =
        let c : (offset != offset || ltb (length bytes) n) ≡ false = ground arith in
        rw (c, take-all n bytes len) (unfold pure in refl)

abbrev pub after_set : ℕ → ℕ → List ℕ → Progress → Progress
after_set offset declared payload g = tick (record (tick g) {
  written = g.written ++ (asked op_set_parameter offset declared payload ∷ []);
})

-- The device with `payload` written over its parameters.
abbrev pub with_bytes : ℕ → List ℕ → FakeDevice → FakeDevice
with_bytes offset payload d = record d { mem = copy_at offset payload d.mem }

pub set_parameter-fake :
    (d : FakeDevice) (offset declared : ℕ) (payload : List ℕ) (g : Progress) (p : ℕ)
    → offset < 2 ^ 24
    → length payload ≤ 52
    → set_parameter fake offset declared payload (on (idle d g) p)
      ≡ (ok tt, on (idle (with_bytes offset payload d) (after_set offset declared payload g)) p)
unfolding set_parameter lift
set_parameter-fake d offset declared payload g p h hl =
    request op_set_parameter offset declared payload timeout_set d (with_bytes offset payload d) g _
      p (asked op_set_parameter offset 1 (1 ∷ [])) (λ f. lift (set_reply fake offset f))
      (omega arith) h hl (omega arith) h (omega arith) refl refl
    ∙ ap (λ r. (r, on (idle (with_bytes offset payload d) (after_set offset declared payload g)) p))
        (accepted offset)
  where
    accepted : (o : ℕ) → set_reply fake o (asked op_set_parameter o 1 (1 ∷ [])) ≡ ok tt
    accepted o = let c : (o != o) ≡ false = ground arith in rw c refl
