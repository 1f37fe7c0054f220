-- ===== src/Fake/Preamble.antt =====
-- internal/elitech/logger.go, `sendConnectPreamble`, on the simulated logger of
-- internal/elitech/fake_test.go: a device that is silent until it has seen the preamble.
use go_elite_log.Base.{
  ℕ, zero, suc, ◌+◌, ◌-◌, ◌^◌, ◌≡◌, ◌≤◌, ◌<◌, ◌⊎◌, inl, inr, refl, sym, ap, ◌∙◌, arith, Bool, true,
  false, not, ◌&&◌, ◌||◌, List, [], ◌∷◌, ◌++◌, length, slice, drop, All, ltb, leb, ◌==◌,
  if◌then◌else◌, length-take, lt→ltb,
}
use go_elite_log.Base.Result.{ok, err, timeout, is_ok}
use go_elite_log.Base.Step.{>>=-eq}
use go_elite_log.Frame.{op_get_record, op_get_parameter, op_read05, encode_frame}
use go_elite_log.Record.{decode_record_at}
use go_elite_log.Logger.Transport.{
  Session, Action, outcome, attempt, got, lost, lift, read, now, raise, gets, sleep, pure, ◌>>=◌,
}
use go_elite_log.Logger.Exchange.{drain, send, read_report, timeout_get}
use go_elite_log.Logger.Download.{
  connect_preamble, pause_preamble, preamble_from, send_connect_preamble, get_record_packet,
  packet_loop, still_waiting, classify, request_packet, timeout_record, timeout_record_slice,
}
use go_elite_log.Fake.{FakeDevice, fake, serve, answer, bytes_of, slot}
use go_elite_log.Fake.Exchange.{Progress, idle, tick, on, drain-idle, send-fake, decode-answer}
use go_elite_log.Fake.Memory.{asked, served_get}
use go_elite_log.Fake.Packets.{Uniform, data_report, now-fake, get_record_packet-fake}
use go_elite_log.Fake.Writes.{read_report-head}

-- A device that answers requests for its parameters at once, but needs the preamble.
pub record Shy (d : FakeDevice) : Type 0 where
  pub narrow : d.wide_reads ≡ false
  pub counted : d.capacity_ff_until ≡ 0
  pub needs : d.needs_preamble ≡ true

-- A round of the loop of `getRecordPacket` that reads nothing, and the last, behind the deadline.
quiet_round :
    (fuel deadline : ℕ) (v : FakeDevice) (p : ℕ)
    → ltb v.clock deadline ≡ true
    → v.queue ≡ []
    → packet_loop fake (suc fuel) deadline false (on v p)
      ≡ packet_loop fake fuel deadline false (on (record v { clock = v.clock + 1 }) p)
unfolding packet_loop still_waiting read_report lift attempt gets now read pure classify ◌>>=◌
quiet_round fuel deadline v p early q = rw (early, q) refl

late_round :
    (fuel deadline : ℕ) (v : FakeDevice) (p : ℕ)
    → ltb v.clock deadline ≡ false
    → packet_loop fake (suc fuel) deadline false (on v p) ≡ (err timeout, on v p)
unfolding packet_loop still_waiting now pure raise ◌>>=◌
late_round fuel deadline v p late = rw late refl

-- With nothing to read the loop ends at its deadline.
quiet_loop :
    (k m : ℕ) (d : FakeDevice) (g : Progress) (p deadline : ℕ)
    → deadline ≡ g.clock + k
    → packet_loop fake (suc (k + m)) deadline false (on (idle d g) p)
      ≡ (err timeout, on (idle d (record g { clock = g.clock + k })) p)
quiet_loop zero m d g p deadline e =
    let z : g.clock + 0 ≡ g.clock = omega arith in
    late_round (0 + m) deadline (idle d g) p (ground arith)
    ∙ ap (λ c. (err timeout, on (idle d (record g { clock = c })) p)) (sym z)
quiet_loop (suc k) m d g p deadline e =
    let n : suc k + m ≡ suc (k + m) = omega arith in
    let c : g.clock + 1 + k ≡ g.clock + suc k = omega arith in
    ap (λ f. packet_loop fake (suc f) deadline false (on (idle d g) p)) n
    ∙ quiet_round (suc (k + m)) deadline (idle d g) p (lt→ltb _ _ (omega arith)) refl
    ∙ quiet_loop k m d (tick g) p deadline (omega arith)
    ∙ ap (λ c. (err timeout, on (idle d (record g { clock = c })) p)) c

if_shy : (b : Bool) (v v' : FakeDevice) → b ≡ true → (if b then v else v') ≡ v
if_shy b v v' e = rw e refl

shy_lem : (b c : Bool) → b ≡ true → c ≡ false → (b && not c) ≡ true
shy_lem b c h k = rw (h, k) refl

-- A device that has not seen the preamble is silent, so the request times out.
silent_packet :
    (d : FakeDevice) (off p : ℕ) (g : Progress)
    → d.needs_preamble ≡ true
    → g.seen ≡ false
    → off < 2 ^ 24
    → (g' : Progress) × (get_record_packet fake off (on (idle d g) p)
        ≡ (err timeout, on (idle d g') p))
unfolding get_record_packet
silent_packet d off p g needs unseen h =
    let asked_once : Progress = record g {
      written = g.written ++ (asked op_get_record off 6 [] ∷ []);
    } in
    (
      record asked_once { clock = g.clock + timeout_record },
      >>=-eq (send fake op_get_record off 6 []) _ (
            send-fake op_get_record off 6 [] (idle d g) p (omega arith) h (omega arith)
            ∙ ap (λ v. (ok tt, on v p))
                (if_shy (d.needs_preamble && not g.seen) _ _
                  (shy_lem d.needs_preamble g.seen needs unseen)))
          ∙ >>=-eq (now fake)
              (λ t.
                packet_loop fake (timeout_record + timeout_record_slice + 2) (t + timeout_record)
                  false)
              (now-fake _ p)
          ∙ quiet_loop timeout_record (timeout_record_slice + 1) d asked_once p
              (g.clock + timeout_record) refl,
    )

attempt_ok :
    {A : Type 0} (m : Action FakeDevice A) (s : Session FakeDevice) {s' : Session FakeDevice}
    {a : A}
    → m s ≡ (ok a, s')
    → attempt m s ≡ (ok (got a), s')
unfolding attempt
attempt_ok m s e = ap (λ r. (outcome r.0, r.1)) e

attempt_lost :
    {A : Type 0} (m : Action FakeDevice A) (s : Session FakeDevice) {s' : Session FakeDevice}
    → m s ≡ (err timeout, s')
    → attempt m s ≡ (ok (lost timeout), s')
unfolding attempt
attempt_lost m s e = ap (λ r. (outcome r.0, r.1)) e

ready_seen : (b c : Bool) → c ≡ true → (b && not c) ≡ false
ready_seen true c h = rw h refl
ready_seen false c h = refl

-- The request that makes the device ready.
abbrev last_read : ℕ → ℕ → Bool
last_read o offset = (o == op_read05) && (offset == 0x140)

abbrev Asking : ℕ × ℕ × ℕ → Type 0
Asking x = ((x.0 ≡ op_get_parameter) ⊎ (x.0 ≡ op_read05)) × (x.1 < 2 ^ 24) × (x.2 ≤ 52)

abbrev asking : List (ℕ × ℕ × ℕ) → Bool
asking [] = true
asking (x ∷ xs) =
    ((x.0 == op_get_parameter) || (x.0 == op_read05))
    && (ltb x.1 (2 ^ 24) && leb x.2 52)
    && asking xs

Asking-one :
    (o offset n : ℕ) (rest : Bool)
    → (((o == op_get_parameter) || (o == op_read05)) && (ltb offset (2 ^ 24) && leb n 52) && rest)
      ≡ true
    → Asking (o, offset, n) × (rest ≡ true)
Asking-one o offset n true h = (ground arith, refl)
Asking-one o offset n false h = absurd (ground arith)

All-Asking : (xs : List (ℕ × ℕ × ℕ)) → asking xs ≡ true → All Asking xs
All-Asking [] h = tt
All-Asking ((o, offset, n) ∷ xs) h =
    let (one, rest) = Asking-one o offset n (asking xs) h in (one, All-Asking xs rest)

module _ (d : FakeDevice) (shy : Shy d) where
  -- A request of the preamble is answered.
  answered :
      (o offset n : ℕ) (g : Progress)
      → (o ≡ op_get_parameter) ⊎ (o ≡ op_read05)
      → n ≤ 52
      → (g' : Progress) × (bytes : List ℕ) × (serve
            (asked o offset n [])
            (record (idle d g) { written = g.written ++ (asked o offset n [] ∷ []) })
          ≡ answer o offset n bytes (idle d g'))
        × (length bytes ≤ 52)
        × (g'.seen ≡ (last_read o offset || g.seen))
  answered o offset n g (inl e) h = rw e (
    _,
    slice offset (offset + n) d.mem,
    served_get d offset n g shy.narrow shy.counted,
    omega (arith, length-take (offset + n - offset) (drop offset d.mem)),
    refl,
  )
  answered o offset n g (inr e) h = rw e (
    record g {
      written = g.written ++ (asked op_read05 offset n [] ∷ []);
      seen = (offset == 0x140) || g.seen;
    },
    slice offset (offset + n) d.stat,
    refl,
    omega (arith, length-take (offset + n - offset) (drop offset d.stat)),
    refl,
  )

  -- Whether one of the requests makes the device ready.
  abbrev has_last : List (ℕ × ℕ × ℕ) → Bool
  has_last [] = false
  has_last (x ∷ xs) = last_read x.0 x.1 || has_last xs

  seen_later : (a b c : Bool) → (b || (a || c)) ≡ ((a || b) || c)
  seen_later true true c = refl
  seen_later true false c = refl
  seen_later false true c = refl
  seen_later false false c = refl

  preamble_from-fake :
      (xs : List (ℕ × ℕ × ℕ)) (g : Progress) (p : ℕ)
      → All Asking xs
      → (g' : Progress) × (preamble_from fake xs (on (idle d g) p) ≡ (ok tt, on (idle d g') p))
        × (g'.seen ≡ (has_last xs || g.seen))
  unfolding preamble_from pure sleep
  preamble_from-fake [] g p h = (g, refl, refl)
  preamble_from-fake ((o, offset, n) ∷ xs) g p ((kind, below, short), hs) =
      let small : o < 65536 = elim kind [ inl e ↦ omega (arith, e) | inr e ↦ omega (arith, e) ] in
      let (g1, bytes, served, len, seen1) = answered o offset n g kind short in
      let (g2, e2, seen2) = preamble_from-fake xs (tick g1) p hs in
      (
        g2,
        >>=-eq (attempt (send fake o offset n [])) _ (
              attempt_ok (send fake o offset n []) _ (
                send-fake o offset n [] (idle d g) p small below (omega arith)
                ∙ ap (λ v. (ok tt, on v p)) served))
            ∙ >>=-eq (attempt (read_report fake timeout_get)) _ (
                read_report-head timeout_get (asked o offset n bytes)
                  (bytes_of (encode_frame o offset n bytes)) []
                  (answer o offset n bytes (idle d g1)) p refl
                  (decode-answer o offset n bytes small below len))
            ∙ >>=-eq (sleep fake pause_preamble) _ refl
            ∙ e2,
        seen2
            ∙ ap (λ b. has_last xs || b) seen1
            ∙ seen_later (last_read o offset) (has_last xs) g.seen,
      )

  send_connect_preamble-fake :
      (g : Progress) (p : ℕ)
      → (g' : Progress) × (send_connect_preamble fake (on (idle d g) p) ≡ (ok tt, on (idle d g') p))
        × (g'.seen ≡ true)
  unfolding send_connect_preamble
  send_connect_preamble-fake g p =
      let (g', e, seen) =
        preamble_from-fake connect_preamble (tick g) p (All-Asking connect_preamble refl) in
      (g', >>=-eq (drain fake) _ (drain-idle d g p) ∙ e, seen)

  -- If the simulated logger needs the preamble, has not seen it and answers each other request at
  -- once and in full, its slots have one width of 4 or 8 bytes, the packet lies at an offset
  -- below 2^24 and its first slot decodes, the request for the packet in `Records` with no
  -- preamble sent so far sends the preamble behind the timeout and returns the packet; the device
  -- has seen the preamble then, and its memories are as they were.
  pub request_packet_ready :
      (w : ℕ)
      → Uniform d w
      → (off p : ℕ) (g : Progress) → g.seen ≡ false
      → off < 2 ^ 24
      → is_ok (decode_record_at (slot d off) p) ≡ true
      → (g' : Progress) × (request_packet fake false off (on (idle d g) p)
          ≡ (ok (got (data_report d off), true), on (idle d g') p))
        × (g'.seen ≡ true)
  unfolding request_packet pure
  request_packet_ready w uniform off p g unseen h e =
      let (g1, e1) = silent_packet d off p g shy.needs unseen h in
      let (g2, e2, seen) = send_connect_preamble-fake g1 p in
      let ready : (d.needs_preamble && not g2.seen) ≡ false =
        ready_seen d.needs_preamble g2.seen seen in
      (
        _,
        >>=-eq (attempt (get_record_packet fake off)) _
              (attempt_lost (get_record_packet fake off) _ e1)
            ∙ >>=-eq (send_connect_preamble fake) _ e2
            ∙ >>=-eq (attempt (get_record_packet fake off)) _ (
                attempt_ok (get_record_packet fake off) _
                  (get_record_packet-fake d w uniform off p g2 ready h e)),
        seen,
      )
