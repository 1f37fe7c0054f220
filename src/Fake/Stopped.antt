-- ===== src/Fake/Stopped.antt =====
-- internal/elitech/logger.go, `Stop`, on the simulated logger of internal/elitech/fake_test.go.
use go_elite_log.Base.{
  ℕ, ◌+◌, ◌≡◌, ◌⊎◌, refl, sym, ap, ◌∙◌, arith, Bool, true, false, Bool-cases, inl, inr, [], ◌∷◌,
  ◌++◌, if◌then◌else◌,
}
use go_elite_log.Base.Result.{Result, ok, err, timeout, stop_unacknowledged}
use go_elite_log.Base.Step.{>>=-eq}
use go_elite_log.Frame.{Frame, op_stop, encode_frame}
use go_elite_log.Logger.Transport.{attempt, lost, lift, read, pure, ◌>>=◌}
use go_elite_log.Logger.Exchange.{drain, send, read_report, timeout_command}
use go_elite_log.Logger.Identity.{prime}
use go_elite_log.Logger.Configure.{stop, stop_reply}
use go_elite_log.Fake.{FakeDevice, fake, serve, answer, bytes_of}
use go_elite_log.Fake.Exchange.{Progress, idle, tick, on, drain-idle, send-fake, decode-answer}
use go_elite_log.Fake.Memory.{Plain}
use go_elite_log.Fake.Methods.{run, Yields-prime, protocol_of}
use go_elite_log.Fake.Writes.{read_report-head}

-- The device that has been told to stop once more.
abbrev pub halted : FakeDevice → FakeDevice
halted d = record d { stops = d.stops + 1 }

-- What `Stop` returns, by whether the device is silent about it.
abbrev pub stop_result : Bool → Result (Unit {0})
stop_result true = err stop_unacknowledged
stop_result false = ok tt

abbrev told : Frame
told = record { op = op_stop; offset = 0; n = 1; payload = 0 ∷ [] }

abbrev asked_to_stop : Progress → Progress
asked_to_stop g = record (tick g) { written = g.written ++ (told ∷ []) }

if_true : (b : Bool) (v w : FakeDevice) → b ≡ true → (if b then v else w) ≡ v
if_true b v w e = rw e refl

if_false : (b : Bool) (v w : FakeDevice) → b ≡ false → (if b then v else w) ≡ w
if_false b v w e = rw e refl

silence :
    (wait : ℕ) (w : FakeDevice) (p : ℕ)
    → w.queue ≡ []
    → attempt (read_report fake wait) (on w p)
      ≡ (ok (lost timeout), on (record w { clock = w.clock + 1 }) p)
unfolding attempt read_report read lift pure ◌>>=◌
silence wait w p q = rw q refl

module _ (d : FakeDevice) (p : ℕ) (g : Progress) where
  -- The reply, and what `Stop` makes of it.
  replied :
      (d.silent_stop ≡ true) ⊎ (d.silent_stop ≡ false)
      → (attempt (read_report fake timeout_command) >>= (λ r. lift (stop_reply fake r)))
          (on (serve told (record (idle d (tick g)) { written = g.written ++ (told ∷ []) })) p)
        ≡ (stop_result d.silent_stop, on (idle (halted d) (tick (asked_to_stop g))) p)
  unfolding lift
  replied (inl silent) =
      ap
        (λ v.
          (attempt (read_report fake timeout_command) >>= (λ r. lift (stop_reply fake r))) (on v p))
        (if_true d.silent_stop _ _ silent)
      ∙ >>=-eq (attempt (read_report fake timeout_command)) _
          (silence timeout_command (idle (halted d) (asked_to_stop g)) p refl)
      ∙ ap (λ b. (stop_result b, on (idle (halted d) (tick (asked_to_stop g))) p)) (sym silent)
  replied (inr answers) =
      ap
        (λ v.
          (attempt (read_report fake timeout_command) >>= (λ r. lift (stop_reply fake r))) (on v p))
        (if_false d.silent_stop _ _ answers)
      ∙ >>=-eq (attempt (read_report fake timeout_command)) _ (
          read_report-head timeout_command
            (record { op = op_stop; offset = 0; n = 1; payload = 1 ∷ [] })
            (bytes_of (encode_frame op_stop 0 1 (1 ∷ []))) []
            (answer op_stop 0 1 (1 ∷ []) (idle (halted d) (asked_to_stop g))) p refl
            (decode-answer op_stop 0 1 (1 ∷ []) (omega arith) (omega arith) (omega arith)))
      ∙ ap (λ b. (stop_result b, on (idle (halted d) (tick (asked_to_stop g))) p)) (sym answers)

-- On the simulated logger, if it answers requests for its parameters at once and in full, `Stop`
-- tells it to stop once and changes nothing else of what it holds; it returns
-- `ErrStopUnacknowledged` if the device is silent about it, and no error otherwise.
pub stop_lem :
    (d : FakeDevice) (p : ℕ) (g : Progress)
    → Plain d
    → (g' : Progress) × (stop fake (on (idle d g) p)
        ≡ (stop_result d.silent_stop, on (idle (halted d) g') (protocol_of d)))
unfolding stop
stop_lem d p g plain =
    let (g1, e1) = run (Yields-prime d plain {p = p}) g in
    (
      tick (asked_to_stop g1),
      >>=-eq (prime fake) _ e1
          ∙ >>=-eq (drain fake) _ (drain-idle d g1 (protocol_of d))
          ∙ >>=-eq (send fake op_stop 0 1 (0 ∷ [])) _ (
              send-fake op_stop 0 1 (0 ∷ []) (idle d (tick g1)) (protocol_of d) (omega arith)
                (omega arith) (omega arith))
          ∙ replied d (protocol_of d) g1 (Bool-cases d.silent_stop),
    )
