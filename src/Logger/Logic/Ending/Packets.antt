-- ===== src/Logger/Logic/Ending/Packets.antt =====
-- Termination of `getRecordPacket`, and the logic of the calls that end.
use go_elite_log.Base.{
  ℕ, zero, suc, ◌≡◌, ◌≢◌, ◌≤◌, ◌<◌, ◌+◌, refl, ◌∙◌, ap, Bool, true, false, [], arith, if◌then◌else◌,
}
use go_elite_log.Base.Result.{ok, stuck, timeout}
use go_elite_log.Frame.{Frame}
use go_elite_log.Logger.Transport.{
  Transport, World, Session, Action, pure, raise, gets, attempt, ◌>>=◌, now,
}
use go_elite_log.Logger.Exchange.{send, read_report}
use go_elite_log.Logger.Download.{
  Seen, nothing, acknowledged, packet, on_seen, classify, still_waiting, packet_loop,
  get_record_packet, timeout_record, timeout_record_slice,
}
use go_elite_log.Logger.Logic.{Logic}
use go_elite_log.Logger.Logic.Ending.{
  Ticking, Ends, AlwaysEnds, Ends-bind, ends_lift, ends_pure, ends_raise, ends_gets, ends_attempt,
  ends_set_protocol, ends_read, ends_now, ends_sleep, ends_close, ends_all, ends_send,
  ends_read_report, read_report_ticks, now_lem, now_later, Ends-if, ends_await_reply,
}

module _ (T : Transport) (clock : World T → ℕ) (tick : Ticking T clock) where
  -- The loop of `getRecordPacket` waits for the deadline and, behind an acknowledgement, a slice more.
  waiting_lem :
      (deadline : ℕ) (saw : Bool) (s : Session (World T))
      → (still_waiting T deadline saw s).0 ≡ ok true
      → clock s.world ≤ deadline + timeout_record_slice
  unfolding still_waiting now pure ◌>>=◌
  waiting_lem deadline saw s e =
      ground (arith, tick.shown s.world, tick.timing s.world, tick.shown (T.now s.world).1)

  ends_still_waiting :
      (deadline : ℕ) (saw : Bool) → AlwaysEnds T clock tick Bool (still_waiting T deadline saw)
  unfolding still_waiting AlwaysEnds
  ends_still_waiting deadline saw s =
      Ends-bind T clock tick _ _ _ _ s (ends_now T clock tick s) (λ t e.
        Ends-if T clock tick _ _ _ _ _ (ends_pure T clock tick _ true _) (
          Ends-if T clock tick _ _ _ _ _
            (Ends-bind T clock tick _ _ _ _ _ (ends_now T clock tick _)
              (λ u q. ends_pure T clock tick _ _ _))
            (ends_pure T clock tick _ false _)))

  go_on :
      (waiting : Bool) (s : Session (World T)) {u : Unit {0}}
      → ((if waiting then pure tt else raise timeout) s).0 ≡ ok u
      → waiting ≡ true
  unfolding pure raise
  go_on true s e = refl
  go_on false s e = cc

  go_on_clock :
      (waiting : Bool) (s : Session (World T))
      → clock ((if waiting then pure tt else raise timeout) s).1.world ≡ clock s.world
  unfolding pure raise
  go_on_clock true s = refl
  go_on_clock false s = refl

  attempt_clock :
      (A : Type 0) (m : Action (World T) A) (s : Session (World T))
      → clock (attempt m s).1.world ≡ clock (m s).1.world
  unfolding attempt
  attempt_clock A m s = refl

  gets_clock :
      (A : Type 0) (f : Session (World T) → A) (s : Session (World T))
      → clock (gets f s).1.world ≡ clock s.world
  unfolding gets
  gets_clock A f s = refl

  -- A round of the loop takes time.
  round_ticks :
      (deadline : ℕ) (saw waiting : Bool) (s : Session (World T)) (f : Session (World T) → ℕ)
      → clock s.world
        < clock
            (gets f
              (attempt
                (read_report T timeout_record_slice)
                ((if waiting then pure tt else raise timeout)
                  (still_waiting T deadline saw s).1).1).1).1.world
  unfolding gets attempt AlwaysEnds Ends
  round_ticks deadline saw waiting s f = omega (
    arith,
    read_report_ticks T clock tick timeout_record_slice
        ((if waiting then pure tt else raise timeout) (still_waiting T deadline saw s).1).1,
    go_on_clock waiting (still_waiting T deadline saw s).1,
    (ends_still_waiting deadline saw s).1,
  )

  Ends-seen :
      (r : Seen) (m k : Action (World T) Frame) (s : Session (World T))
      → Ends T clock tick Frame m s
      → Ends T clock tick Frame k s
      → Ends T clock tick Frame (on_seen m k r) s
  unfolding AlwaysEnds
  Ends-seen nothing m k s hm hk = hm
  Ends-seen acknowledged m k s hm hk = hk
  Ends-seen (packet f) m k s hm hk = ends_pure T clock tick _ f s

  Ends-packet_loop :
      (fuel deadline : ℕ) (saw : Bool) (s : Session (World T))
      → deadline + timeout_record_slice + 1 ≤ clock s.world + fuel
      → Ends T clock tick Frame (packet_loop T (suc fuel) deadline saw) s
  unfolding packet_loop AlwaysEnds
  Ends-packet_loop zero deadline saw s h =
      Ends-bind T clock tick _ _ _ _ s (ends_still_waiting deadline saw s) (λ waiting e.
        Ends-bind T clock tick _ _ _ _ _
          (Ends-if T clock tick _ _ _ _ _ (ends_pure T clock tick _ tt _)
            (ends_raise T clock tick _ _ _))
          (λ u q.
            absurd (omega (arith, waiting_lem deadline saw s (e ∙ ap ok (go_on waiting _ q))))))
  Ends-packet_loop (suc fuel) deadline saw s h =
      let again =
        λ (saw' : Bool) (s' : Session (World T))
            (k : deadline + timeout_record_slice + 1 ≤ clock s'.world + fuel).
          Ends-packet_loop fuel deadline saw' s' k in
      (Ends-bind T clock tick) _ _ _ _ s (ends_still_waiting deadline saw s) (λ waiting e.
        Ends-bind T clock tick _ _ _ _ _
          (Ends-if T clock tick _ _ _ _ _ (ends_pure T clock tick _ tt _)
            (ends_raise T clock tick _ _ _))
          (λ u q.
            Ends-bind T clock tick _ _ _ _ _
              (ends_attempt T clock tick _ _ (ends_read_report T clock tick timeout_record_slice) _)
              (λ r q'. Ends-bind T clock tick _ _ _ _ _ (ends_gets T clock tick _ _ _) (λ p q''.
                Ends-seen (classify p r) _ _ _
                  (again saw _
                    (omega (arith, round_ticks deadline saw waiting s (λ x. x.protocol))))
                  (again true _
                    (omega (arith, round_ticks deadline saw waiting s (λ x. x.protocol))))))))

  ends_get_record_packet : (off : ℕ) → AlwaysEnds T clock tick Frame (get_record_packet T off)
  unfolding get_record_packet AlwaysEnds
  ends_get_record_packet off s =
      Ends-bind T clock tick _ _ _ _ s (ends_send T clock tick _ _ _ _ s) (λ u q.
        Ends-bind T clock tick _ _ _ _ _ (ends_now T clock tick _) (λ t e.
          Ends-packet_loop (timeout_record + timeout_record_slice + 1) (t + timeout_record) false _
            (omega
              (arith, now_lem T clock tick _ t e, now_later T clock tick (send T 1 off 6 [] s).1))))

  pub ending_logic : Logic T
  ending_logic = record {
    Holds = AlwaysEnds T clock tick;
    Sends = λ o. Unit;
    of_bind = ends_all T clock tick;
    of_lift = ends_lift T clock tick;
    of_gets = ends_gets T clock tick;
    of_attempt = ends_attempt T clock tick;
    of_set_protocol = ends_set_protocol T clock tick;
    of_read = ends_read T clock tick;
    of_now = ends_now T clock tick;
    of_sleep = ends_sleep T clock tick;
    of_close = ends_close T clock tick;
    of_send = λ o offset n payload h. ends_send T clock tick o offset n payload;
    of_await_reply = ends_await_reply T clock tick;
    of_get_record_packet = λ off h. ends_get_record_packet off;
  }

  pub sends_any : (o : ℕ) → ending_logic.Sends o
  unfolding ending_logic
  sends_any o = tt

  -- A method that the logic covers ends.
  pub ends :
      (A : Type 0) (m : Action (World T) A)
      → ending_logic.Holds A m
      → (s : Session (World T)) → (m s).0 ≢ stuck
  unfolding ending_logic AlwaysEnds Ends
  ends A m h s = (h s).0
