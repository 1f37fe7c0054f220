-- ===== src/Logger/Logic/Ending.antt =====
-- Termination as a logic of methods, on a clock that every read moves on.
pub mod Packets
use go_elite_log.Base.{
  ℕ, zero, suc, ◌≡◌, ◌≢◌, ◌≤◌, ◌<◌, ◌+◌, ◌-◌, refl, ◌∙◌, ap, Bool, true, false, List, [], arith,
  if◌then◌else◌, ◌==◌, ltb→lt,
}
use go_elite_log.Base.Result.{Result, ok, err, panicked, stuck, Error, timeout}
use go_elite_log.Frame.{Frame, encode_frame, decode_frame}
use go_elite_log.Logger.Transport.{
  Transport, World, Reading, Session, Action, Outcome, pure, raise, lift, gets, attempt, outcome,
  require, continue_with, ◌>>=◌, set_protocol, write, read, now, sleep, close, nil_or,
}
use go_elite_log.Logger.Exchange.{send, decode_reading, read_report, await_loop, await_reply}
use go_elite_log.Logger.Download.{
  Seen, nothing, acknowledged, packet, on_seen, classify, still_waiting, packet_loop,
  get_record_packet, timeout_record, timeout_record_slice,
}
use go_elite_log.Logger.Logic.{Logic}

-- The clock of the world never goes back, `now` shows it, and a read takes a nanosecond or more.
pub record Ticking (T : Transport) (clock : World T → ℕ) : Type 0 where
  pub shown : (w : World T) → (T.now w).0 ≡ clock w
  pub timing : (w : World T) → clock w ≤ clock (T.now w).1
  pub reading : (wait : ℕ) (w : World T) → clock w < clock (T.read wait w).1
  pub writing : (b : List ℕ) (w : World T) → clock w ≤ clock (T.write b w).1
  pub sleeping : (d : ℕ) (w : World T) → clock w ≤ clock (T.sleep d w)
  pub closing : (w : World T) → clock w ≤ clock (T.close w).1

module _ (T : Transport) (clock : World T → ℕ) (tick : Ticking T clock) where
  -- From `s` the call ends, and the clock has not gone back.
  pub Ends : (A : Type 0) → Action (World T) A → Session (World T) → Type 0
  Ends A m s = ((m s).0 ≢ stuck) × (clock s.world ≤ clock (m s).1.world)

  pub AlwaysEnds : (A : Type 0) → Action (World T) A → Type 0
  AlwaysEnds A m = (s : Session (World T)) → Ends A m s

  Ends-continue :
      (A B : Type 0) (f : A → Action (World T) B) (r : Result A) (s : Session (World T)) (t : ℕ)
      → r ≢ stuck
      → t ≤ clock s.world
      → ((a : A) → r ≡ ok a → Ends B (f a) s)
      → ((continue_with f r s).0 ≢ stuck) × (t ≤ clock (continue_with f r s).1.world)
  unfolding Ends
  Ends-continue A B f (ok a) s t h le hf = let e = hf a refl in (e.0, omega arith)
  Ends-continue A B f (err x) s t h le hf = ((λ e. cc), le)
  Ends-continue A B f panicked s t h le hf = ((λ e. cc), le)
  Ends-continue A B f stuck s t h le hf = absurd (h refl)

  pub Ends-bind :
      (A B : Type 0) (m : Action (World T) A) (f : A → Action (World T) B) (s : Session (World T))
      → Ends A m s
      → ((a : A) → (m s).0 ≡ ok a → Ends B (f a) (m s).1)
      → Ends B (m >>= f) s
  unfolding ◌>>=◌ Ends
  Ends-bind A B m f s hm hf = Ends-continue A B f (m s).0 (m s).1 (clock s.world) hm.0 hm.1 hf

  pub ends_lift : (A : Type 0) (r : Result A) → r ≢ stuck → AlwaysEnds A (lift r)
  unfolding AlwaysEnds Ends lift
  ends_lift A r h s = (h, omega arith)

  pub ends_pure : (A : Type 0) (a : A) → AlwaysEnds A (pure a)
  unfolding AlwaysEnds Ends pure
  ends_pure A a s = ((λ e. cc), omega arith)

  pub ends_raise : (A : Type 0) (x : Error) → AlwaysEnds A (raise x)
  unfolding AlwaysEnds Ends raise
  ends_raise A x s = ((λ e. cc), omega arith)

  pub ends_gets : (A : Type 0) (f : Session (World T) → A) → AlwaysEnds A (gets f)
  unfolding AlwaysEnds Ends gets
  ends_gets A f s = ((λ e. cc), omega arith)

  outcome-ne-stuck : (A : Type 0) (r : Result A) → r ≢ stuck → outcome r ≢ stuck
  outcome-ne-stuck A (ok a) h e = cc
  outcome-ne-stuck A (err x) h e = cc
  outcome-ne-stuck A panicked h e = cc
  outcome-ne-stuck A stuck h e = h refl

  pub ends_attempt :
      (A : Type 0) (m : Action (World T) A) → AlwaysEnds A m → AlwaysEnds (Outcome A) (attempt m)
  unfolding AlwaysEnds Ends attempt
  ends_attempt A m h s = (outcome-ne-stuck A (m s).0 (h s).0, (h s).1)

  pub ends_set_protocol : (p : ℕ) → AlwaysEnds (Unit {0}) (set_protocol p)
  unfolding AlwaysEnds Ends set_protocol
  ends_set_protocol p s = ((λ e. cc), omega arith)

  pub ends_read : (wait : ℕ) → AlwaysEnds Reading (read T wait)
  unfolding AlwaysEnds Ends read
  ends_read wait s = ((λ e. cc), omega (arith, tick.reading wait s.world))

  pub ends_now : AlwaysEnds ℕ (now T)
  unfolding AlwaysEnds Ends now
  ends_now s = ((λ e. cc), tick.timing s.world)

  pub ends_sleep : (d : ℕ) → AlwaysEnds (Unit {0}) (sleep T d)
  unfolding AlwaysEnds Ends sleep
  ends_sleep d s = ((λ e. cc), tick.sleeping d s.world)

  nil_or-ne-stuck : (o : _) → nil_or o ≢ stuck
  nil_or-ne-stuck o e = ground arith

  pub ends_close : AlwaysEnds (Unit {0}) (close T)
  unfolding AlwaysEnds Ends close
  ends_close s = (nil_or-ne-stuck _, tick.closing s.world)

  ends_write : (b : List ℕ) → AlwaysEnds (Unit {0}) (write T b)
  unfolding AlwaysEnds Ends write
  ends_write b s = (nil_or-ne-stuck _, tick.writing b s.world)

  encode_frame-ne-stuck :
      (o offset n : ℕ) (payload : List ℕ) → encode_frame o offset n payload ≢ stuck
  unfolding encode_frame
  encode_frame-ne-stuck o offset n payload e = ground arith

  pub ends_all :
      (A B : Type 0) (m : Action (World T) A) (f : A → Action (World T) B)
      → AlwaysEnds A m
      → ((a : A) → AlwaysEnds B (f a))
      → AlwaysEnds B (m >>= f)
  unfolding AlwaysEnds
  ends_all A B m f hm hf s = Ends-bind A B m f s (hm s) (λ a q. hf a (m s).1)

  pub ends_send :
      (o offset n : ℕ) (payload : List ℕ) → AlwaysEnds (Unit {0}) (send T o offset n payload)
  unfolding send
  ends_send o offset n payload =
      ends_all _ _ _ _ (ends_lift _ _ (encode_frame-ne-stuck o offset n payload))
        (λ b. ends_write b)

  decode_reading-ne-stuck : (r : Reading) → decode_reading T r ≢ stuck
  unfolding decode_frame
  decode_reading-ne-stuck r e = ground arith

  pub ends_read_report : (wait : ℕ) → AlwaysEnds Frame (read_report T wait)
  unfolding read_report
  ends_read_report wait =
      ends_all _ _ _ _ (ends_read wait) (λ r. ends_lift _ _ (decode_reading-ne-stuck r))

  -- A read takes time.
  pub read_report_ticks :
      (wait : ℕ) (s : Session (World T)) → clock s.world < clock (read_report T wait s).1.world
  unfolding read_report read lift ◌>>=◌
  read_report_ticks wait s = tick.reading wait s.world

  pub now_lem : (s : Session (World T)) (t : ℕ) → (now T s).0 ≡ ok t → t ≡ clock s.world
  unfolding now
  now_lem s t e = ground (arith, tick.shown s.world)

  pub now_later : (s : Session (World T)) → clock s.world ≤ clock (now T s).1.world
  unfolding now
  now_later s = tick.timing s.world

  require_lem :
      (b : Bool) (x : Error) (s : Session (World T)) {u : Unit {0}}
      → (require b x s).0 ≡ ok u
      → b ≡ true
  unfolding require
  require_lem true x s e = refl
  require_lem false x s e = cc

  require_same : (b : Bool) (x : Error) (s : Session (World T)) → (require b x s).1 ≡ s
  unfolding require
  require_same b x s = refl

  ends_require : (b : Bool) (x : Error) → AlwaysEnds (Unit {0}) (require b x)
  unfolding AlwaysEnds Ends require
  ends_require b x s = (ground arith, omega arith)

  same_clock :
      (b : Bool) (x : Error) (s : Session (World T)) → clock (require b x s).1.world ≡ clock s.world
  unfolding require
  same_clock b x s = refl

  pub Ends-if :
      (A : Type 0) (b : Bool) (m k : Action (World T) A) (s : Session (World T))
      → Ends A m s
      → Ends A k s
      → Ends A (if b then m else k) s
  Ends-if A true m k s hm hk = hm
  Ends-if A false m k s hm hk = hk

  Ends-await_round :
      (fuel want deadline t : ℕ) (s : Session (World T))
      → t < deadline
      → ((s' : Session (World T))
          → clock s.world < clock s'.world
          → Ends Frame (await_loop T fuel want deadline) s')
      → Ends Frame
          (read_report T (deadline - t)
            >>= (λ f. if f.op == want then pure f else await_loop T fuel want deadline))
          s
  unfolding AlwaysEnds
  Ends-await_round fuel want deadline t s lt rec =
      Ends-bind _ _ _ _ s (ends_read_report _ s)
        (λ f q. Ends-if _ _ _ _ _ (ends_pure _ f _) (rec _ (read_report_ticks _ s)))

  -- With fuel for the time that is left and one round more, the loop ends.
  Ends-await_loop :
      (fuel want deadline : ℕ) (s : Session (World T))
      → deadline ≤ clock s.world + fuel
      → Ends Frame (await_loop T (suc fuel) want deadline) s
  unfolding await_loop AlwaysEnds
  Ends-await_loop zero want deadline s h = Ends-bind _ _ _ _ s (ends_now s) (λ t e.
      Ends-bind _ _ _ _ _ (ends_require _ _ _)
        (λ u q. absurd (omega (arith, now_lem s t e, ltb→lt t deadline (require_lem _ _ _ q)))))
  Ends-await_loop (suc fuel) want deadline s h =
      let rec = λ (s' : Session (World T)) (k : deadline ≤ clock s'.world + fuel).
        Ends-await_loop fuel want deadline s' k in
      Ends-bind _ _ _ _ s (ends_now s) (λ t e. Ends-bind _ _ _ _ _ (ends_require _ _ _) (λ u q.
        Ends-await_round (suc fuel) want deadline t _ (ltb→lt t deadline (require_lem _ _ _ q))
          (λ s' later. rec s' (omega (arith, later, now_later s, same_clock _ _ _)))))

  pub ends_await_reply : (want wait : ℕ) → AlwaysEnds Frame (await_reply T want wait)
  unfolding await_reply AlwaysEnds
  ends_await_reply want wait s =
      let one : wait + 1 ≡ suc wait = omega arith in
      Ends-bind _ _ _ _ s (ends_now s) (λ t e.
        rw one (Ends-await_loop wait want (t + wait) _ (omega (arith, now_lem s t e, now_later s))))
