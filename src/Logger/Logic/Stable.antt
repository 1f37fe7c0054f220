-- ===== src/Logger/Logic/Stable.antt =====
-- Invariants of the world as a logic of methods, for methods that send allowed reports only.
use go_elite_log.Base.{ℕ, zero, suc, ◌≡◌, refl, Bool, true, false, List, if◌then◌else◌}
use go_elite_log.Base.Result.{Result, ok, err, panicked, stuck, Error}
use go_elite_log.Frame.{Frame, encode_frame, op_get_record}
use go_elite_log.Logger.Transport.{
  Transport, World, Reading, Session, Action, Outcome, pure, raise, lift, gets, attempt, require,
  out_of_fuel, continue_with, ◌>>=◌, set_protocol, write, read, now, sleep, close,
}
use go_elite_log.Logger.Exchange.{send, read_report, await_loop, await_reply}
use go_elite_log.Logger.Download.{
  Seen, nothing, acknowledged, packet, on_seen, classify, still_waiting, packet_loop,
  get_record_packet, timeout_record_slice,
}
use go_elite_log.Logger.Logic.{Logic}

pub record Stable (T : Transport) (Allowed : List ℕ → Type 0) (Inv : World T → Type 0)
    : Type 0 where
  pub reading : (wait : ℕ) (w : World T) → Inv w → Inv (T.read wait w).1
  pub timing : (w : World T) → Inv w → Inv (T.now w).1
  pub sleeping : (d : ℕ) (w : World T) → Inv w → Inv (T.sleep d w)
  pub closing : (w : World T) → Inv w → Inv (T.close w).1
  pub writing : (b : List ℕ) (w : World T) → Allowed b → Inv w → Inv (T.write b w).1

module _ (T : Transport) (Allowed : List ℕ → Type 0) (Inv : World T → Type 0)
    (st : Stable T Allowed Inv) where
  Keeps : (A : Type 0) → Action (World T) A → Type 0
  Keeps A m = (s : Session (World T)) → Inv s.world → Inv (m s).1.world

  -- Every report of the operation is allowed.
  abbrev pub MaySend : ℕ → Type 0
  MaySend o =
      (offset n : ℕ) (payload b : List ℕ) → encode_frame o offset n payload ≡ ok b → Allowed b

  keeps_continue :
      (A B : Type 0) (f : A → Action (World T) B) (r : Result A) (s : Session (World T))
      → ((a : A) → Keeps B (f a))
      → Inv s.world
      → Inv (continue_with f r s).1.world
  unfolding Keeps
  keeps_continue A B f (ok a) s hf h = hf a s h
  keeps_continue A B f (err e) s hf h = h
  keeps_continue A B f panicked s hf h = h
  keeps_continue A B f stuck s hf h = h

  Keeps-bind :
      (A B : Type 0) (m : Action (World T) A) (f : A → Action (World T) B)
      → Keeps A m
      → ((a : A) → Keeps B (f a))
      → Keeps B (m >>= f)
  unfolding ◌>>=◌ Keeps
  Keeps-bind A B m f hm hf s h = keeps_continue A B f (m s).0 (m s).1 hf (hm s h)

  Keeps-lift : (A : Type 0) (r : Result A) → Keeps A (lift r)
  unfolding Keeps lift
  Keeps-lift A r s h = h

  Keeps-gets : (A : Type 0) (f : Session (World T) → A) → Keeps A (gets f)
  unfolding Keeps gets
  Keeps-gets A f s h = h

  Keeps-attempt : (A : Type 0) (m : Action (World T) A) → Keeps A m → Keeps (Outcome A) (attempt m)
  unfolding Keeps attempt
  Keeps-attempt A m hm s h = hm s h

  Keeps-read : (wait : ℕ) → Keeps Reading (read T wait)
  unfolding Keeps read
  Keeps-read wait s h = st.reading wait s.world h

  Keeps-now : Keeps ℕ (now T)
  unfolding Keeps now
  Keeps-now s h = st.timing s.world h

  Keeps-sleep : (d : ℕ) → Keeps (Unit {0}) (sleep T d)
  unfolding Keeps sleep
  Keeps-sleep d s h = st.sleeping d s.world h

  Keeps-close : Keeps (Unit {0}) (close T)
  unfolding Keeps close
  Keeps-close s h = st.closing s.world h

  Keeps-set_protocol : (p : ℕ) → Keeps (Unit {0}) (set_protocol p)
  unfolding Keeps set_protocol
  Keeps-set_protocol p s h = h

  Keeps-write :
      (r : Result (List ℕ))
      → ((b : List ℕ) → r ≡ ok b → Allowed b)
      → Keeps (Unit {0}) (lift r >>= write T)
  unfolding Keeps write lift ◌>>=◌
  Keeps-write (ok b) allowed s h = st.writing b s.world (allowed b refl) h
  Keeps-write (err e) allowed s h = h
  Keeps-write panicked allowed s h = h
  Keeps-write stuck allowed s h = h

  Keeps-send :
      (o offset n : ℕ) (payload : List ℕ) → MaySend o → Keeps (Unit {0}) (send T o offset n payload)
  unfolding send
  Keeps-send o offset n payload may =
      Keeps-write (encode_frame o offset n payload) (may offset n payload)

  Keeps-if :
      (A : Type 0) (b : Bool) (m k : Action (World T) A)
      → Keeps A m
      → Keeps A k
      → Keeps A (if b then m else k)
  Keeps-if A true m k hm hk = hm
  Keeps-if A false m k hm hk = hk

  Keeps-pure : (A : Type 0) (a : A) → Keeps A (pure a)
  unfolding Keeps pure
  Keeps-pure A a s h = h

  Keeps-raise : (A : Type 0) (e : Error) → Keeps A (raise e)
  unfolding Keeps raise
  Keeps-raise A e s h = h

  Keeps-require : (b : Bool) (e : Error) → Keeps (Unit {0}) (require b e)
  unfolding Keeps require
  Keeps-require b e s h = h

  Keeps-out_of_fuel : (A : Type 0) → Keeps A out_of_fuel
  unfolding Keeps out_of_fuel
  Keeps-out_of_fuel A s h = h

  Keeps-read_report : (wait : ℕ) → Keeps Frame (read_report T wait)
  unfolding read_report
  Keeps-read_report wait = Keeps-bind _ _ _ _ (Keeps-read wait) (λ r. Keeps-lift _ _)

  Keeps-await_loop : (fuel want deadline : ℕ) → Keeps Frame (await_loop T fuel want deadline)
  unfolding await_loop
  Keeps-await_loop zero want deadline = Keeps-out_of_fuel _
  Keeps-await_loop (suc fuel) want deadline = Keeps-bind _ _ _ _ Keeps-now (λ t.
      Keeps-bind _ _ _ _ (Keeps-require _ _) (λ u.
        Keeps-bind _ _ _ _ (Keeps-read_report _)
          (λ f. Keeps-if _ _ _ _ (Keeps-pure _ f) (Keeps-await_loop fuel want deadline))))

  Keeps-await_reply : (want wait : ℕ) → Keeps Frame (await_reply T want wait)
  unfolding await_reply
  Keeps-await_reply want wait = Keeps-bind _ _ _ _ Keeps-now (λ t. Keeps-await_loop _ _ _)

  Keeps-still_waiting : (deadline : ℕ) (saw : Bool) → Keeps Bool (still_waiting T deadline saw)
  unfolding still_waiting
  Keeps-still_waiting deadline saw = Keeps-bind _ _ _ _ Keeps-now (λ t.
      Keeps-if _ _ _ _ (Keeps-pure _ _)
        (Keeps-if _ _ _ _ (Keeps-bind _ _ _ _ Keeps-now (λ u. Keeps-pure _ _)) (Keeps-pure _ _)))

  Keeps-seen :
      (r : Seen) (m k : Action (World T) Frame)
      → Keeps Frame m
      → Keeps Frame k
      → Keeps Frame (on_seen m k r)
  Keeps-seen nothing m k hm hk = hm
  Keeps-seen acknowledged m k hm hk = hk
  Keeps-seen (packet f) m k hm hk = Keeps-pure _ f

  Keeps-packet_loop :
      (fuel deadline : ℕ) (saw : Bool) → Keeps Frame (packet_loop T fuel deadline saw)
  unfolding packet_loop
  Keeps-packet_loop zero deadline saw = Keeps-out_of_fuel _
  Keeps-packet_loop (suc fuel) deadline saw =
      let quiet = Keeps-packet_loop fuel deadline saw in
      let acked = Keeps-packet_loop fuel deadline true in
      Keeps-bind _ _ _ _ (Keeps-still_waiting deadline saw) (λ waiting.
        Keeps-bind _ _ _ _ (Keeps-if _ _ _ _ (Keeps-pure _ tt) (Keeps-raise _ _)) (λ u.
          Keeps-bind _ _ _ _ (Keeps-attempt _ _ (Keeps-read_report timeout_record_slice)) (λ r.
            Keeps-bind _ _ _ _ (Keeps-gets _ _) (λ p. Keeps-seen (classify p r) _ _ quiet acked))))

  Keeps-get_record_packet :
      (off : ℕ) → MaySend op_get_record → Keeps Frame (get_record_packet T off)
  unfolding get_record_packet
  Keeps-get_record_packet off may =
      Keeps-bind _ _ _ _ (Keeps-send _ _ _ _ may)
        (λ u. Keeps-bind _ _ _ _ Keeps-now (λ t. Keeps-packet_loop _ _ _))

  pub stable_logic : Logic T
  unfolding Keeps
  stable_logic = record {
    Holds = Keeps;
    Sends = MaySend;
    of_bind = Keeps-bind;
    of_lift = λ A r h. Keeps-lift A r;
    of_gets = Keeps-gets;
    of_attempt = Keeps-attempt;
    of_set_protocol = Keeps-set_protocol;
    of_read = Keeps-read;
    of_now = Keeps-now;
    of_sleep = Keeps-sleep;
    of_close = Keeps-close;
    of_send = Keeps-send;
    of_await_reply = Keeps-await_reply;
    of_get_record_packet = Keeps-get_record_packet;
  }

  pub may_send : (o : ℕ) → MaySend o → stable_logic.Sends o
  unfolding stable_logic
  may_send o h = h

  -- A method that the logic covers keeps the invariant.
  pub keeps :
      (A : Type 0) (m : Action (World T) A)
      → stable_logic.Holds A m
      → (s : Session (World T)) → Inv s.world
      → Inv (m s).1.world
  unfolding stable_logic Keeps
  keeps A m h = h
