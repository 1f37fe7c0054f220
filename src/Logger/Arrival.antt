-- ===== src/Logger/Arrival.antt =====
-- internal/elitech/logger.go, `awaitReply`: a reply that arrives in time.
use go_elite_log.Base.{
  ℕ, List, zero, suc, ◌≡◌, ◌≢◌, ◌≤◌, ◌<◌, ◌+◌, ◌-◌, refl, false, arith, ltb, ◌==◌, if◌then◌else◌,
  lt→ltb, ==_iff,
}
use go_elite_log.Base.Result.{Result, ok, err, Error, timeout}
use go_elite_log.Frame.{Frame, decode_frame}
use go_elite_log.Logger.Transport.{
  Transport, World, Session, report, pure, lift, require, ◌>>=◌, read, now,
}
use go_elite_log.Logger.Exchange.{decode_reading, read_report, await_loop, await_reply}
use go_elite_log.Logger.Logic.Ending.{Ticking}

differ : (a b : ℕ) → a ≢ b → (a == b) ≡ false
differ a b h = ground arith

ge→ltb : (a b : ℕ) → b ≤ a → ltb a b ≡ false
ge→ltb a b h = ground arith

module _ (T : Transport) (want deadline : ℕ) where
  -- From the world `w` the next read, which begins in time, brings a frame.
  abbrev pub Brings : World T → Frame → Type 0
  Brings w f =
      ((T.now w).0 < deadline)
      × ((b : List ℕ) × ((T.read (deadline - (T.now w).0) (T.now w).1).0 ≡ report b)
          × (decode_frame b ≡ ok f))

  abbrev pub after_read : World T → World T
  after_read w = (T.read (deadline - (T.now w).0) (T.now w).1).1

  -- What comes of waiting: reads that begin in time bring replies to other requests, and then the
  -- reply to this one, or a report that cannot be read or decoded, or the deadline passes.
  pub data Answers : World T → Result Frame → Type 0 where
    wanted : {w : World T} {f : Frame} → Brings w f → f.op ≡ want → Answers w (ok f)
    behind_stale :
        {w : World T} {r : Result Frame} {g : Frame}
        → Brings w g
        → g.op ≢ want
        → Answers (after_read w) r
        → Answers w r
    unreadable :
        {w : World T} {e : Error}
        → (T.now w).0 < deadline
        → decode_reading T (T.read (deadline - (T.now w).0) (T.now w).1).0 ≡ err e
        → Answers w (err e)
    expired : {w : World T} → deadline ≤ (T.now w).0 → Answers w (err timeout)

  round :
      (s : Session (World T)) (fuel : ℕ) (g : Frame)
      → Brings s.world g
      → await_loop T (suc fuel) want deadline s
        ≡ (if g.op == want then pure g else await_loop T fuel want deadline)
            (record s { world = after_read s.world })
  unfolding await_loop require read_report lift ◌>>=◌ read now
  round s fuel g (early, (b, e, d)) = rw (lt→ltb _ _ early, e, d) refl

  last_round :
      (s : Session (World T)) (fuel : ℕ) {e : Error}
      → (T.now s.world).0 < deadline
      → decode_reading T (T.read (deadline - (T.now s.world).0) (T.now s.world).1).0 ≡ err e
      → (await_loop T (suc fuel) want deadline s).0 ≡ err e
  unfolding await_loop require read_report lift ◌>>=◌ read now
  last_round s fuel early e = rw (lt→ltb _ _ early, e) refl

  no_round :
      (s : Session (World T)) (fuel : ℕ)
      → deadline ≤ (T.now s.world).0
      → (await_loop T (suc fuel) want deadline s).0 ≡ err timeout
  unfolding await_loop require lift ◌>>=◌ now
  no_round s fuel late = rw (ge→ltb (T.now s.world).0 deadline late) refl

  module _ (clock : World T → ℕ) (tick : Ticking T clock) where
    later : (w : World T) → clock w < clock (after_read w)
    later w = omega (arith, tick.timing w, tick.reading (deadline - (T.now w).0) (T.now w).1)

    await_loop-Answers :
        (fuel : ℕ) (s : Session (World T)) {r : Result Frame}
        → deadline ≤ clock s.world + fuel
        → Answers s.world r
        → (await_loop T (suc fuel) want deadline s).0 ≡ r
    await_loop-Answers fuel s h (wanted {f = f} b m) =
        rw (round s fuel f b, (==_iff f.op want).1 m) (unfold pure in refl)
    await_loop-Answers fuel s h (unreadable early e) = last_round s fuel early e
    await_loop-Answers fuel s h (expired late) = no_round s fuel late
    await_loop-Answers zero s h (behind_stale (early, b) m a) =
        absurd (omega (arith, tick.shown s.world))
    await_loop-Answers (suc fuel) s h (behind_stale {g = g} b m a) =
        rw (round s (suc fuel) g b, differ g.op want m)
          (await_loop-Answers fuel (record s { world = after_read s.world })
            (omega (arith, later s.world)) a)

module _ (T : Transport) (clock : World T → ℕ) (tick : Ticking T clock) where
  -- On a clock that does not go back and where each read takes some time, `awaitReply` returns
  -- the reply to its request however many reports of other operations come before it, if each
  -- read begins before the deadline; it returns the error of a report that cannot be read or
  -- decoded, and a timeout if a read times out or the deadline passes first.
  pub await_reply-Answers :
      (want wait : ℕ) (s : Session (World T)) {r : Result Frame}
      → Answers T want ((T.now s.world).0 + wait) (T.now s.world).1 r
      → (await_reply T want wait s).0 ≡ r
  unfolding await_reply ◌>>=◌ now
  await_reply-Answers want wait s a =
      let n : wait + 1 ≡ suc wait = omega arith in
      rw n (
        await_loop-Answers T want ((T.now s.world).0 + wait) clock tick wait
          (record s { world = (T.now s.world).1 })
          (omega (arith, tick.shown s.world, tick.timing s.world)) a)
