-- ===== src/Logger/Panics/Packets.antt =====
-- internal/elitech/logger.go: whether the download panics, and so any method, on any device.
use go_elite_log.Base.{
  ℕ, zero, suc, ◌≢◌, arith, Bool, true, false, Option, none, some, List, [], ◌∷◌, ◌==◌, ltb,
}
use go_elite_log.Base.Result.{panicked, Error, timeout}
use go_elite_log.Base.Step.Preserve.{Any}
use go_elite_log.Base.Step.Safe.{
  Safe, Safe-pure_any, Safe-raise, Safe-out_of_fuel, Safe-gets, Safe-bind, Safe-attempt, Safe-if,
  Safe-option, result-ne-panicked,
}
use go_elite_log.Frame.{Frame}
use go_elite_log.Logger.Transport.{Transport, World, Session, Action, Outcome}
use go_elite_log.Logger.Exchange.{timeout_get}
use go_elite_log.Logger.Identity.{info}
use go_elite_log.Logger.Configure.{stop, Settings, configure}
use go_elite_log.Logger.Panics.{
  Safe-now, Safe-sleep, Safe-drain, Safe-read_report, Safe-send, Safe-await_reply,
}
use go_elite_log.Base.Int.{ℤ}
use go_elite_log.Base.Step.{outcome_or, got, lost}
use go_elite_log.Calendar.{Time}
use go_elite_log.Frame.{op_get_record}
use go_elite_log.Record.{Sample}
use go_elite_log.Logger.Configure.{read_raw}
use go_elite_log.Logger.Download.{
  timeout_record_slice, Seen, nothing, acknowledged, packet, on_seen, classify, still_waiting,
  packet_loop, get_record_packet, connect_preamble, preamble_from, send_connect_preamble,
  request_packet, records_loop, clean_up, download_from, records, to_uint32,
}
use go_elite_log.Logger.Panics.Methods.{
  Safe-prime_with, Safe-prime, Safe-read_capacity_count, Safe-read_status, Safe-then_get,
  Safe-configure, Safe-info, Safe-stop,
}

module _ (T : Transport) where
  Safe-still_waiting : (deadline : ℕ) (saw_ack : Bool) → Safe Any (still_waiting T deadline saw_ack)
  unfolding still_waiting
  Safe-still_waiting deadline saw_ack = Safe-bind (Safe-now T) (λ t u.
      Safe-if (ltb t deadline) (Safe-pure_any true)
        (Safe-if saw_ack (Safe-bind (Safe-now T) (λ v w. Safe-pure_any _)) (Safe-pure_any false)))

  Safe-on_seen :
      (o : Seen) {m k : Action (World T) Frame} → Safe Any m → Safe Any k → Safe Any (on_seen m k o)
  Safe-on_seen nothing hm hk = hm
  Safe-on_seen acknowledged hm hk = hk
  Safe-on_seen (packet f) hm hk = Safe-pure_any f

  Safe-packet_loop :
      (fuel deadline : ℕ) (saw_ack : Bool) → Safe Any (packet_loop T fuel deadline saw_ack)
  unfolding packet_loop
  Safe-packet_loop zero deadline saw_ack = Safe-out_of_fuel
  Safe-packet_loop (suc fuel) deadline saw_ack =
      Safe-bind (Safe-still_waiting deadline saw_ack) (λ waiting u.
        Safe-bind (Safe-if waiting (Safe-pure_any tt) (Safe-raise timeout)) (λ x v.
          Safe-bind (Safe-attempt (Safe-read_report T timeout_record_slice)) (λ r w.
            Safe-bind (Safe-gets _) (λ p y.
              Safe-on_seen (classify p r) (Safe-packet_loop fuel deadline saw_ack)
                (Safe-packet_loop fuel deadline true)))))

  Safe-get_record_packet : (off : ℕ) → Safe Any (get_record_packet T off)
  unfolding get_record_packet
  Safe-get_record_packet off =
      Safe-bind (Safe-send T op_get_record off 6 [] (omega arith))
        (λ u v. Safe-bind (Safe-now T) (λ t w. Safe-packet_loop _ _ false))

  Safe-outcome :
      {A B : Type 0} (o : Outcome A) {m : Error → Action (World T) B} {k : A → Action (World T) B}
      → ((e : Error) → Safe Any (m e))
      → ((a : A) → Safe Any (k a))
      → Safe Any (outcome_or m k o)
  Safe-outcome (got a) hm hk = hk a
  Safe-outcome (lost e) hm hk = hm e

  Safe-preamble_from : (ps : List (ℕ × ℕ × ℕ)) → Safe Any (preamble_from T ps)
  unfolding preamble_from
  Safe-preamble_from [] = Safe-pure_any tt
  Safe-preamble_from ((o, offset, n) ∷ rest) =
      Safe-bind (Safe-attempt (Safe-send T o offset n [] (omega arith))) (λ sent u.
        Safe-outcome sent (λ e. Safe-pure_any tt)
          (λ x.
            Safe-bind (Safe-attempt (Safe-read_report T timeout_get))
              (λ r v. Safe-bind (Safe-sleep T _) (λ y w. Safe-preamble_from rest))))

  Safe-send_connect_preamble : Safe Any (send_connect_preamble T)
  unfolding send_connect_preamble
  Safe-send_connect_preamble = Safe-bind (Safe-drain T) (λ u v. Safe-preamble_from connect_preamble)

  Safe-request_packet : (sent : Bool) (off : ℕ) → Safe Any (request_packet T sent off)
  unfolding request_packet
  Safe-request_packet sent off = Safe-bind (Safe-attempt (Safe-get_record_packet off)) (λ f u.
      Safe-if _
        (Safe-bind Safe-send_connect_preamble (λ x v.
          Safe-bind (Safe-attempt (Safe-get_record_packet off)) (λ again w. Safe-pure_any _)))
        (Safe-pure_any _))

  Safe-records_loop :
      (fuel count : ℕ) (started : Time) (interval : ℕ) (start off : ℤ) (sent : Bool)
      (recs : List Sample)
      → Safe Any (records_loop T fuel count started interval start off sent recs)
  unfolding records_loop
  Safe-records_loop zero count started interval start off sent recs = Safe-out_of_fuel
  Safe-records_loop (suc fuel) count started interval start off sent recs =
      Safe-if _ (Safe-pure_any _) (
        Safe-bind (Safe-request_packet sent (to_uint32 off)) (λ x u. Safe-bind (Safe-gets _) (λ p v.
          Safe-outcome x.0 (λ e. Safe-pure_any _)
            (λ f. Safe-records_loop fuel count started interval start _ _ _))))

  Safe-clean_up : (r : List Sample × Option Error) → Safe Any (clean_up T r)
  unfolding clean_up
  Safe-clean_up (recs, some e) = Safe-pure_any _
  Safe-clean_up (recs, none) =
      Safe-bind (Safe-sleep T _)
        (λ u v. Safe-bind (Safe-attempt (Safe-prime_with T _)) (λ x w. Safe-pure_any _))

  Safe-download_from : (start : ℤ) (count : ℕ) → Safe Any (download_from T start count)
  unfolding download_from
  Safe-download_from start count = Safe-bind (Safe-read_status T) (λ status u.
      Safe-then_get T 0x4C 2
        (λ iv. Safe-bind (Safe-records_loop _ count _ _ start _ false []) (λ r v. Safe-clean_up r)))

  Safe-records : (last : ℤ) → Safe Any (records T last)
  unfolding records
  Safe-records last = Safe-bind (Safe-prime T) (λ id u.
      Safe-bind (Safe-read_capacity_count T) (λ counts v.
        Safe-option counts (Safe-raise _)
          (λ c. Safe-if (c.count == 0) (Safe-pure_any _) (Safe-download_from _ _))))

  Safe-read_raw : (operation offset n : ℕ) → Safe Any (read_raw T operation offset n)
  unfolding read_raw
  Safe-read_raw operation offset n = Safe-bind (Safe-prime T) (λ id u.
      Safe-bind (Safe-drain T) (λ x v.
        Safe-bind (Safe-send T operation offset n [] (omega arith))
          (λ y w. Safe-bind (Safe-await_reply T operation timeout_get) (λ f z. Safe-pure_any _))))

  -- On any transport, `Info`, `Records`, `Configure`, `Stop` and `ReadRaw` do not panic in
  -- `encodeFrame`, whose payloads all fit in a report, nor `Configure` on a block that was not
  -- read.
  pub never_panics :
      (s : Session (World T))
      → ((info T s).0 ≢ panicked)
        × ((last : ℤ) → (records T last s).0 ≢ panicked)
        × ((set : Settings) (confirmed : ℕ) → (configure T set confirmed s).0 ≢ panicked)
        × ((stop T s).0 ≢ panicked)
        × ((operation offset n : ℕ) → (read_raw T operation offset n s).0 ≢ panicked)
  never_panics s = (
    result-ne-panicked (Safe-info T) s,
    λ last. result-ne-panicked (Safe-records last) s,
    λ set confirmed. result-ne-panicked (Safe-configure T set confirmed) s,
    result-ne-panicked (Safe-stop T) s,
    λ operation offset n. result-ne-panicked (Safe-read_raw operation offset n) s,
  )
