-- ===== src/Logger/Logic/Methods/Records.antt =====
-- internal/elitech/logger.go: `Records`, and what it is made of.
use go_elite_log.Base.{
  ℕ, zero, suc, ◌+◌, ◌*◌, ◌<◌, Bool, false, Option, none, some, List, [], ◌∷◌, arith, All,
  Bool-cases, inl, inr,
}
use go_elite_log.Base.Int.{ℤ, pos, pos_part, ◌+ℤ◌, ◌-ℤ◌, ltb_ℤ}
use go_elite_log.Base.Result.{Error}
use go_elite_log.Frame.{Frame, op_get_record, op_get_parameter, op_read05}
use go_elite_log.Logger.Transport.{Transport, Outcome, attempt}
use go_elite_log.Logger.Exchange.{timeout_get}
use go_elite_log.Logger.Download.{
  connect_preamble, pause_preamble, pause_after_records, preamble_from, send_connect_preamble,
  get_record_packet, request_packet, records_loop, download_from, clean_up, records, first_offset,
}
use go_elite_log.Logger.Exchange.{timeout_get_cleanup}
use go_elite_log.Record.{Sample}
use go_elite_log.Calendar.{Time}
use go_elite_log.Logger.Logic.{Logic}
use go_elite_log.Logger.Logic.Methods.{
  rounds_enough, fewer, of_pure, of_raise, of_if, of_option, of_outcome, of_drain, of_read_report,
  of_prime_with, of_prime, of_read_capacity_count, of_try, of_read_status,
}

module _ (T : Transport) (L : Logic T) (sends_get : L.Sends op_get_parameter)
    (sends_read05 : L.Sends op_read05) (sends_record : L.Sends op_get_record) where
  open L use {
    Holds, Sends, of_bind, of_lift, of_gets, of_attempt, of_set_protocol, of_read, of_now, of_sleep,
    of_close, of_send, of_await_reply, of_get_record_packet,
  }

  of_preamble_from :
      (ps : List (ℕ × ℕ × ℕ)) → All (λ p. Sends p.0) ps → Holds (Unit {0}) (preamble_from T ps)
  unfolding preamble_from
  of_preamble_from [] h = of_pure T L _ tt
  of_preamble_from ((o, offset, n) ∷ ps) h =
      of_bind _ _ _ _ (of_attempt _ _ (of_send o offset n [] h.0)) (λ sent.
        of_outcome T L _ _ sent _ _ (λ e. of_pure T L _ tt)
          (λ u.
            of_bind _ _ _ _ (of_attempt _ _ (of_read_report T L timeout_get))
              (λ r. of_bind _ _ _ _ (of_sleep pause_preamble) (λ u'. of_preamble_from ps h.1))))

  of_send_connect_preamble : Holds (Unit {0}) (send_connect_preamble T)
  unfolding send_connect_preamble
  of_send_connect_preamble = of_bind _ _ _ _ (of_drain T L) (λ u.
      of_preamble_from connect_preamble (
        let g = sends_get in
        let r = sends_read05 in
        (g, (g, (g, (g, (g, (g, (r, (r, (r, (r, (r, (r, (r, (r, (r, (g, (g, tt)))))))))))))))))))

  of_packet : (off : ℕ) → Holds (Outcome Frame) (attempt (get_record_packet T off))
  of_packet off = of_attempt _ _ (of_get_record_packet off sends_record)

  of_request_packet :
      (sent : Bool) (off : ℕ) → Holds (Outcome Frame × Bool) (request_packet T sent off)
  unfolding request_packet
  of_request_packet sent off = of_bind _ _ _ _ (of_packet off) (λ f.
      of_if T L _ _ _ _
        (of_bind _ _ _ _ of_send_connect_preamble
          (λ u. of_bind _ _ _ _ (of_packet off) (λ again. of_pure T L _ _)))
        (of_pure T L _ _))

  -- The fuel is more than the packets that are left.
  pub of_records_loop :
      (fuel count : ℕ) (started : Time) (interval : ℕ) (start off : ℤ) (sent : Bool)
      (recs : List Sample)
      → pos_part (pos count -ℤ off) + 5 < 6 * fuel
      → Holds
          (List Sample × Option Error)
          (records_loop T fuel count started interval start off sent recs)
  unfolding records_loop
  of_records_loop zero count started interval start off sent recs h = absurd (omega arith)
  of_records_loop (suc fuel) count started interval start off sent recs h =
      elim (Bool-cases (ltb_ℤ off (pos count))) [
        | inl more ↦ rw more (
            of_bind _ _ _ _ (of_request_packet sent _) (λ r. of_bind _ _ _ _ (of_gets _ _) (λ p.
              of_outcome T L _ _ r.0 _ _ (λ e. of_pure T L _ _)
                (λ f.
                  of_records_loop fuel count started interval start (off +ℤ pos 6) r.1 _
                    (fewer fuel count off more h)))))
        | inr done ↦ rw done (of_pure T L _ _)
      ]

  of_clean_up : (r : List Sample × Option Error) → Holds (List Sample × Option Error) (clean_up T r)
  unfolding clean_up
  of_clean_up (recs, some e) = of_pure T L _ _
  of_clean_up (recs, none) = of_bind _ _ _ _ (of_sleep pause_after_records) (λ u.
      of_bind _ _ _ _ (of_attempt _ _ (of_prime_with T L sends_get timeout_get_cleanup))
        (λ id. of_pure T L _ _))

  of_download_from :
      (start : ℤ) (count : ℕ) → Holds (List Sample × Option Error) (download_from T start count)
  unfolding download_from
  of_download_from start count = of_bind _ _ _ _ (of_read_status T L sends_get sends_read05) (λ st.
      of_try T L sends_get 0x4C 2 _ (λ iv.
        of_bind _ _ _ _
          (of_records_loop _ count _ _ _ _ false [] (rounds_enough (first_offset start) count))
          (λ r. of_clean_up r)))

  pub of_records : (last : ℤ) → Holds (List Sample × Option Error) (records T last)
  unfolding records
  of_records last = of_bind _ _ _ _ (of_prime T L sends_get) (λ id.
      of_bind _ _ _ _ (of_read_capacity_count T L sends_get) (λ counts.
        of_option T L _ _ counts _ _ (of_raise T L _ _)
          (λ c. of_if T L _ _ _ _ (of_pure T L _ _) (of_download_from _ c.count))))
