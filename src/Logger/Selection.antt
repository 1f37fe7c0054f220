-- ===== src/Logger/Selection.antt =====
-- internal/elitech/logger.go: which records `Records` returns as a whole.
use go_elite_log.Base.{
  ℕ, ◌*◌, ◌/◌, ◌^◌, ◌≤◌, ◌<◌, ◌≡◌, refl, ap, ◌∙◌, arith, false, List, [], length, inl, inr,
  Bool-cases, if◌then◌else◌, Option, none, some, option_or, ◌==◌,
}
use go_elite_log.Base.Int.{pos}
use go_elite_log.Base.Result.{ok, Error, count_unknown}
use go_elite_log.Info.{Counts}
use go_elite_log.Record.{Sample}
use go_elite_log.Logger.Transport.{
  Transport, World, Session, pure, raise, ◌>>◌, >>=-eq-ok, >>=_state,
}
use go_elite_log.Logger.Identity.{prime, read_capacity_count}
use go_elite_log.Logger.Download.{wanted_start, clean_up, download_from, records}
use go_elite_log.Logger.Slots.{
  newest_from, wanted_start_lem, Within, Within-le, Within-more, later, records_loop-Within,
}

module _ (T : Transport) where
  clean_up_same :
      (r : List Sample × Option Error) (s : Session (World T)) {out : List Sample × Option Error}
      → (clean_up T r s).0 ≡ ok out
      → r.0 ≡ out.0
  unfolding clean_up pure
  clean_up_same (recs, some e) s q = ground arith
  clean_up_same (recs, none) s q =
      let (u, p1, q1) = >>=-eq-ok _ _ s q in let (id, p2, q2) = >>=-eq-ok _ _ _ q1 in ground arith

  download_from-Within :
      (start count : ℕ) (s : Session (World T)) {out : List Sample} {e : Option Error}
      → start ≤ count
      → (download_from T (pos start) count s).0 ≡ ok (out, e)
      → Within start count out
  unfolding download_from
  download_from-Within start count s {out} le q =
      let (st, p1, q1) = >>=-eq-ok _ _ s q in
      let (iv, p2, q2) = >>=-eq-ok _ _ _ q1 in
      let (r, p3, q3) = >>=-eq-ok _ _ _ q2 in
      let all =
        records_loop-Within T _ _ start count _ (start / 6 * 6) false [] _ p3 (ground arith) in
      Within-more start (later start count) count out (ground arith)
        (rw (clean_up_same r _ q3) at all)

  by_count :
      (last : ℕ) (counts : Option Counts) (s : Session (World T)) {out : List Sample}
      {e : Option Error}
      → last < 2 ^ 32
      → (option_or
          (raise count_unknown)
          (λ c.
            if c.count == 0
            then pure ([], none)
            else download_from T (wanted_start (pos last) c.count) c.count)
          counts
          s).0
        ≡ ok (out, e)
      → (c : Counts) × (counts ≡ some c) × Within (newest_from last c.count) c.count out
  unfolding raise pure
  by_count last none s h q = cc
  by_count last (some c) s {out} h q = elim (Bool-cases (c.count == 0)) [
    | inl empty ↦
        let none_read : [] ≡ out = cc (rw empty at q) in (c, refl, rw (← none_read) (ground arith))
    | inr more ↦ (
      c,
      refl,
      download_from-Within (newest_from last c.count) c.count s (ground arith)
          (rw (more, wanted_start_lem last c.count h) at q),
    )
  ]

  -- If `Records(last)` with 0 ≤ last < 2^32 returns records, with an error or without, then the
  -- device has reported a count, the indices of the records strictly increase, and they lie
  -- between the start of the newest `last` of that count (0 if `last` is 0 or not below the
  -- count) and the count.
  pub records_window :
      (last : ℕ) (s : Session (World T)) {out : List Sample} {e : Option Error}
      → last < 2 ^ 32
      → (records T (pos last) s).0 ≡ ok (out, e)
      → (c : Counts) × (((prime T >> read_capacity_count T) s).0 ≡ ok (some c))
        × Within (newest_from last c.count) c.count out
  unfolding records
  records_window last s {out} {e} h q =
      let (id, p1, q1) = >>=-eq-ok _ _ s q in
      let (counts, p2, q2) = >>=-eq-ok _ _ _ q1 in
      let (c, p3, w) = by_count last counts _ h q2 in
      (c, ap (λ r. r.0) (>>=_state (prime T) (λ _. read_capacity_count T) s p1) ∙ p2 ∙ ap ok p3, w)

  -- If `Records(last)` with 0 < last < 2^32 returns records, with an error or without, there are
  -- at most `last` of them.
  length-records :
      (last : ℕ) (s : Session (World T)) {out : List Sample} {e : Option Error}
      → last < 2 ^ 32
      → 0 < last
      → (records T (pos last) s).0 ≡ ok (out, e)
      → length out ≤ last
  length-records last s {out} h p q =
      let (c, e, w) = records_window last s h q in
      let fits = Within-le (newest_from last c.count) c.count out w in ground arith
