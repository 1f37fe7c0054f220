-- ===== src/Logger/Erase.antt =====
-- internal/elitech/logger.go: when `Configure` changes the device.
use go_elite_log.Base.{
  ℕ, ◌≡◌, ◌⊎◌, inl, inr, refl, arith, Bool, true, false, ◌&&◌, Option, none, some, ◌!=◌, All,
  Bool-cases,
}
use go_elite_log.Base.Result.{Result, ok, err, panicked, stuck, records_present, invalid_interval}
use go_elite_log.Info.{Counts}
use go_elite_log.Logger.Transport.{
  Transport, World, Session, lift, require, continue_with, ◌>>=◌, ◌>>◌,
}
use go_elite_log.Logger.Identity.{Identity, prime, read_capacity_count}
use go_elite_log.Logger.Configure.{Settings, valid_interval, may_erase, commit, configure}
use go_elite_log.Logger.Requests.{recorder, IsRead, log_of, reads_logic, sends_read, reads_keep}
use go_elite_log.Logger.Logic.Methods.{of_prime, of_read_capacity_count}

module _ (T : Transport) (set : Settings) (confirmed : ℕ) where
  abbrev R : Transport
  R = recorder T

  -- The device reported a count for which the erasure was confirmed, or an empty store.
  abbrev pub Confirmed : Result (Option Counts) → Type 0
  Confirmed r = (c : Counts) × (r ≡ ok (some c)) × ((c.count ≡ 0) ⊎ (c.count ≡ confirmed))

  abbrev OnlyReads : Session (World R) → Type 0
  OnlyReads s = All IsRead (log_of T s.world)

  may_erase_lem :
      (c : Counts)
      → (may_erase R confirmed (some c) ≡ err records_present)
        ⊎ ((c.count ≡ 0) ⊎ (c.count ≡ confirmed))
  may_erase_lem c = elim (Bool-cases ((c.count != 0) && (c.count != confirmed))) [
    | inl refused ↦ inl (rw refused)
    | inr passed ↦ inr (grind arith)
  ]

  after_counts :
      (r : Result (Option Counts)) (s : Session (World R))
      → OnlyReads s
      → OnlyReads
          (continue_with
            (λ counts. lift (may_erase R confirmed counts) >>= (λ _. commit R set))
            r
            s).1
        ⊎ Confirmed r
  unfolding lift ◌>>=◌
  after_counts (ok none) s h = inl h
  after_counts (ok (some c)) s h = elim (may_erase_lem c) [
    | inl refused ↦ inl (rw refused h)
    | inr passed ↦ inr (c, refl, passed)
  ]
  after_counts (err e) s h = inl h
  after_counts panicked s h = inl h
  after_counts stuck s h = inl h

  counted_reads : (s : Session (World R)) → OnlyReads s → OnlyReads (read_capacity_count R s).1
  counted_reads =
      reads_keep T _ _
        (of_read_capacity_count R (reads_logic T) (sends_read T 3 (omega arith) refl))

  prime_reads : (s : Session (World R)) → OnlyReads s → OnlyReads (prime R s).1
  prime_reads = reads_keep T _ _ (of_prime R (reads_logic T) (sends_read T 3 (omega arith) refl))

  after_prime :
      (r : Result Identity) (s : Session (World R))
      → OnlyReads s
      → OnlyReads
          (continue_with
            (λ id.
              read_capacity_count R
              >>= (λ counts. lift (may_erase R confirmed counts) >>= (λ _. commit R set)))
            r
            s).1
        ⊎ Confirmed (continue_with (λ _. read_capacity_count R) r s).0
  after_prime (ok id) s h =
      unfold ◌>>=◌ in
      after_counts (read_capacity_count R s).0 (read_capacity_count R s).1 (counted_reads s h)
  after_prime (err e) s h = inl h
  after_prime panicked s h = inl h
  after_prime stuck s h = inl h

  after_valid :
      (b : Bool) (s : Session (World R))
      → OnlyReads s
      → OnlyReads
          ((require b invalid_interval >>= (λ _. prime R >>= (λ id.
              read_capacity_count R
              >>= (λ counts. lift (may_erase R confirmed counts) >>= (λ _. commit R set)))))
            s).1
        ⊎ ((b ≡ true) × Confirmed ((prime R >>= (λ _. read_capacity_count R)) s).0)
  unfolding require ◌>>=◌
  after_valid false s h = inl h
  after_valid true s h = elim (after_prime (prime R s).0 (prime R s).1 (prime_reads s h)) [
    | inl reads ↦ inl reads
    | inr allowed ↦ inr (refl, allowed)
  ]

  -- On any transport, and starting from a log of read requests only, `Configure` either writes
  -- read requests only (GetRecord, GetParameter, Read05), or the interval is valid and the count
  -- that the device reports is 0 or the one that the caller confirmed.
  pub configure_guarded :
      (s : Session (World (recorder T)))
      → All IsRead (log_of T s.world)
      → All IsRead (log_of T (configure (recorder T) set confirmed s).1.world)
        ⊎ ((valid_interval set.interval ≡ true)
            × Confirmed ((prime (recorder T) >> read_capacity_count (recorder T)) s).0)
  unfolding configure
  configure_guarded s h = after_valid (valid_interval set.interval) s h
