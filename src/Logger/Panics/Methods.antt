-- ===== src/Logger/Panics/Methods.antt =====
-- internal/elitech/logger.go: whether the methods panic, on any device.
use go_elite_log.Base.{
  ℕ, zero, suc, ◌≡◌, ◌≢◌, ◌≤◌, refl, ◌∙◌, ap, arith, Bool, true, false, Option, none, some, List,
  [], ◌∷◌, length, take, length-take, All,
}
use go_elite_log.Base.Result.{panicked}
use go_elite_log.Base.Step.Preserve.{Any}
use go_elite_log.Base.Step.Safe.{
  Safe, Safe-lift_any, Safe-pure, Safe-pure_any, Safe-gets, Safe-require, Safe-bind, Safe-attempt,
  Safe-if, Safe-option,
}
use go_elite_log.Frame.{op_stop, Frame, op_format}
use go_elite_log.Info.{Counts}
use go_elite_log.Logger.Transport.{Transport, World, Action, Outcome, attempt, ◌>>=◌}
use go_elite_log.Logger.Exchange.{get, timeout_get}
use go_elite_log.Logger.Identity.{
  info, status_blocks, read_status, prime_with, prime, count_tries, read_capacity_count,
  decode_counts,
}
use go_elite_log.Logger.Configure.{
  stop, stop_reply, Settings, Block, config_blocks, modify, patch_blocks, read_blocks, write_blocks,
  clock_if, format, commit, may_erase, configure,
}
use go_elite_log.Logger.Panics.{
  Safe-now, Safe-sleep, Safe-close, Safe-set_protocol, Safe-drain, Safe-read_report, Safe-send,
  Safe-get_with, Safe-get, Safe-set_parameter, Safe-read_op5,
}

length-modify :
    (i : ℕ) (f : List ℕ → List ℕ) (bs : List (List ℕ)) → length (modify i f bs) ≡ length bs
unfolding modify
length-modify i f [] = refl
length-modify zero f (b ∷ bs) = refl
length-modify (suc i) f (b ∷ bs) = ap suc (length-modify i f bs)

pub length-patch_blocks :
    (s : Settings) (clock : Option ℕ) (bs : List (List ℕ))
    → length (patch_blocks s clock bs) ≡ length bs
unfolding patch_blocks
length-patch_blocks s none bs = length-modify 2 _ _ ∙ length-modify 1 _ _ ∙ length-modify 0 _ bs
length-patch_blocks s (some t) bs =
    length-modify 2 _ _ ∙ length-modify 1 _ _ ∙ length-modify 0 _ _ ∙ length-modify 0 _ bs

module _ (T : Transport) where
  pub Safe-prime_with : (wait : ℕ) → Safe Any (prime_with T wait)
  unfolding prime_with
  Safe-prime_with wait = Safe-bind (Safe-get_with T 0x00 14 wait) (λ idb u.
      Safe-bind (Safe-get_with T 0x94 2 wait)
        (λ pb v. Safe-bind (Safe-set_protocol T _) (λ x y. Safe-pure_any _)))

  pub Safe-prime : Safe Any (prime T)
  unfolding prime
  Safe-prime = Safe-prime_with timeout_get

  Safe-count_tries : (tries : ℕ) (first : Bool) → Safe Any (count_tries T tries first)
  unfolding count_tries
  Safe-count_tries zero first = Safe-pure_any none
  Safe-count_tries (suc tries) first =
      Safe-bind (Safe-if first (Safe-pure_any tt) (Safe-sleep T _)) (λ u v.
        Safe-bind (Safe-attempt (Safe-get T 0x42 10)) (λ b w. Safe-bind (Safe-gets _) (λ p x.
          Safe-option (decode_counts T p b) (Safe-count_tries tries false)
            (λ c. Safe-pure_any (some c)))))

  pub Safe-read_capacity_count : Safe Any (read_capacity_count T)
  unfolding read_capacity_count
  Safe-read_capacity_count = Safe-count_tries 3 true

  Safe-read_blocks : (bs : List Block) → Safe (λ ps. length ps ≡ length bs) (read_blocks T bs)
  unfolding read_blocks
  Safe-read_blocks [] = Safe-pure _ [] refl
  Safe-read_blocks (b ∷ bs) = Safe-bind (Safe-get T b.offset b.size) (λ payload u.
      Safe-bind (Safe-read_blocks bs) (λ rest e. Safe-pure _ (payload ∷ rest) (ap suc e)))

  -- No block is sent with more bytes than a report holds.
  Safe-write_blocks :
      (bs : List Block) (ps : List (List ℕ))
      → All (λ b. b.written ≤ 52) bs
      → length ps ≡ length bs
      → Safe Any (write_blocks T bs ps)
  unfolding write_blocks
  Safe-write_blocks [] ps small e = Safe-pure_any tt
  Safe-write_blocks (b ∷ bs) [] small e = absurd (omega arith)
  Safe-write_blocks (b ∷ bs) (payload ∷ rest) (hb, hs) e =
      Safe-bind
        (Safe-set_parameter T b.offset b.declared (take b.written payload)
          (omega (arith, length-take b.written payload)))
        (λ u v. Safe-write_blocks bs rest hs (omega arith))

  Safe-clock_if : (b : Bool) → Safe Any (clock_if T b)
  Safe-clock_if true = Safe-bind (Safe-now T) (λ t u. Safe-pure_any _)
  Safe-clock_if false = Safe-pure_any none

  Safe-format : Safe Any (format T)
  unfolding format
  Safe-format = Safe-bind (Safe-drain T) (λ u v.
      Safe-bind (Safe-send T op_format 0 1 (0 ∷ []) (omega arith)) (λ u v.
        Safe-bind (Safe-attempt (Safe-read_report T _))
          (λ r w. Safe-bind (Safe-sleep T _) (λ u v. Safe-close T))))

  Safe-commit : (s : Settings) → Safe Any (commit T s)
  unfolding commit
  Safe-commit s = Safe-bind (Safe-read_blocks config_blocks) (λ blocks e.
      Safe-bind (Safe-clock_if s.sync_clock) (λ clock u.
        Safe-bind
          (Safe-write_blocks config_blocks (patch_blocks s clock blocks) few
            (length-patch_blocks s clock blocks ∙ e))
          (λ u v. Safe-format)))
    where
      few : All (λ b. b.written ≤ 52) config_blocks
      few = (
        omega arith,
        (omega arith, (omega arith, (omega arith, (omega arith, (omega arith, tt))))),
      )

  may_erase-ne-panicked : (confirmed : ℕ) (o : Option Counts) → may_erase T confirmed o ≢ panicked
  may_erase-ne-panicked confirmed none e = cc
  may_erase-ne-panicked confirmed (some c) e = ground arith

  pub Safe-configure : (s : Settings) (confirmed : ℕ) → Safe Any (configure T s confirmed)
  unfolding configure
  Safe-configure s confirmed = Safe-bind (Safe-require _ _) (λ u v. Safe-bind Safe-prime (λ id w.
      Safe-bind Safe-read_capacity_count (λ counts x.
        Safe-bind (Safe-lift_any _ (may_erase-ne-panicked confirmed counts))
          (λ u v. Safe-commit s))))

  Safe-status_blocks : Safe Any (status_blocks T)
  unfolding status_blocks
  Safe-status_blocks = Safe-bind (Safe-read_op5 T 0x00 0x20) (λ h u.
      Safe-bind (Safe-read_op5 T 0x80 0x30)
        (λ t v. Safe-bind (Safe-read_op5 T 0xB0 0x10) (λ m w. Safe-pure_any _)))

  pub Safe-read_status : Safe Any (read_status T)
  unfolding read_status
  Safe-read_status = Safe-bind (Safe-attempt Safe-status_blocks) (λ st u. Safe-pure_any _)

  pub Safe-then_get :
      (offset n : ℕ) {A : Type 0} {f : Outcome (List ℕ) → Action (World T) A}
      → ((o : Outcome (List ℕ)) → Safe Any (f o))
      → Safe Any (attempt (get T offset n) >>= f)
  Safe-then_get offset n h = Safe-bind (Safe-attempt (Safe-get T offset n)) (λ o u. h o)

  pub Safe-info : Safe Any (info T)
  unfolding info
  Safe-info = Safe-bind Safe-prime (λ id u. Safe-bind Safe-read_capacity_count (λ counts u.
      Safe-then_get 0x4C 2 (λ iv. Safe-then_get 0x20 1 (λ start. Safe-then_get 0x21 1 (λ unit.
        Safe-then_get 0x26 2 (λ battery. Safe-then_get 0x28 7 (λ configured.
          Safe-then_get 0x30 15 (λ runtime.
            Safe-then_get 0x88 7
              (λ clock. Safe-bind Safe-read_status (λ st u. Safe-pure_any _))))))))))

  stop_reply-ne-panicked : (o : Outcome Frame) → stop_reply T o ≢ panicked
  stop_reply-ne-panicked o e = ground arith

  pub Safe-stop : Safe Any (stop T)
  unfolding stop
  Safe-stop = Safe-bind Safe-prime (λ id u. Safe-bind (Safe-drain T) (λ u v.
      Safe-bind (Safe-send T op_stop 0 1 (0 ∷ []) (omega arith)) (λ u v.
        Safe-bind (Safe-attempt (Safe-read_report T _))
          (λ r w. Safe-lift_any _ (stop_reply-ne-panicked r)))))
