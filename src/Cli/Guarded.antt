-- ===== src/Cli/Guarded.antt =====
-- cmd/elitelog/main.go: what the commands write to a logger.
use go_elite_log.Base.{ℕ, ◌%◌, ◌^◌, ◌≡◌, ◌⊎◌, inl, inr, refl, subst, arith, true, Option, List, All}
use go_elite_log.Base.Result.{Error}
use go_elite_log.Base.Step.{Step}
use go_elite_log.Base.Step.Preserve.{Keeps, Any, keeps, Keeps-pure}
use go_elite_log.Text.{Text}
use go_elite_log.Hid.{Device, Tree}
use go_elite_log.Logger.Transport.{Transport, World}
use go_elite_log.Logger.Requests.{recorder, IsRead, log_of}
use go_elite_log.Service.Counted.{Counted}
use go_elite_log.Loggers.{service_find, Loggers, Keeping}
use go_elite_log.Loggers.Guarded.{recorded, Erasable, Inv, Allowed, keeping, ends}
use go_elite_log.Cli.Invariants.{
  is_quiet, peeks_reads, open_raw, raw-OnlyReads, of_peek, of_run, of_command,
}
use go_elite_log.Cli.{
  Flags, Parsed, parsed, leaves, Command, start_command, peek_command, command_of, arguments,
  Printed, peek, with_flags, main, run_command,
}

-- `start` agrees to erase an empty store, and as many records as the flag says, as a uint32.
abbrev pub Confirmed : Parsed (ℕ × ℕ) → ℕ → Type 0
Confirmed (parsed (interval, confirm)) count = (count ≡ 0) ⊎ (count ≡ confirm % 2 ^ 32)
Confirmed (leaves code) count = count ≡ 0

Confirmed-zero : (p : Parsed (ℕ × ℕ)) → Confirmed p 0
Confirmed-zero (parsed (interval, confirm)) = inl refl
Confirmed-zero (leaves code) = refl

Confirmed-flag : (q : Parsed (ℕ × ℕ)) (p : ℕ × ℕ) → q ≡ parsed p → Confirmed q (p.1 % 2 ^ 32)
Confirmed-flag q p e = rw e (inr refl)

-- No other command agrees to erase anything.
abbrev pub Agreed : Flags → Command → List Text → ℕ → Type 0
Agreed flags c args count = (c ≡ start_command) × Confirmed (flags.start_flags args) count

module _ (T : Transport) (open_device : Device → World T → Option Error × World T) (dev_root : Text)
    (tree : World T → Tree) (flags : Flags)
    (listen : Text → Step (World (recorder T)) (Unit {0})) where
  abbrev R : Transport
  R = recorder T

  abbrev service : Loggers
  service = recorded T open_device dev_root tree

  abbrev OnlyReads : World R → Type 0
  OnlyReads w = All IsRead (log_of T w)

  abbrev peeking : Device → ℕ → ℕ → ℕ → Step (World (recorder T)) (List ℕ)
  peeking = open_raw T open_device dev_root tree flags

  abbrev pub elitelog : List Text → Step (World (recorder T)) (ℕ × List Printed)
  elitelog = main service flags listen peeking

  find-Keeps : Keeps OnlyReads Any service.find
  unfolding service_find
  find-Keeps = keeps (λ w h. (h, λ a e. tt))

  peek-OnlyReads :
      (p : Parsed (ℕ × ℕ × ℕ))
      → peeks_reads p ≡ true
      → Keeps OnlyReads Any (
          with_flags service flags listen peeking p
            (λ q. peek service flags listen peeking q.0 q.1 q.2))
  peek-OnlyReads (parsed (operation, offset, n)) e =
      of_run T open_device dev_root tree flags listen OnlyReads find-Keeps _ (
        of_peek T open_device dev_root tree flags listen OnlyReads find-Keeps operation offset n
          (λ dev. keeps (λ v h. (
            raw-OnlyReads T open_device dev_root tree flags dev (operation % 2 ^ 16)
                (offset % 2 ^ 32) (n % 2 ^ 8) (omega arith) e v h,
            λ a q. tt,
          ))))
  peek-OnlyReads (leaves code) e = Keeps-pure OnlyReads _

  abbrev pub StartErases : List Text → World (recorder T) → Type 0
  StartErases args w =
      Erasable T open_device dev_root tree (Agreed flags (command_of args) (arguments args)) w

  world_of :
      {A : Type 0} {m : Step (World R) A}
      → Keeps OnlyReads Any m
      → (w : World R) → OnlyReads w
      → OnlyReads (m w).1
  world_of (keeps k) w h = (k w h).0

  by_command :
      (c : Command) (args : List Text) (w : World R)
      → OnlyReads w
      → is_quiet flags c args ≡ true
      → OnlyReads (run_command service flags listen peeking c args w).1
        ⊎ Erasable T open_device dev_root tree (Agreed flags c args) w
  by_command c args w h e =
      let Agrees : ℕ → Type 0 = Agreed flags c args in
      let K : Keeping service (Inv T open_device dev_root tree Agrees w) Counted
          (Allowed T open_device dev_root tree Agrees w) =
        keeping T open_device dev_root tree Agrees w in
      elim (of_command T open_device dev_root tree flags listen
        (Inv T open_device dev_root tree Agrees w) (Allowed T open_device dev_root tree Agrees w) K
        c args
        (λ p set start q. (
          (start, Confirmed-zero (flags.start_flags args)),
          (start, Confirmed-flag (flags.start_flags args) p q),
        ))
        e) [
          | inl peeks ↦ inl (of_peek_command c args peeks w h e)
          | inr k ↦ ends T open_device dev_root tree Agrees w k h
        ]
    where
      of_peek_command :
          (c : Command) (args : List Text)
          → c ≡ peek_command
          → (w : World R) → OnlyReads w
          → is_quiet flags c args ≡ true
          → OnlyReads (run_command service flags listen peeking c args w).1
      of_peek_command c args p w h e = rw p (
          let q : is_quiet flags peek_command args ≡ true =
            subst (λ k. is_quiet flags k args ≡ true) p e in
          world_of (peek-OnlyReads (flags.peek_flags args) q) w h)

  -- From a log of read requests only, and for any arguments but those of `serve`, of `stop` and
  -- of a `peek` whose operation (cut to 16 bits) is not GetRecord, GetParameter or Read05, `main`
  -- writes read requests only, or the command is `start` and calls of the service reach a world
  -- where an opened device reports a count of 0 or the count of `-confirm` modulo 2^32.
  pub main_guarded :
      (args : List Text) (w : World (recorder T))
      → All IsRead (log_of T w)
      → is_quiet flags (command_of args) (arguments args) ≡ true
      → All IsRead (log_of T (elitelog args w).1) ⊎ StartErases args w
  unfolding main
  main_guarded args w h e = by_command (command_of args) (arguments args) w h e
