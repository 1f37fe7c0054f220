-- ===== src/Cli/Invariants.antt =====
-- cmd/elitelog/main.go: what the commands keep, if the calls of the service keep it.
use go_elite_log.Base.{
  ℕ, ◌%◌, ◌^◌, ◌<◌, ◌≡◌, ◌⊎◌, inl, inr, refl, arith, Bool, true, false, ◌||◌, Option, none, some,
  List, All, ◌==◌,
}
use go_elite_log.Base.Int.{ℤ}
use go_elite_log.Base.Result.{Error, no_logger, unconfirmed}
use go_elite_log.Base.Step.{Step}
use go_elite_log.Base.Step.Preserve.{
  Keeps, Any, Keeps-bind, Keeps-lift, Keeps-raise, Keeps-pure, Keeps-attempt, Keeps-if,
  Keeps-option,
}
use go_elite_log.Frame.{op_get_record, op_get_parameter, op_read05}
use go_elite_log.Text.{Text}
use go_elite_log.Hid.{Device, Tree}
use go_elite_log.Logger.Transport.{Transport, World}
use go_elite_log.Logger.Identity.{DeviceInfo}
use go_elite_log.Logger.Configure.{Settings, read_raw}
use go_elite_log.Logger.Logic.Methods.Changing.{of_read_raw}
use go_elite_log.Logger.Requests.{recorder, IsRead, log_of, reads_logic, reads_keep, sends_read}
use go_elite_log.Service.{fresh, closing, if_opened, with_logger}
use go_elite_log.Service.Counted.{Counted}
use go_elite_log.Service.Guarded.{recorded_open}
use go_elite_log.Loggers.{Loggers, Keeping, first_of, all_or_error}
use go_elite_log.Loggers.Guarded.{recorded}
use go_elite_log.Cli.{
  Flags, Parsed, parsed, leaves, Command, serve_command, info_command, records_command,
  start_command, stop_command, peek_command, version_command, no_command, Printed, require_device,
  print_info, print_records, start_with, start_recording, peek, run, with_flags, run_command,
}

abbrev pub is_read_op : ℕ → Bool
is_read_op o = (o == op_get_record) || ((o == op_get_parameter) || (o == op_read05))

abbrev pub peeks_reads : Parsed (ℕ × ℕ × ℕ) → Bool
peeks_reads (parsed (operation, offset, n)) = is_read_op (operation % 2 ^ 16)
peeks_reads (leaves code) = true

-- The commands that are to erase nothing but what is agreed on.
abbrev pub is_quiet : Flags → Command → List Text → Bool
is_quiet flags serve_command args = false
is_quiet flags stop_command args = false
is_quiet flags peek_command args = peeks_reads (flags.peek_flags args)
is_quiet flags info_command args = true
is_quiet flags records_command args = true
is_quiet flags start_command args = true
is_quiet flags version_command args = true
is_quiet flags no_command args = true

module _ (T : Transport) (open_device : Device → World T → Option Error × World T) (dev_root : Text)
    (tree : World T → Tree) (flags : Flags) where
  abbrev pub R : Transport
  R = recorder T

  abbrev opens : Device → World R → Option Error × World R
  opens dev = recorded_open T (open_device dev)

  abbrev pub service : Loggers
  service = recorded T open_device dev_root tree

  -- `elitech.Open`, `ReadRaw` and the deferred `Close`.
  unfoldable pub open_raw : Device → ℕ → ℕ → ℕ → Step (World (recorder T)) (List ℕ)
  unfolding with_logger read_raw
  open_raw dev operation offset n = with_logger R (opens dev) (read_raw R operation offset n)

  abbrev pub OnlyReads : World R → Type 0
  OnlyReads w = All IsRead (log_of T w)

  raw_after :
      (dev : Device) (operation offset n : ℕ) (o : Option Error × World R)
      → operation < 65536
      → is_read_op operation ≡ true
      → OnlyReads o.1
      → OnlyReads
          (if_opened R
            (opens dev)
            (λ v. closing R (opens dev) (read_raw R operation offset n (fresh R (opens dev) v)))
            o).1
  raw_after dev operation offset n (none, v) small e h =
      reads_keep T _ _
        (of_read_raw R (reads_logic T) (sends_read T 3 (omega arith) refl) operation offset n
          (sends_read T operation small e))
        (fresh R (opens dev) v) h
  raw_after dev operation offset n (some x, v) small e h = h

  pub raw-OnlyReads :
      (dev : Device) (operation offset n : ℕ)
      → operation < 65536
      → is_read_op operation ≡ true
      → (v : World R) → OnlyReads v
      → OnlyReads (open_raw dev operation offset n v).1
  unfolding open_raw with_logger
  raw-OnlyReads dev operation offset n small e v h =
      raw_after dev operation offset n (opens dev v) small e h

  module _ (listen : Text → Step (World (recorder T)) (Unit {0})) where
    -- What an invariant of the calls of the service is for the commands.
    module _ (I : World R → Type 0) (finding : Keeps I Any service.find) where
      of_require_device : Keeps I Any (require_device service flags listen open_raw)
      unfolding require_device
      of_require_device =
          Keeps-bind I finding (λ ds u.
            Keeps-option I (first_of ds) (Keeps-raise I no_logger) (λ dev. Keeps-pure I dev))

      pub of_peek :
          (operation offset n : ℕ)
          → ((dev : Device)
              → Keeps I Any (open_raw dev (operation % 2 ^ 16) (offset % 2 ^ 32) (n % 2 ^ 8)))
          → Keeps I Any (peek service flags listen open_raw operation offset n)
      unfolding peek
      of_peek operation offset n k =
          Keeps-bind I of_require_device (λ dev u. Keeps-bind I (k dev) (λ bytes v. Keeps-pure I _))

      pub of_run :
          (m : Step (World R) (List Printed))
          → Keeps I Any m
          → Keeps I Any (run service flags listen open_raw m)
      of_run m k = Keeps-bind I (Keeps-attempt I k) (λ r u. Keeps-pure I _)

    module _ (I : World R → Type 0) (Asks : Settings → ℕ → Type 0)
        (K : Keeping service I Counted Asks) where
      of_print_info : Keeps I Any (print_info service flags listen open_raw)
      unfolding print_info
      of_print_info =
          Keeps-bind I (of_require_device I K.finding)
            (λ dev u. Keeps-bind I (K.informing dev) (λ i c. Keeps-pure I _))

      of_print_records : (last : ℤ) → Keeps I Any (print_records service flags listen open_raw last)
      unfolding print_records
      of_print_records last = Keeps-bind I (of_require_device I K.finding) (λ dev u.
          Keeps-bind I (K.recording dev last)
            (λ r v. Keeps-bind I (Keeps-lift I (all_or_error r)) (λ recs w. Keeps-pure I _)))

      of_start_with :
          (interval confirm : ℕ) (dev : Device) (i : DeviceInfo)
          → ((set : Settings) → Asks set (confirm % 2 ^ 32))
          → Keeps I Any (start_with service flags listen open_raw interval confirm dev i)
      unfolding start_with
      of_start_with interval confirm dev i a = Keeps-if I _ (Keeps-raise I unconfirmed) (
          Keeps-bind I (K.configuring dev _ _ (a _))
            (λ r u. Keeps-bind I (Keeps-lift I (all_or_error r)) (λ after v. Keeps-pure I _)))

      of_start_recording :
          (interval confirm : ℕ)
          → ((set : Settings) → Asks set (confirm % 2 ^ 32))
          → Keeps I Any (start_recording service flags listen open_raw interval confirm)
      unfolding start_recording
      of_start_recording interval confirm a =
          Keeps-bind I (of_require_device I K.finding) (λ dev u.
            Keeps-bind I (K.informing dev) (λ i c. of_start_with interval confirm dev i a))

      pub of_command :
          (c : Command) (args : List Text)
          → ((p : ℕ × ℕ) (set : Settings)
              → c ≡ start_command
              → flags.start_flags args ≡ parsed p
              → Asks set (p.1 % 2 ^ 32))
          → is_quiet flags c args ≡ true
          → (c ≡ peek_command) ⊎ Keeps I Any (run_command service flags listen open_raw c args)
      of_command serve_command args a e = cc
      of_command info_command args a e = inr (of_run I K.finding _ of_print_info)
      of_command records_command args a e = inr (of_parsed (flags.records_flags args))
        where
          of_parsed :
              (p : Parsed ℤ)
              → Keeps I Any (
                  with_flags service flags listen open_raw p
                    (print_records service flags listen open_raw))
          of_parsed (parsed last) = of_run I K.finding _ (of_print_records last)
          of_parsed (leaves code) = Keeps-pure I _
      of_command start_command args a e = inr (of_parsed (flags.start_flags args) refl)
        where
          of_parsed :
              (p : Parsed (ℕ × ℕ))
              → flags.start_flags args ≡ p
              → Keeps I Any (
                  with_flags service flags listen open_raw p
                    (λ q. start_recording service flags listen open_raw q.0 q.1))
          of_parsed (parsed p) q =
              of_run I K.finding _ (of_start_recording p.0 p.1 (λ set. a p set refl q))
          of_parsed (leaves code) q = Keeps-pure I _
      of_command stop_command args a e = cc
      of_command peek_command args a e = inl refl
      of_command version_command args a e = inr (Keeps-pure I _)
      of_command no_command args a e = inr (Keeps-pure I _)
