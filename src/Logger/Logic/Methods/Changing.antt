-- ===== src/Logger/Logic/Methods/Changing.antt =====
-- internal/elitech/logger.go: `Configure`, `Stop` and `ReadRaw`.
use go_elite_log.Base.{ℕ, Bool, true, false, Option, none, List, [], ◌∷◌}
use go_elite_log.Base.Result.{panicked}
use go_elite_log.Frame.{op_get_parameter, op_set_parameter, op_format, op_stop}
use go_elite_log.Logger.Transport.{Transport}
use go_elite_log.Logger.Exchange.{set_parameter}
use go_elite_log.Logger.Exchange.{timeout_command}
use go_elite_log.Logger.Configure.{
  Settings, Block, config_blocks, hold_after_format, read_blocks, write_blocks, clock_if, format,
  commit, configure, stop, read_raw,
}
use go_elite_log.Logger.Logic.{Logic}
use go_elite_log.Logger.Logic.Methods.{
  may_erase-ne-stuck, stop_reply-ne-stuck, set_reply-ne-stuck, of_pure, of_require, of_read_report,
  of_request, of_get, of_prime, of_read_capacity_count,
}

module _ (T : Transport) (L : Logic T) (sends_get : L.Sends op_get_parameter) where
  open L use {
    Holds, Sends, of_bind, of_lift, of_gets, of_attempt, of_set_protocol, of_read, of_now, of_sleep,
    of_close, of_send, of_await_reply, of_get_record_packet,
  }

  pub of_read_blocks : (bs : List Block) → Holds (List (List ℕ)) (read_blocks T bs)
  unfolding read_blocks
  of_read_blocks [] = of_pure T L _ []
  of_read_blocks (b ∷ bs) =
      of_bind _ _ _ _ (of_get T L sends_get _ _)
        (λ payload. of_bind _ _ _ _ (of_read_blocks bs) (λ rest. of_pure T L _ _))

  pub of_clock_if : (b : Bool) → Holds (Option ℕ) (clock_if T b)
  of_clock_if true = of_bind _ _ _ _ of_now (λ t. of_pure T L _ _)
  of_clock_if false = of_pure T L _ none

  -- `Configure`, where the requests that it writes may be sent too.
  module _ (sends_set : Sends op_set_parameter) (sends_format : Sends op_format) where
    of_set_parameter :
        (offset declared : ℕ) (payload : List ℕ)
        → Holds (Unit {0}) (set_parameter T offset declared payload)
    unfolding set_parameter
    of_set_parameter offset declared payload =
        of_request T L _ _ _ _ _ sends_set
          (of_bind _ _ _ _ (of_await_reply _ _) (λ f. of_lift _ _ (set_reply-ne-stuck T offset f)))

    pub of_write_blocks :
        (bs : List Block) (payloads : List (List ℕ)) → Holds (Unit {0}) (write_blocks T bs payloads)
    unfolding write_blocks
    of_write_blocks [] payloads = of_pure T L _ tt
    of_write_blocks (b ∷ bs) [] = of_lift _ panicked (λ e. cc)
    of_write_blocks (b ∷ bs) (x ∷ xs) =
        of_bind _ _ _ _ (of_set_parameter _ _ _) (λ u. of_write_blocks bs xs)

    of_format : Holds (Unit {0}) (format T)
    unfolding format
    of_format = of_request T L _ _ _ _ _ sends_format (
        of_bind _ _ _ _ (of_attempt _ _ (of_read_report T L timeout_command))
          (λ r. of_bind _ _ _ _ (of_sleep hold_after_format) (λ u. of_close)))

    of_commit : (s : Settings) → Holds (Unit {0}) (commit T s)
    unfolding commit
    of_commit s = of_bind _ _ _ _ (of_read_blocks config_blocks) (λ blocks.
        of_bind _ _ _ _ (of_clock_if s.sync_clock)
          (λ clock. of_bind _ _ _ _ (of_write_blocks config_blocks _) (λ u. of_format)))

    pub of_configure : (s : Settings) (confirmed : ℕ) → Holds (Unit {0}) (configure T s confirmed)
    unfolding configure
    of_configure s confirmed = of_bind _ _ _ _ (of_require T L _ _) (λ u.
        of_bind _ _ _ _ (of_prime T L sends_get) (λ id.
          of_bind _ _ _ _ (of_read_capacity_count T L sends_get) (λ counts.
            of_bind _ _ _ _ (of_lift _ _ (may_erase-ne-stuck T confirmed counts))
              (λ u'. of_commit s))))

  pub of_stop : Sends op_stop → Holds (Unit {0}) (stop T)
  unfolding stop
  of_stop sends_stop = of_bind _ _ _ _ (of_prime T L sends_get) (λ id.
      of_request T L _ _ _ _ _ sends_stop (
        of_bind _ _ _ _ (of_attempt _ _ (of_read_report T L timeout_command))
          (λ r. of_lift _ _ (stop_reply-ne-stuck T r))))

  pub of_read_raw :
      (operation offset n : ℕ) → Sends operation → Holds (List ℕ) (read_raw T operation offset n)
  unfolding read_raw
  of_read_raw operation offset n h = of_bind _ _ _ _ (of_prime T L sends_get) (λ id.
      of_request T L _ _ _ _ _ h (of_bind _ _ _ _ (of_await_reply _ _) (λ f. of_pure T L _ _)))
