-- ===== src/Logger/Termination.antt =====
-- internal/elitech/logger.go: whether the methods of the logger return, on any device.
use go_elite_log.Base.{ℕ, ◌≢◌}
use go_elite_log.Base.Int.{ℤ}
use go_elite_log.Base.Result.{stuck}
use go_elite_log.Logger.Transport.{Transport, World, Session}
use go_elite_log.Logger.Identity.{info}
use go_elite_log.Logger.Download.{records}
use go_elite_log.Logger.Configure.{Settings, configure, stop}
use go_elite_log.Logger.Logic.Ending.{Ticking}
use go_elite_log.Logger.Logic.Ending.Packets.{ending_logic, sends_any, ends}
use go_elite_log.Logger.Logic.Methods.{of_info}
use go_elite_log.Logger.Logic.Methods.Records.{of_records}
use go_elite_log.Logger.Logic.Methods.Changing.{of_configure, of_stop}

module _ (T : Transport) (clock : World T → ℕ) (tick : Ticking T clock) where
  -- `Info` ends on any transport whose clock does not go back and whose reads each take some
  -- time: the fuel of no loop runs out.
  pub info_ends : (s : Session (World T)) → (info T s).0 ≢ stuck
  info_ends =
      ends T clock tick _ _ (
        of_info T (ending_logic T clock tick) (sends_any T clock tick 3) (sends_any T clock tick 5))

  -- `Records` ends on any transport whose clock does not go back and whose reads each take some
  -- time: the fuel of no loop runs out.
  pub records_ends : (last : ℤ) (s : Session (World T)) → (records T last s).0 ≢ stuck
  records_ends last = ends T clock tick _ _ (
      of_records T (ending_logic T clock tick) (sends_any T clock tick 3) (sends_any T clock tick 5)
        (sends_any T clock tick 1) last)

  -- `Configure` ends on any transport whose clock does not go back and whose reads each take some
  -- time: the fuel of no loop runs out.
  pub configure_ends :
      (set : Settings) (confirmed : ℕ) (s : Session (World T))
      → (configure T set confirmed s).0 ≢ stuck
  configure_ends set confirmed = ends T clock tick _ _ (
      of_configure T (ending_logic T clock tick) (sends_any T clock tick 3)
        (sends_any T clock tick 4) (sends_any T clock tick 0x02C0) set confirmed)

  -- `Stop` ends on any transport whose clock does not go back and whose reads each take some
  -- time: the fuel of no loop runs out.
  pub stop_ends : (s : Session (World T)) → (stop T s).0 ≢ stuck
  stop_ends = ends T clock tick _ _ (
      of_stop T (ending_logic T clock tick) (sends_any T clock tick 3)
        (sends_any T clock tick 0x03C0))
