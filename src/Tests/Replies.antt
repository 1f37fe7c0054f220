-- ===== src/Tests/Replies.antt =====
-- A reply that stands behind one to another request.
use go_elite_log.Base.{◌≢◌, ℕ, ◌≡◌, refl, arith, List, [], ◌∷◌}
use go_elite_log.Base.Result.{ok}
use go_elite_log.Frame.{Frame, encode_frame, decode_frame, checksum}
use go_elite_log.Logger.Transport.{World, Session}
use go_elite_log.Logger.Exchange.{await_reply}
use go_elite_log.Logger.Arrival.{wanted, behind_stale, await_reply-Answers}
use go_elite_log.Base.Int.{ℤ}
use go_elite_log.Base.Result.{panicked}
use go_elite_log.Logger.Identity.{info}
use go_elite_log.Logger.Download.{records}
use go_elite_log.Logger.Configure.{Settings, configure, stop, read_raw}
use go_elite_log.Logger.Panics.Packets.{never_panics}
use go_elite_log.Tests.Device.{logger, recording, time_of, ticking}

unfoldable report_of : ℕ → List ℕ → List ℕ
unfolding encode_frame
report_of o payload = elim (encode_frame o 0 1 payload) [ ok b ↦ b | _ ↦ [] ]

unfoldable two_replies : Session (World logger)
unfolding logger report_of
two_replies = record {
  world = record recording { replies = report_of 5 (7 ∷ []) ∷ report_of 3 (9 ∷ []) ∷ [] };
  protocol = 0;
}

abbrev reply : ℕ → ℕ → Frame
reply o b = record { op = o; offset = 0; n = 1; payload = b ∷ [] }

await_reply-Answers_example : (await_reply logger 3 1000 two_replies).0 ≡ ok (reply 3 9)
unfolding two_replies logger report_of encode_frame decode_frame checksum
await_reply-Answers_example = await_reply-Answers logger time_of ticking 3 1000 two_replies (
    behind_stale {g = reply 5 7} (omega arith, (report_of 5 (7 ∷ []), refl, refl))
      (λ e. omega arith)
      (wanted {f = reply 3 9} (omega arith, (report_of 3 (9 ∷ []), refl, refl)) refl))

never_panics_example :
    ((info logger two_replies).0 ≢ panicked)
    × ((last : ℤ) → (records logger last two_replies).0 ≢ panicked)
    × ((set : Settings) (confirmed : ℕ) → (configure logger set confirmed two_replies).0 ≢ panicked)
    × ((stop logger two_replies).0 ≢ panicked)
    × ((operation offset n : ℕ) → (read_raw logger operation offset n two_replies).0 ≢ panicked)
never_panics_example = never_panics logger two_replies
