-- ===== src/Logger/Requests.antt =====
-- internal/elitech/logger.go: which reports the methods write, seen on a transport that keeps a
-- record of them.
use go_elite_log.Base.{
  ℕ, ◌+◌, ◌*◌, ◌<◌, ◌≡◌, refl, arith, true, ◌||◌, List, [], ◌∷◌, ◌++◌, ◌==◌, All, All-append,
}
use go_elite_log.Base.Int.{ℤ}
use go_elite_log.Base.Result.{ok}
use go_elite_log.Frame.{at, encode_frame, op_get_record, op_get_parameter, op_read05}
use go_elite_log.Logger.Transport.{Transport, World, Session, Action}
use go_elite_log.Logger.Identity.{info}
use go_elite_log.Logger.Download.{records}
use go_elite_log.Logger.Logic.{Logic}
use go_elite_log.Logger.Logic.Stable.{Stable, stable_logic, may_send, keeps}
use go_elite_log.Logger.Logic.Methods.{of_info}
use go_elite_log.Logger.Logic.Methods.Records.{of_records}

-- The transport `T` with the list of the reports that were written, the newest last.
abbrev pub recorder : Transport → Transport
recorder T = record {
  World = T.World × List (List ℕ);
  write = λ b w. ((T.write b w.0).0, ((T.write b w.0).1, w.1 ++ (b ∷ [])));
  read = λ wait w. ((T.read wait w.0).0, ((T.read wait w.0).1, w.1));
  now = λ w. ((T.now w.0).0, ((T.now w.0).1, w.1));
  sleep = λ d w. (T.sleep d w.0, w.1);
  close = λ w. ((T.close w.0).0, ((T.close w.0).1, w.1));
}

-- The operation that a report carries.
abbrev pub op_of : List ℕ → ℕ
op_of b = at b 4 + at b 5 * 256

-- The requests that change nothing on the device.
abbrev pub IsRead : List ℕ → Type 0
IsRead b =
    ((op_of b == op_get_record) || ((op_of b == op_get_parameter) || (op_of b == op_read05))) ≡ true

abbrev pub log_of : (T : Transport) → World (recorder T) → List (List ℕ)
log_of T w = w.1

pub op_of-encode_frame :
    (o offset n : ℕ) (payload b : List ℕ)
    → o < 65536
    → encode_frame o offset n payload ≡ ok b
    → op_of b ≡ o
unfolding encode_frame
op_of-encode_frame o offset n payload b h e = ground arith

module _ (T : Transport) (Allowed : List ℕ → Type 0) where
  pub recorder_stable : Stable (recorder T) Allowed (λ w. All Allowed (log_of T w))
  recorder_stable = record {
    reading = λ wait w h. h;
    timing = λ w h. h;
    sleeping = λ d w h. h;
    closing = λ w h. h;
    writing = λ b w a h. All-append Allowed w.1 (b ∷ []) h (a, tt);
  }

module _ (T : Transport) where
  pub reads_logic : Logic (recorder T)
  reads_logic =
      stable_logic (recorder T) IsRead (λ w. All IsRead (log_of T w)) (recorder_stable T IsRead)

  pub sends_read :
      (o : ℕ)
      → o < 65536
      → ((o == op_get_record) || ((o == op_get_parameter) || (o == op_read05))) ≡ true
      → reads_logic.Sends o
  unfolding reads_logic
  sends_read o h e =
      may_send _ _ _ _ o
        (λ offset n payload b q. rw (op_of-encode_frame o offset n payload b h q) e)

  pub reads_keep :
      (A : Type 0) (m : Action (World (recorder T)) A)
      → reads_logic.Holds A m
      → (s : Session (World (recorder T))) → All IsRead (log_of T s.world)
      → All IsRead (log_of T (m s).1.world)
  unfolding reads_logic
  reads_keep = keeps _ _ _ _

  -- On any transport, `Info` adds read requests only to a log of read requests.
  pub info_reads :
      (s : Session (World (recorder T)))
      → All IsRead (log_of T s.world)
      → All IsRead (log_of T (info (recorder T) s).1.world)
  info_reads = reads_keep _ _ (
      of_info (recorder T) reads_logic (sends_read 3 (omega arith) refl)
        (sends_read 5 (omega arith) refl))

  -- On any transport, `Records` adds read requests only to a log of read requests: a download
  -- changes nothing on the device.
  pub records_reads :
      (last : ℤ) (s : Session (World (recorder T)))
      → All IsRead (log_of T s.world)
      → All IsRead (log_of T (records (recorder T) last s).1.world)
  records_reads last = reads_keep _ _ (
      of_records (recorder T) reads_logic (sends_read 3 (omega arith) refl)
        (sends_read 5 (omega arith) refl) (sends_read 1 (omega arith) refl) last)
