-- ===== src/Logger/Sequence.antt =====
-- internal/elitech/logger.go: the reports by which `Configure` changes the device, and their order.
use go_elite_log.Base.{
  ℕ, ◌≢◌, ◌+◌, ◌*◌, ◌^◌, ◌<◌, ◌≡◌, refl, ap, ◌∙◌, sym, arith, Bool, false, ◌||◌, List, [], ◌∷◌,
  ◌++◌, ◌==◌, if◌then◌else◌, All, take,
}
use go_elite_log.Base.Result.{Result, ok, err, panicked, stuck}
use go_elite_log.Frame.{
  Frame, at, encode_frame, op_get_record, op_get_parameter, op_set_parameter, op_read05, op_format,
}
use go_elite_log.Logger.Transport.{
  Transport, World, Session, Action, lift, attempt, write, sleep, close, ◌>>=◌, ◌>>◌, >>=-eq-ok,
  >>=_state,
}
use go_elite_log.Logger.Exchange.{
  timeout_set, timeout_command, send, drain, read_report, await_reply, set_parameter,
}
use go_elite_log.Logger.Configure.{
  patch_blocks, hold_after_format, Settings, Block, config_blocks, write_blocks, format, commit,
  configure,
}
use go_elite_log.Logger.Requests.{recorder, IsRead, log_of, op_of, op_of-encode_frame}
use go_elite_log.Logger.Logic.{Logic}
use go_elite_log.Logger.Logic.Stable.{Stable, stable_logic, may_send, keeps}
use go_elite_log.Logger.Logic.Methods.{
  of_pure, of_require, set_reply-ne-stuck, may_erase-ne-stuck, of_prime, of_read_capacity_count,
  of_drain, of_read_report,
}
use go_elite_log.Logger.Logic.Methods.Changing.{of_read_blocks, of_clock_if}
use mathlib.Core.List.{append-nil, append_assoc}

abbrev pub is_read : List ℕ → Bool
is_read b = (op_of b == op_get_record) || ((op_of b == op_get_parameter) || (op_of b == op_read05))

-- The operation, the offset and the N byte of a report.
abbrev pub Request : Type 0
Request = ℕ × ℕ × ℕ

abbrev pub request_of : List ℕ → Request
request_of b = (op_of b, at b 9 * 65536 + at b 7 * 256 + at b 8, at b 10)

-- The requests among the reports of a log that are no read requests.
abbrev pub changes : List (List ℕ) → List Request
changes [] = []
changes (b ∷ bs) = if is_read b then changes bs else request_of b ∷ changes bs

changes-append : (xs ys : List (List ℕ)) → changes (xs ++ ys) ≡ changes xs ++ changes ys
changes-append [] ys = refl
changes-append (x ∷ xs) ys = ground (arith, changes-append xs ys)

request_of-encode_frame :
    (o offset n : ℕ) (payload b : List ℕ)
    → o < 65536
    → offset < 2 ^ 24
    → encode_frame o offset n payload ≡ ok b
    → request_of b ≡ (o, offset, n)
unfolding encode_frame
request_of-encode_frame o offset n payload b h k e = ground arith

module _ (T : Transport) where
  abbrev R : Transport
  R = recorder T

  abbrev made : Session (World R) → List Request
  made s = changes (log_of T s.world)

  -- A call that succeeds has made these changes.
  Adds : (A : Type 0) → Action (World R) A → List Request → Type 0
  Adds A m ds = (s : Session (World R)) (a : A) → (m s).0 ≡ ok a → made (m s).1 ≡ made s ++ ds

  Adds-bind :
      (A B : Type 0) (m : Action (World R) A) (f : A → Action (World R) B) (xs ys : List Request)
      → Adds A m xs
      → ((a : A) → Adds B (f a) ys)
      → Adds B (m >>= f) (xs ++ ys)
  unfolding Adds
  Adds-bind A B m f xs ys hm hf s b e =
      let (a, p, q) = >>=-eq-ok m f s e in
      ap (λ r. made r.1) (>>=_state m f s p)
      ∙ hf a (m s).1 b q
      ∙ ap (λ ds. ds ++ ys) (hm s a p)
      ∙ append_assoc (made s) xs ys

  unchanged : (before : List Request) → Stable R IsRead (λ w. changes (log_of T w) ≡ before)
  unchanged before = record {
    reading = λ wait w h. h;
    timing = λ w h. h;
    sleeping = λ d w h. h;
    closing = λ w h. h;
    writing = λ b w a h. changes-append w.1 (b ∷ []) ∙ rw a (append-nil _ ∙ h);
  }

  quiet : List Request → Logic R
  quiet before = stable_logic R IsRead (λ w. changes (log_of T w) ≡ before) (unchanged before)

  quiet_get : (before : List Request) → (quiet before).Sends op_get_parameter
  unfolding quiet
  quiet_get before =
      may_send R IsRead _ (unchanged before) 3
        (λ offset n payload b q. rw (op_of-encode_frame 3 offset n payload b (omega arith) q))

  -- A method that only reads makes none.
  Adds-none :
      (A : Type 0) (m : Action (World R) A)
      → ((before : List Request) → (quiet before).Holds A m)
      → Adds A m []
  unfolding Adds quiet
  Adds-none A m h s a e =
      keeps R IsRead _ (unchanged (made s)) A m (h (made s)) s refl ∙ sym (append-nil _)

  Adds-write :
      (r : Result (List ℕ)) (d : Request)
      → ((b : List ℕ) → r ≡ ok b → (is_read b ≡ false) × (request_of b ≡ d))
      → Adds (Unit {0}) (lift r >>= write R) (d ∷ [])
  unfolding Adds lift write ◌>>=◌
  Adds-write (ok b) d h s a e =
      let (p, q) = h b refl in changes-append s.world.1 (b ∷ []) ∙ rw (p, q)
  Adds-write (err x) d h s a e = cc
  Adds-write panicked d h s a e = cc
  Adds-write stuck d h s a e = cc

  Adds-send :
      (o offset n : ℕ) (payload : List ℕ)
      → o < 65536
      → offset < 2 ^ 24
      → (o == op_get_record) || ((o == op_get_parameter) || (o == op_read05)) ≡ false
      → Adds (Unit {0}) (send R o offset n payload) ((o, offset, n) ∷ [])
  unfolding send
  Adds-send o offset n payload h k g =
      Adds-write (encode_frame o offset n payload) (o, offset, n)
        (λ b q. (
          rw (op_of-encode_frame o offset n payload b h q) g,
          request_of-encode_frame o offset n payload b h k q,
        ))

  Adds-drain : Adds (Unit {0}) (drain R) []
  Adds-drain = Adds-none (Unit {0}) (drain R) (λ before. of_drain R (quiet before))

  Adds-await_reply : (want wait : ℕ) → Adds Frame (await_reply R want wait) []
  Adds-await_reply want wait =
      Adds-none Frame (await_reply R want wait) (λ before. (quiet before).of_await_reply want wait)

  Adds-pure_result : {A : Type 0} (r : Result A) → r ≢ stuck → Adds A (lift r) []
  Adds-pure_result {A} r h = Adds-none A (lift r) (λ before. (quiet before).of_lift A r h)

  Adds-set_parameter :
      (offset declared : ℕ) (payload : List ℕ)
      → offset < 2 ^ 24
      → Adds
          (Unit {0})
          (set_parameter R offset declared payload)
          ((op_set_parameter, offset, declared) ∷ [])
  unfolding set_parameter
  Adds-set_parameter offset declared payload k = Adds-bind _ _ _ _ [] _ Adds-drain (λ _.
      Adds-bind _ _ _ _ (_ ∷ []) []
        (Adds-send op_set_parameter offset declared payload (omega arith) k refl)
        (λ _. Adds-bind _ _ _ _ [] [] (Adds-await_reply op_set_parameter timeout_set) (λ f.
          Adds-none _ _ (λ before. (quiet before).of_lift _ _ (set_reply-ne-stuck R offset f)))))

  -- The requests that write these blocks.
  abbrev pub settings_of : List Block → List Request
  settings_of [] = []
  settings_of (b ∷ bs) = (op_set_parameter, b.offset, b.declared) ∷ settings_of bs

  Adds-panicked : (A : Type 0) (ds : List Request) → Adds A (lift panicked) ds
  unfolding Adds lift
  Adds-panicked A ds s a e = cc

  Adds-write_blocks :
      (bs : List Block) (blocks : List (List ℕ))
      → All (λ b. b.offset < 2 ^ 24) bs
      → Adds (Unit {0}) (write_blocks R bs blocks) (settings_of bs)
  unfolding write_blocks
  Adds-write_blocks [] blocks h = Adds-none _ _ (λ before. of_pure R (quiet before) _ tt)
  Adds-write_blocks (b ∷ bs) [] h = Adds-panicked _ _
  Adds-write_blocks (b ∷ bs) (payload ∷ rest) h =
      Adds-bind _ _ _ _ (_ ∷ []) (settings_of bs)
        (Adds-set_parameter b.offset b.declared (take b.written payload) h.0)
        (λ _. Adds-write_blocks bs rest h.1)

  -- After the request to erase no other one is written.
  Adds-rest :
      Adds
        (Unit {0})
        (attempt (read_report R timeout_command) >>= (λ _. sleep R hold_after_format >> close R))
        []
  Adds-rest = Adds-none _ _ (λ before.
      let L = quiet before in
      L.of_bind _ _ _ _ (L.of_attempt _ _ (of_read_report R L timeout_command))
        (λ _. L.of_bind _ _ _ _ (L.of_sleep hold_after_format) (λ _. L.of_close)))

  Adds-format : Adds (Unit {0}) (format R) ((op_format, 0, 1) ∷ [])
  unfolding format
  Adds-format = Adds-bind _ _ _ _ [] _ Adds-drain (λ _.
      Adds-bind _ _ _ _ (_ ∷ []) []
        (Adds-send op_format 0 1 (0 ∷ []) (omega arith) (omega arith) refl) (λ _. Adds-rest))

  Adds-commit :
      (set : Settings)
      → Adds (Unit {0}) (commit R set) (settings_of config_blocks ++ (op_format, 0, 1) ∷ [])
  unfolding commit
  Adds-commit set =
      Adds-bind _ _ _ _ [] _
        (Adds-none _ _ (λ before. of_read_blocks R (quiet before) (quiet_get before) config_blocks))
        (λ blocks.
          Adds-bind _ _ _ _ [] _
            (Adds-none _ _
              (λ before. of_clock_if R (quiet before) (quiet_get before) set.sync_clock))
            (λ clock.
              Adds-bind _ _ _ _ (settings_of config_blocks) _
                (Adds-write_blocks config_blocks (patch_blocks set clock blocks) in_range)
                (λ _. Adds-format)))
    where
      in_range : All (λ b. b.offset < 2 ^ 24) config_blocks
      in_range = (
        omega arith,
        (omega arith, (omega arith, (omega arith, (omega arith, (omega arith, tt))))),
      )

  Adds-configure :
      (set : Settings) (confirmed : ℕ)
      → Adds
          (Unit {0})
          (configure R set confirmed)
          (settings_of config_blocks ++ (op_format, 0, 1) ∷ [])
  unfolding configure
  Adds-configure set confirmed =
      Adds-bind _ _ _ _ [] _ (Adds-none _ _ (λ before. of_require R (quiet before) _ _)) (λ _.
        Adds-bind _ _ _ _ [] _
          (Adds-none _ _ (λ before. of_prime R (quiet before) (quiet_get before)))
          (λ id.
            Adds-bind _ _ _ _ [] _
              (Adds-none _ _ (λ before. of_read_capacity_count R (quiet before) (quiet_get before)))
              (λ counts.
                Adds-bind _ _ _ _ [] _ (Adds-pure_result _ (may_erase-ne-stuck R confirmed counts))
                  (λ _. Adds-commit set))))

  -- If `Configure` succeeds, then on any transport the requests it has written that are no read
  -- requests are the six parameter blocks, in the order of `configBlocks` and with their declared
  -- lengths, followed by one erasure and nothing else.
  pub changes-configure :
      (set : Settings) (confirmed : ℕ) (s : Session (World (recorder T)))
      → (configure (recorder T) set confirmed s).0 ≡ ok tt
      → changes (log_of T (configure (recorder T) set confirmed s).1.world)
        ≡ changes (log_of T s.world)
          ++ (op_set_parameter, 0x00, 0x30)
            ∷ (op_set_parameter, 0x30, 0x30)
            ∷ (op_set_parameter, 0x60, 0x30)
            ∷ (op_set_parameter, 0x98, 0x34)
            ∷ (op_set_parameter, 0xCC, 0x30)
            ∷ (op_set_parameter, 0xFD, 0x2F)
            ∷ (op_format, 0, 1)
            ∷ []
  unfolding Adds
  changes-configure set confirmed s e = Adds-configure set confirmed s tt e
