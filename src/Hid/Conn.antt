-- ===== src/Hid/Conn.antt =====
-- internal/hid/conn.go: an open hidraw node. The operating system is a parameter: files that are
-- opened, written, read by a deadline and closed. The dump of reports to the log is left out.
use go_elite_log.Base.{
  ℕ, ◌+◌, ◌≡◌, ap, arith, Option, none, some, List, length, ◌!=◌, if◌then◌else◌,
}
use go_elite_log.Base.Result.{Error, permission, os_error, short_write}
use go_elite_log.Text.{Text}
use go_elite_log.Logger.Transport.{Transport, Reading, report, deadline_exceeded, failed}

-- An error of package os: `errors.Is` tells these three apart.
pub data OsError : Type 0 where
  denied deadline_passed : OsError
  other : ℕ → OsError

abbrev pub wrapped : OsError → Error
wrapped denied = permission
wrapped deadline_passed = os_error 0
wrapped (other n) = os_error (n + 1)

-- What `Read` of a file gives: the bytes that it put into the buffer, or an error.
pub data FileRead : Type 0 where
  bytes : List ℕ → FileRead
  stopped : OsError → FileRead

-- The file of the connection, the clock and the way to open it.
pub record System : Type 1 where
  pub World : Type 0
  pub open_file : Text → World → Option OsError × World
  pub write_file : List ℕ → World → (ℕ × Option OsError) × World
  pub set_deadline : ℕ → World → Option OsError × World
  pub read_file : World → FileRead × World
  pub close_file : World → Option OsError × World
  pub now : World → ℕ × World
  pub sleep : ℕ → World → World

module _ (S : System) where
  abbrev pub open_error : Option OsError → Option Error
  open_error none = none
  open_error (some e) = some (wrapped e)

  -- `Device.Open`
  unfoldable pub open_conn : Text → S.World → Option Error × S.World
  open_conn path w = let (e, w') = S.open_file path w in (open_error e, w')

  abbrev pub write_error : ℕ → ℕ × Option OsError → Option Error
  write_error len (n, some e) = some (wrapped e)
  write_error len (n, none) = if n != len then some short_write else none

  -- `Conn.Write`
  unfoldable pub write_conn : List ℕ → S.World → Option Error × S.World
  write_conn b w = let (r, w') = S.write_file b w in (write_error (length b) r, w')

  -- What the caller of `Conn.Read` sees; the error of the file is returned as it is.
  abbrev pub reading_of : FileRead → Reading
  reading_of (bytes b) = report b
  reading_of (stopped deadline_passed) = deadline_exceeded
  reading_of (stopped denied) = failed (wrapped denied)
  reading_of (stopped (other n)) = failed (wrapped (other n))

  abbrev pub read_after : Option OsError × S.World → Reading × S.World
  read_after (none, w) = let (r, w') = S.read_file w in (reading_of r, w')
  read_after (some e, w) = (reading_of (stopped e), w)

  -- `Conn.Read`
  unfoldable pub read_conn : ℕ → S.World → Reading × S.World
  read_conn timeout w = let (t, w') = S.now w in read_after (S.set_deadline (t + timeout) w')

  -- `Conn.Close`
  unfoldable pub close_conn : S.World → Option Error × S.World
  close_conn w = let (e, w') = S.close_file w in (open_error e, w')

  -- The connection is a transport.
  unfoldable pub conn : Transport
  unfolding write_conn read_conn close_conn
  conn = record {
    World = S.World;
    write = write_conn;
    read = read_conn;
    now = S.now;
    sleep = S.sleep;
    close = close_conn;
  }

  pub write_conn_whole :
      (b : List ℕ) (w : S.World)
      → (write_conn b w).0 ≡ none
      → (S.write_file b w).0 ≡ (length b, none)
  unfolding write_conn
  write_conn_whole b w e = by_reply (S.write_file b w).0 e
    where
      by_reply : (r : ℕ × Option OsError) → write_error (length b) r ≡ none → r ≡ (length b, none)
      by_reply (n, some x) q = cc
      by_reply (n, none) q = let same : n ≡ length b = ground arith in ap (λ k. (k, none)) same
