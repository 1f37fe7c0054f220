-- ===== src/Base/Result.antt =====
-- Go's (value, error) pair. An error is the sentinel that `errors.Is` finds in its chain; the
-- text that wraps it is left out.
use mathlib.Core.Bool.{Bool, true, false}
use Prim.Native.Nat.{ℕ}

pub data Error : Type 0 where
  -- internal/elitech/frame.go, record.go
  bad_frame no_record no_temperature invalid_timestamp invalid_date unsupported_width : Error
  -- internal/elitech/logger.go
  records_present invalid_interval timeout rejected stop_unacknowledged count_unknown : Error
  not_persisted : Error
  -- internal/hid: an error of the operating system, by its number, and the two of hid.go
  permission malformed_id short_write : Error
  os_error : ℕ → Error
  -- cmd/elitelog and internal/web
  no_logger unconfirmed bad_minutes bad_seconds interval_short interval_long must_confirm : Error

-- `panicked` is a run-time panic. `stuck` is no Go value: a loop of the model ran out of fuel.
pub data Result {ℓ} (A : Type ℓ) : Type ℓ where
  ok : A → Result A
  err : Error → Result A
  panicked stuck : Result A

infixl 5 ◌>>=◌ ◌>>◌
abbrev pub ◌>>=◌ {ℓ κ} : {A : Type ℓ} {B : Type κ} → Result A → (A → Result B) → Result B
ok a >>= f = f a
err e >>= f = err e
panicked >>= f = panicked
stuck >>= f = stuck

abbrev pub ◌>>◌ {ℓ κ} : {A : Type ℓ} {B : Type κ} → Result A → Result B → Result B
m >> k = m >>= λ _. k

-- `if !b { return err }`
abbrev pub guard : Bool → Error → Result (Unit {0})
guard true e = ok tt
guard false e = err e

abbrev pub is_ok {ℓ} : {A : Type ℓ} → Result A → Bool
is_ok (ok a) = true
is_ok (err e) = false
is_ok panicked = false
is_ok stuck = false
