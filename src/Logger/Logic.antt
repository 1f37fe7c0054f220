-- ===== src/Logger/Logic.antt =====
-- A logic for the methods of the logger: a property of calls that the calls of the transport have
-- and that composition keeps is one of every method. `Logic/Methods` derives it; the invariants
-- of the world (`Logic/Stable`) and termination (`Logic/Ending`) are two such properties.
pub mod Methods
pub mod Stable
pub mod Ending
use go_elite_log.Base.{ℕ, ◌≢◌, List}
use go_elite_log.Base.Result.{Result, stuck}
use go_elite_log.Frame.{Frame, op_get_record}
use go_elite_log.Logger.Transport.{
  Transport, World, Reading, Session, Action, Outcome, pure, lift, gets, attempt, ◌>>=◌,
  set_protocol, read, now, sleep, close,
}
use go_elite_log.Logger.Exchange.{send, await_reply}
use go_elite_log.Logger.Download.{get_record_packet}

pub record Logic (T : Transport) : Type 1 where
  pub Holds : (A : Type 0) → Action (World T) A → Type 0
  -- The operations that may be sent.
  pub Sends : ℕ → Type 0
  pub of_bind :
      (A B : Type 0) (m : Action (World T) A) (f : A → Action (World T) B)
      → Holds A m
      → ((a : A) → Holds B (f a))
      → Holds B (m >>= f)
  pub of_lift : (A : Type 0) (r : Result A) → r ≢ stuck → Holds A (lift r)
  pub of_gets : (A : Type 0) (f : Session (World T) → A) → Holds A (gets f)
  pub of_attempt : (A : Type 0) (m : Action (World T) A) → Holds A m → Holds (Outcome A) (attempt m)
  pub of_set_protocol : (p : ℕ) → Holds (Unit {0}) (set_protocol p)
  pub of_read : (wait : ℕ) → Holds Reading (read T wait)
  pub of_now : Holds ℕ (now T)
  pub of_sleep : (d : ℕ) → Holds (Unit {0}) (sleep T d)
  pub of_close : Holds (Unit {0}) (close T)
  pub of_send :
      (o offset n : ℕ) (payload : List ℕ) → Sends o → Holds (Unit {0}) (send T o offset n payload)
  pub of_await_reply : (want wait : ℕ) → Holds Frame (await_reply T want wait)
  pub of_get_record_packet : (off : ℕ) → Sends op_get_record → Holds Frame (get_record_packet T off)
