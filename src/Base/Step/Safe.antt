-- ===== src/Base/Step/Safe.antt =====
-- Calls that do not panic, and what holds of the values that they return.
use go_elite_log.Base.Step.{
  Step, outcome, pure, raise, lift, gets, out_of_fuel, attempt, require, continue_with, ◌>>=◌,
}
use go_elite_log.Base.Step.Preserve.{Any}
use go_elite_log.Base.Result.{Result, ok, err, panicked, stuck, Error}
use go_elite_log.Base.Tests.{if◌then◌else◌, option_or}
use mathlib.Core.Option.{Option, none, some}
use mathlib.Core.Path.{◌≡◌, refl, subst}
use mathlib.Core.Logic.{◌≢◌}
use mathlib.Core.Bool.{Bool, true, false}

-- No panic from any state, and a value that is returned satisfies `P`.
pub data Safe {S A : Type 0} (P : A → Type 0) (m : Step S A) : Type 0 where
  safe : ((s : S) → ((m s).0 ≢ panicked) × ((a : A) → (m s).0 ≡ ok a → P a)) → Safe P m

-- A result that is no panic.
pub Safe-lift :
    {S A : Type 0} (P : A → Type 0) (r : Result A)
    → r ≢ panicked
    → ((a : A) → r ≡ ok a → P a)
    → Safe {S = S} P (lift r)
unfolding lift
Safe-lift P r h p = safe (λ s. (h, p))

pub Safe-lift_any : {S A : Type 0} (r : Result A) → r ≢ panicked → Safe {S = S} Any (lift r)
Safe-lift_any r h = Safe-lift Any r h (λ a e. tt)

pub Safe-pure : {S A : Type 0} (P : A → Type 0) (a : A) → P a → Safe {S = S} P (pure a)
unfolding pure
Safe-pure P a p = safe (λ s. ((λ e. cc), λ b q. let e : a ≡ b = cc in subst P e p))

pub Safe-pure_any : {S A : Type 0} (a : A) → Safe {S = S} Any (pure a)
Safe-pure_any a = Safe-pure Any a tt

pub Safe-raise : {S A : Type 0} {P : A → Type 0} (e : Error) → Safe {S = S} P (raise e)
unfolding raise
Safe-raise e = safe (λ s. ((λ q. cc), λ a q. cc))

pub Safe-out_of_fuel : {S A : Type 0} {P : A → Type 0} → Safe {S = S} {A = A} P out_of_fuel
unfolding out_of_fuel
Safe-out_of_fuel = safe (λ s. ((λ q. cc), λ a q. cc))

pub Safe-gets : {S A : Type 0} (f : S → A) → Safe Any (gets f)
unfolding gets
Safe-gets f = safe (λ s. ((λ q. cc), λ a q. tt))

pub Safe-require : {S : Type 0} (b : Bool) (e : Error) → Safe {S = S} Any (require b e)
unfolding require
Safe-require true e = safe (λ s. ((λ q. cc), λ a q. tt))
Safe-require false e = safe (λ s. ((λ q. cc), λ a q. tt))

after-Safe :
    {S A B : Type 0} (P : A → Type 0) (Q : B → Type 0) (f : A → Step S B) (r : Result A) (s : S)
    → r ≢ panicked
    → ((a : A) → r ≡ ok a → P a)
    → ((a : A) → P a → Safe Q (f a))
    → ((continue_with f r s).0 ≢ panicked) × ((b : B) → (continue_with f r s).0 ≡ ok b → Q b)
after-Safe P Q f (ok a) s h p hf = elim (hf a (p a refl)) [ safe k ↦ k s ]
after-Safe P Q f (err e) s h p hf = ((λ q. cc), λ b q. cc)
after-Safe P Q f panicked s h p hf = absurd (h refl)
after-Safe P Q f stuck s h p hf = ((λ q. cc), λ b q. cc)

pub Safe-bind :
    {S A B : Type 0} {P : A → Type 0} {Q : B → Type 0} {m : Step S A} {f : A → Step S B}
    → Safe P m
    → ((a : A) → P a → Safe Q (f a))
    → Safe Q (m >>= f)
unfolding ◌>>=◌
Safe-bind {P = P} {Q = Q} {m = m} {f = f} (safe k) hf =
    safe (λ s. let (h, p) = k s in after-Safe P Q f (m s).0 (m s).1 h p hf)

outcome-ne-panicked : {A : Type 0} (r : Result A) → r ≢ panicked → outcome r ≢ panicked
outcome-ne-panicked (ok a) h e = cc
outcome-ne-panicked (err x) h e = cc
outcome-ne-panicked panicked h e = h refl
outcome-ne-panicked stuck h e = cc

pub Safe-attempt : {S A : Type 0} {P : A → Type 0} {m : Step S A} → Safe P m → Safe Any (attempt m)
unfolding attempt
Safe-attempt {m = m} (safe k) = safe (λ s. (outcome-ne-panicked (m s).0 (k s).0, λ a e. tt))

pub Safe-if :
    {S A : Type 0} {P : A → Type 0} (b : Bool) {m k : Step S A}
    → Safe P m
    → Safe P k
    → Safe P (if b then m else k)
Safe-if true hm hk = hm
Safe-if false hm hk = hk

pub Safe-option :
    {S A B : Type 0} {P : B → Type 0} (o : Option A) {m : Step S B} {k : A → Step S B}
    → Safe P m
    → ((a : A) → Safe P (k a))
    → Safe P (option_or m k o)
Safe-option none hm hk = hm
Safe-option (some a) hm hk = hk a

pub result-ne-panicked :
    {S A : Type 0} {P : A → Type 0} {m : Step S A} → Safe P m → (s : S) → (m s).0 ≢ panicked
result-ne-panicked (safe k) s = (k s).0
