-- ===== src/Base/Step.antt =====
-- Calls on a state that return a `Result`, and their composition.
pub mod Preserve
pub mod Safe
use go_elite_log.Base.Result.{Result, ok, err, panicked, stuck, Error}
use mathlib.Core.Path.{◌≡◌, refl, ap}
use mathlib.Core.Bool.{Bool, true, false}
use go_elite_log.Base.Tests.{if◌then◌else◌}

-- A call on a state keeps the state that it reached also where it fails.
abbrev pub Step : Type 0 → Type 0 → Type 0
Step S A = S → Result A × S

-- The value of a call whose error the caller looks at.
pub data Outcome (A : Type 0) : Type 0 where
  got : A → Outcome A
  lost : Error → Outcome A

module _ {A : Type 0} where
  abbrev pub outcome : Result A → Result (Outcome A)
  outcome (ok a) = ok (got a)
  outcome (err e) = ok (lost e)
  outcome panicked = panicked
  outcome stuck = stuck

module _ {S A : Type 0} where
  unfoldable pub pure : A → Step S A
  pure a s = (ok a, s)

  unfoldable pub raise : Error → Step S A
  raise e s = (err e, s)

  unfoldable pub lift : Result A → Step S A
  lift r s = (r, s)

  unfoldable pub out_of_fuel : Step S A
  out_of_fuel s = (stuck, s)

  unfoldable pub gets : (S → A) → Step S A
  gets f s = (ok (f s), s)

  -- `a, err := call()`
  unfoldable pub attempt : Step S A → Step S (Outcome A)
  attempt m s = let (r, s') = m s in (outcome r, s')

-- `if r, err := call(); err != nil { … } else { … }`
abbrev pub outcome_or : {A B : Type 0} → (Error → B) → (A → B) → Outcome A → B
outcome_or f g (got a) = g a
outcome_or f g (lost e) = f e

infixl 5 ◌>>=◌ ◌>>◌
abbrev pub continue_with : {S A B : Type 0} → (A → Step S B) → Result A → Step S B
continue_with f (ok a) s = f a s
continue_with f (err e) s = (err e, s)
continue_with f panicked s = (panicked, s)
continue_with f stuck s = (stuck, s)

unfoldable pub ◌>>=◌ : {S A B : Type 0} → Step S A → (A → Step S B) → Step S B
◌>>=◌ m f s = let (r, s') = m s in continue_with f r s'

abbrev pub ◌>>◌ : {S A B : Type 0} → Step S A → Step S B → Step S B
m >> k = m >>= λ _. k

unfoldable pub require : {S : Type 0} → Bool → Error → Step S (Unit {0})
require b e s = (if b then ok tt else err e, s)

-- Inversion of a call that succeeds.
continue-eq-ok :
    {S A B : Type 0} (f : A → Step S B) (r : Result A) (s : S) {b : B}
    → (continue_with f r s).0 ≡ ok b
    → (a : A) × (r ≡ ok a) × ((f a s).0 ≡ ok b)
continue-eq-ok f (ok a) s e = (a, refl, e)
continue-eq-ok f (err x) s e = cc
continue-eq-ok f panicked s e = cc
continue-eq-ok f stuck s e = cc

pub >>=-eq-ok :
    {S A B : Type 0} (m : Step S A) (f : A → Step S B) (s : S) {b : B}
    → ((m >>= f) s).0 ≡ ok b
    → (a : A) × ((m s).0 ≡ ok a) × ((f a (m s).1).0 ≡ ok b)
unfolding ◌>>=◌
>>=-eq-ok m f s e = continue-eq-ok f (m s).0 (m s).1 e

pub >>=_state :
    {S A B : Type 0} (m : Step S A) (f : A → Step S B) (s : S) {a : A}
    → (m s).0 ≡ ok a
    → (m >>= f) s ≡ f a (m s).1
unfolding ◌>>=◌
>>=_state m f s {a} e = ap (λ r. continue_with f r (m s).1) e

pub >>=-eq :
    {S A B : Type 0} (m : Step S A) (f : A → Step S B) {s s' : S} {a : A}
    → m s ≡ (ok a, s')
    → (m >>= f) s ≡ f a s'
unfolding ◌>>=◌
>>=-eq m f e = ap (λ r. continue_with f r.0 r.1) e
