-- ===== src/Base/Step/Preserve.antt =====
-- Invariants of the state that calls keep, and what holds of the values that they return.
use go_elite_log.Base.Step.{
  Step, Outcome, got, lost, outcome, pure, raise, lift, attempt, outcome_or, continue_with, ◌>>=◌,
}
use go_elite_log.Base.Result.{Result, ok, err, panicked, stuck, Error}
use go_elite_log.Base.Tests.{if◌then◌else◌, option_or}
use mathlib.Core.Path.{◌≡◌, refl, subst}
use mathlib.Core.Bool.{Bool, true, false}
use mathlib.Core.Option.{Option, none, some}

-- If the invariant holds before, it does after, and a value that is returned satisfies `P`.
pub data Keeps {S : Type 0} (Inv : S → Type 0) {A : Type 0} (P : A → Type 0) (m : Step S A)
    : Type 0 where
  keeps : ((s : S) → Inv s → Inv (m s).1 × ((a : A) → (m s).0 ≡ ok a → P a)) → Keeps Inv P m

-- Any value.
abbrev pub Any : {A : Type 0} → A → Type 0
Any a = Unit {0}

abbrev pub Got : {A : Type 0} → (A → Type 0) → Outcome A → Type 0
Got P (got a) = P a
Got P (lost e) = Unit {0}

module _ {S : Type 0} (Inv : S → Type 0) where
  after :
      {A B : Type 0} (P : A → Type 0) (Q : B → Type 0) (f : A → Step S B) (r : Result A) (s : S)
      → Inv s
      → ((a : A) → r ≡ ok a → P a)
      → ((a : A) → P a → Keeps Inv Q (f a))
      → Inv (continue_with f r s).1 × ((b : B) → (continue_with f r s).0 ≡ ok b → Q b)
  after P Q f (ok a) s h hp hf = elim (hf a (hp a refl)) [ keeps k ↦ k s h ]
  after P Q f (err e) s h hp hf = (h, λ b q. cc)
  after P Q f panicked s h hp hf = (h, λ b q. cc)
  after P Q f stuck s h hp hf = (h, λ b q. cc)

  pub Keeps-bind :
      {A B : Type 0} {P : A → Type 0} {Q : B → Type 0} {m : Step S A} {f : A → Step S B}
      → Keeps Inv P m
      → ((a : A) → P a → Keeps Inv Q (f a))
      → Keeps Inv Q (m >>= f)
  unfolding ◌>>=◌
  Keeps-bind {P = P} {Q = Q} {m = m} {f = f} (keeps k) hf =
      keeps (λ s h. let (i, p) = k s h in after P Q f (m s).0 (m s).1 i p hf)

  pub Keeps-lift : {A : Type 0} (r : Result A) → Keeps Inv Any (lift r)
  unfolding lift
  Keeps-lift r = keeps (λ s h. (h, λ a q. tt))

  pub Keeps-lift_value :
      {A : Type 0} (P : A → Type 0) (r : Result A)
      → ((a : A) → r ≡ ok a → P a)
      → Keeps Inv P (lift r)
  unfolding lift
  Keeps-lift_value P r hp = keeps (λ s h. (h, hp))

  pub Keeps-raise : {A : Type 0} {P : A → Type 0} (e : Error) → Keeps Inv P (raise e)
  unfolding raise
  Keeps-raise e = keeps (λ s h. (h, λ a q. cc))

  pub Keeps-pure : {A : Type 0} (a : A) → Keeps Inv Any (pure a)
  unfolding pure
  Keeps-pure a = keeps (λ s h. (h, λ b q. tt))

  pub Keeps-pure_value : {A : Type 0} (P : A → Type 0) (a : A) → P a → Keeps Inv P (pure a)
  unfolding pure
  Keeps-pure_value P a p = keeps (λ s h. (h, λ b q. let e : a ≡ b = cc in subst P e p))

  Got-outcome :
      {A : Type 0} (P : A → Type 0) (r : Result A)
      → ((a : A) → r ≡ ok a → P a)
      → (o : Outcome A) → outcome r ≡ ok o
      → Got P o
  Got-outcome P (ok a) h (got b) q = let e : ok a ≡ ok b = cc in h b e
  Got-outcome P (ok a) h (lost e) q = tt
  Got-outcome P (err e) h (got b) q = cc
  Got-outcome P (err e) h (lost x) q = tt
  Got-outcome P panicked h (got b) q = cc
  Got-outcome P panicked h (lost x) q = tt
  Got-outcome P stuck h (got b) q = cc
  Got-outcome P stuck h (lost x) q = tt

  pub Keeps-attempt :
      {A : Type 0} {P : A → Type 0} {m : Step S A} → Keeps Inv P m → Keeps Inv (Got P) (attempt m)
  unfolding attempt
  Keeps-attempt {P = P} {m = m} (keeps k) =
      keeps (λ s h. let (i, p) = k s h in (i, Got-outcome P (m s).0 p))

  pub Keeps-if :
      {A : Type 0} {P : A → Type 0} (b : Bool) {m k : Step S A}
      → Keeps Inv P m
      → Keeps Inv P k
      → Keeps Inv P (if b then m else k)
  Keeps-if true hm hk = hm
  Keeps-if false hm hk = hk

  pub Keeps-option :
      {A B : Type 0} {P : B → Type 0} (o : Option A) {m : Step S B} {k : A → Step S B}
      → Keeps Inv P m
      → ((a : A) → Keeps Inv P (k a))
      → Keeps Inv P (option_or m k o)
  Keeps-option none hm hk = hm
  Keeps-option (some a) hm hk = hk a

  pub Keeps-outcome :
      {A B : Type 0} {P : A → Type 0} {Q : B → Type 0} (o : Outcome A) {m : Error → Step S B}
      {k : A → Step S B}
      → Got P o
      → ((e : Error) → Keeps Inv Q (m e))
      → ((a : A) → P a → Keeps Inv Q (k a))
      → Keeps Inv Q (outcome_or m k o)
  Keeps-outcome (got a) p hm hk = hk a p
  Keeps-outcome (lost e) p hm hk = hm e

abbrev pub Nothing : {S : Type 0} → S → Type 0
Nothing s = Unit {0}

-- Where there is no invariant, each call keeps it.
pub keeps_any : {S A : Type 0} (m : Step S A) → Keeps Nothing Any m
keeps_any m = keeps (λ s h. (tt, λ a q. tt))

pub value_of_keeps :
    {S A : Type 0} {P : A → Type 0} {m : Step S A}
    → Keeps Nothing P m
    → (s : S) (a : A) → (m s).0 ≡ ok a
    → P a
value_of_keeps (keeps k) s a e = (k s tt).1 a e
