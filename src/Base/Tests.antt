-- ===== src/Base/Tests.antt =====
-- Boolean tests on the native numbers, the conditional, and fields of bits.
use Prim.Native.Nat.{ℕ, ◌/◌, ◌%◌, ◌^◌, ◌<◌, compare, Ordering}
use mathlib.Core.Path.{◌≡◌, refl}
use mathlib.Core.Logic.{◌↔◌, ◌⊎◌, inl, inr}
use mathlib.Core.Bool.{Bool, true, false}
use mathlib.Core.Option.{Option, none, some}
use native.Mathlib.Omega.{arith}

abbrev pub ltb : ℕ → ℕ → Bool
ltb a b = elim (compare a b) [ Ordering.lt ↦ true | _ ↦ false ]

abbrev pub leb : ℕ → ℕ → Bool
leb a b = elim (compare a b) [ Ordering.gt ↦ false | _ ↦ true ]

infix 50 ◌==◌ ◌!=◌
abbrev pub ◌==◌ : ℕ → ℕ → Bool
a == b = elim (compare a b) [ Ordering.eq ↦ true | _ ↦ false ]

abbrev pub ◌!=◌ : ℕ → ℕ → Bool
a != b = elim (compare a b) [ Ordering.eq ↦ false | _ ↦ true ]

infix 1 if◌then◌else◌
abbrev pub if◌then◌else◌ {ℓ} : {A : Type ℓ} → Bool → A → A → A
if true then x else y = x
if false then x else y = y

pub ltb→lt : (a b : ℕ) → ltb a b ≡ true → a < b
ltb→lt a b h = ground arith

pub lt→ltb : (a b : ℕ) → a < b → ltb a b ≡ true
lt→ltb a b h = ground arith

pub ==_iff : (a b : ℕ) → ((a == b) ≡ true) ↔ (a ≡ b)
==_iff a b = ground arith

pub ==_refl : (a : ℕ) → (a == a) ≡ true
==_refl a = ground arith

pub Bool-cases : (b : Bool) → (b ≡ true) ⊎ (b ≡ false)
Bool-cases true = inl refl
Bool-cases false = inr refl

pub Option-cases {ℓ} : {A : Type ℓ} (o : Option A) → (o ≡ none) ⊎ ((a : A) × (o ≡ some a))
Option-cases none = inl refl
Option-cases (some a) = inr (a, refl)

-- A case split on an option, as a function.
abbrev pub option_or {ℓ κ} : {A : Type ℓ} {B : Type κ} → B → (A → B) → Option A → B
option_or d f none = d
option_or d f (some a) = f a

-- `x >> k`, `x & (2^k - 1)`, and `x & (1 << k) != 0`, as arithmetic. An `|` of operands with no
-- bit in common is written as a sum.
abbrev pub shr : ℕ → ℕ → ℕ
shr x k = x / 2 ^ k

abbrev pub low_bits : ℕ → ℕ → ℕ
low_bits x k = x % 2 ^ k

abbrev pub test_bit : ℕ → ℕ → Bool
test_bit x k = (x / 2 ^ k % 2) == 1

-- The number that a Boolean stands for as a bit.
abbrev pub bit : Bool → ℕ
bit true = 1
bit false = 0

abbrev pub IsByte : ℕ → Type 0
IsByte b = b < 256
