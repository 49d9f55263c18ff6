-- ===== src/Base/Tests.antt =====
-- Boolean tests on the native numbers, and the conditional.
use Prim.Native.Nat.{ℕ, zero, suc, ◌<◌, ◌≤◌, compare, Ordering}
use mathlib.Core.Path.{◌≡◌, refl}
use mathlib.Core.Logic.{◌↔◌, ◌⊎◌, inl, inr}
use mathlib.Core.Bool.{Bool, true, false, ◌&&◌}
use mathlib.Core.Option.{Option, none, some}
use native.Mathlib.Omega.{arith}

abbrev pub ltb : ℕ → ℕ → Bool
ltb a b = elim (compare a b) [ Ordering.lt ↦ true | _ ↦ false ]

abbrev pub leb : ℕ → ℕ → Bool
leb a b = elim (compare a b) [ Ordering.gt ↦ false | _ ↦ true ]

infix 50 ◌==◌
abbrev pub ◌==◌ : ℕ → ℕ → Bool
a == b = elim (compare a b) [ Ordering.eq ↦ true | _ ↦ false ]

infix 1 if◌then◌else◌
abbrev pub if◌then◌else◌ {ℓ} : {A : Type ℓ} → Bool → A → A → A
if true then x else y = x
if false then x else y = y

pub leb→le : (a b : ℕ) → leb a b ≡ true → a ≤ b
leb→le a b h = ground arith

pub ==_iff : (a b : ℕ) → ((a == b) ≡ true) ↔ (a ≡ b)
==_iff a b = ground arith

pub Bool-cases : (b : Bool) → (b ≡ true) ⊎ (b ≡ false)
Bool-cases true = inl refl
Bool-cases false = inr refl

pub Option-cases {ℓ} : {A : Type ℓ} (o : Option A) → (o ≡ none) ⊎ ((a : A) × (o ≡ some a))
Option-cases none = inl refl
Option-cases (some a) = inr (a, refl)

-- What holds in all cases of a decision.
pub if-all {ℓ ℓ'} :
    {R : Type ℓ} (Q : R → Type ℓ') (b : Bool) (x y : R) → Q x → Q y → Q (if b then x else y)
if-all Q true x y qx qy = qx
if-all Q false x y qx qy = qy

pub option-all {ℓ ℓ' ℓ''} :
    {A : Type ℓ} {R : Type ℓ'} (Q : R → Type ℓ'') (o : Option A) (x : R) (f : A → R)
    → Q x
    → ((a : A) → Q (f a))
    → Q (elim o [ none ↦ x | some a ↦ f a ])
option-all Q none x f qx qf = qx
option-all Q (some a) x f qx qf = qf a

abbrev pub is_some {ℓ} : {A : Type ℓ} → Option A → Bool
is_some none = false
is_some (some a) = true

-- A test of the first `count` numbers, the largest first.
unfoldable pub passes_all : (ℕ → Bool) → ℕ → Bool
passes_all test zero = true
passes_all test (suc count) = test count && passes_all test count

pub passes_at :
    (test : ℕ → Bool) (count at : ℕ) → at < count → passes_all test count ≡ true → test at ≡ true
unfolding passes_all
passes_at test (suc count) at lt all = ground (arith, passes_at test count at)
passes_at test zero at lt all = absurd (omega arith)
