-- ===== src/Base/Int.antt =====
-- The C type `int`, as an integer over the native numbers.
use Prim.Native.Nat.{ℕ, suc, ◌+◌, ◌-◌, ◌*◌, ◌/◌, ◌%◌, ◌<◌}
use mathlib.Core.Path.{◌≡◌}
use mathlib.Core.Logic.{◌↔◌}
use mathlib.Core.Bool.{Bool, true, false}
use native.Mathlib.Omega.{arith}
use smart_socksproxy.Base.Tests.{◌==◌}

-- `negsuc n` is -(n + 1).
pub data ℤ : Type 0 where
  pos : ℕ → ℤ
  negsuc : ℕ → ℤ

abbrev pub neg : ℕ → ℤ
neg n = elim n [ Prim.Native.Nat.zero ↦ pos 0 | suc k ↦ negsuc k ]

abbrev pub eq_ℤ : ℤ → ℤ → Bool
eq_ℤ (pos a) (pos b) = a == b
eq_ℤ (negsuc a) (negsuc b) = a == b
eq_ℤ _ _ = false

pub eq_ℤ_iff : (a b : ℤ) → (eq_ℤ a b ≡ true) ↔ (a ≡ b)
eq_ℤ_iff (pos a) (pos b) = ground arith
eq_ℤ_iff _ _ = ground arith

-- The low 16 bits in two's complement.
abbrev pub low_16 : ℤ → ℕ
low_16 (pos n) = n % 65536
low_16 (negsuc n) = 65535 - n % 65536

-- The low 32 bits in two's complement.
abbrev pub low_32 : ℤ → ℕ
low_32 (pos n) = n % 4294967296
low_32 (negsuc n) = 4294967295 - n % 4294967296
