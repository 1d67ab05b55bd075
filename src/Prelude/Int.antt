-- ===== src/Prelude/Int.antt =====
-- Go's `int`, where the sign matters: the settings that an administrator may set to any integer.
use Prim.Native.Nat.{ℕ}
use mathlib.Core.Bool.{Bool, false}
use simple_auth.Prelude.Tests.{ltb}

-- `negsuc n` is -(n + 1).
pub data ℤ : Type 0 where
  pos : ℕ → ℤ
  negsuc : ℕ → ℤ

-- 0 < i
abbrev pub is_positive : ℤ → Bool
is_positive (pos n) = ltb 0 n
is_positive (negsuc n) = false

-- The number of an integer that is not negative, else 0.
abbrev pub to_nat : ℤ → ℕ
to_nat (pos n) = n
to_nat (negsuc n) = 0
