-- ===== src/Prelude/Int.antt =====
-- Signed integers over the native numbers, under the library's names, and Go's int64 among them.
use Prim.Native.Nat.{ℕ, suc, ◌-◌, ◌^◌, ◌<◌}
use mathlib.Core.Bool.{Bool, true, false}
use finance_engine.Prelude.Tests.{nat_eq, nat_beq, if◌then◌else◌}

-- `negsuc n` is -(n + 1).
pub data ℤ : Type 0 where
  pos : ℕ → ℤ
  negsuc : ℕ → ℤ

-- `x < 0`
abbrev pub is_negative : ℤ → Bool
is_negative (pos n) = false
is_negative (negsuc n) = true

-- `x == 0`
abbrev pub is_zero : ℤ → Bool
is_zero (pos n) = nat_beq n 0
is_zero (negsuc n) = false

-- The distance from zero.
abbrev pub magnitude : ℤ → ℕ
magnitude (pos n) = n
magnitude (negsuc n) = suc n

-- The values of an int64.
abbrev pub IsInt64 : ℤ → Type 0
IsInt64 (pos n) = n < 2 ^ 63
IsInt64 (negsuc n) = n < 2 ^ 63

-- `-x` on an int64: the least value has no opposite and stays what it is.
abbrev pub negate_int64 : ℤ → ℤ
negate_int64 (pos n) = if nat_beq n 0 then pos 0 else negsuc (n - 1)
negate_int64 (negsuc n) = if nat_beq n (2 ^ 63 - 1) then negsuc n else pos (suc n)
