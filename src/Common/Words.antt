-- ===== src/Common/Words.antt =====
-- 32-bit words: wrap-around, the sign of an `int`, and the integers that the calls return.
use Prim.Native.Nat.{ℕ, ◌+◌, ◌-◌, ◌%◌, ◌^◌}
use mathlib.Core.Bool.{Bool}
use fundamental_of_emb.Common.Tests.{leb, if◌then◌else◌}

abbrev pub u32 : ℕ → ℕ
u32 n = n % 2 ^ 32

abbrev pub add32 : ℕ → ℕ → ℕ
add32 a b = u32 (a + b)

abbrev pub sub32 : ℕ → ℕ → ℕ
sub32 a b = u32 (a + 2 ^ 32 - b)

-- An `int` is its bit pattern.
abbrev pub is_negative : ℕ → Bool
is_negative w = leb (2 ^ 31) w

-- The `int` that a call returns; `negsuc n` is -(n + 1).
pub data ℤ : Type 0 where
  pos : ℕ → ℤ
  negsuc : ℕ → ℤ

-- `-e` for a positive error number `e`.
abbrev pub minus : ℕ → ℤ
minus e = negsuc (e - 1)

-- The `int` with a 32-bit pattern.
abbrev pub int_of : ℕ → ℤ
int_of w = if is_negative w then negsuc (2 ^ 32 - 1 - w) else pos w
