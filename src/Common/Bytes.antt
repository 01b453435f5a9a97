-- ===== src/Common/Bytes.antt =====
-- Single bits of a `uint8_t`: the laws come from a check of all bytes and positions.
use Prim.Native.Nat.{ℕ, zero, suc, ◌-◌, ◌/◌, ◌%◌, ◌^◌, ◌<◌, bit_and, bit_or}
use mathlib.Core.Path.{◌≡◌, refl}
use mathlib.Core.Bool.{Bool, true, false, ◌&&◌}
use native.Mathlib.Omega.{arith}
use fundamental_of_emb.Common.Tests.{◌==◌, if◌then◌else◌}

-- Every number below the bound passes the test.
unfoldable pub holds_below : ℕ → (ℕ → Bool) → Bool
holds_below zero test = true
holds_below (suc last) test = holds_below last test && test last

pub holds_below_at :
    (bound : ℕ) (test : ℕ → Bool) (i : ℕ)
    → holds_below bound test ≡ true
    → i < bound
    → test i ≡ true
unfolding holds_below
holds_below_at zero test i passed inside = absurd (omega arith)
holds_below_at (suc last) test i passed inside = ground (arith, holds_below_at last test i)

-- Bit `k` of `b`.
unfoldable pub test_bit : ℕ → ℕ → Bool
test_bit b k = b / 2 ^ k % 2 == 1

-- `b = b | (1 << k)` on a `uint8_t`.
unfoldable pub set_bit : ℕ → ℕ → ℕ
set_bit b k = bit_or b (2 ^ k) % 256

-- `b = b & ~(1 << k)` on a `uint8_t`: the complement is taken in 32 bits.
unfoldable pub clear_bit : ℕ → ℕ → ℕ
clear_bit b k = bit_and b (2 ^ 32 - 1 - 2 ^ k) % 256

abbrev bool_eq : Bool → Bool → Bool
bool_eq true b = b
bool_eq false true = false
bool_eq false false = true

pub bool_eq→eq : (a b : Bool) → bool_eq a b ≡ true → a ≡ b
bool_eq→eq a b h = ground arith

abbrev set_check : ℕ → ℕ → ℕ → Bool
set_check b k j = bool_eq (test_bit (set_bit b k) j) (if k == j then true else test_bit b j)

abbrev clear_check : ℕ → ℕ → ℕ → Bool
clear_check b k j = bool_eq (test_bit (clear_bit b k) j) (if k == j then false else test_bit b j)

abbrev cube : (ℕ → ℕ → ℕ → Bool) → Bool
cube p = holds_below 256 (λ b. holds_below 8 (λ k. holds_below 8 (λ j. p b k j)))

cube_sound :
    (p : ℕ → ℕ → ℕ → Bool) (b k j : ℕ) → cube p ≡ true → b < 256 → k < 8 → j < 8 → p b k j ≡ true
cube_sound p b k j h hb hk hj =
    holds_below_at 8 (λ j. p b k j) j
      (holds_below_at 8 (λ k. holds_below 8 (λ j. p b k j)) k
        (holds_below_at 256 (λ b. holds_below 8 (λ k. holds_below 8 (λ j. p b k j))) b h hb) hk)
      hj

set_table : cube set_check ≡ true
unfolding holds_below test_bit set_bit
set_table = refl

clear_table : cube clear_check ≡ true
unfolding holds_below test_bit clear_bit
clear_table = refl

pub test_bit-set_bit :
    (b k j : ℕ)
    → b < 256
    → k < 8
    → j < 8
    → test_bit (set_bit b k) j ≡ (if k == j then true else test_bit b j)
test_bit-set_bit b k j hb hk hj = bool_eq→eq _ _ (cube_sound set_check b k j set_table hb hk hj)

pub test_bit-clear_bit :
    (b k j : ℕ)
    → b < 256
    → k < 8
    → j < 8
    → test_bit (clear_bit b k) j ≡ (if k == j then false else test_bit b j)
test_bit-clear_bit b k j hb hk hj =
    bool_eq→eq _ _ (cube_sound clear_check b k j clear_table hb hk hj)

pub set_bit-lt : (b k : ℕ) → set_bit b k < 256
unfolding set_bit
set_bit-lt b k = omega arith

pub clear_bit-lt : (b k : ℕ) → clear_bit b k < 256
unfolding clear_bit
clear_bit-lt b k = omega arith

zero_check : ℕ → ℕ → ℕ → Bool
zero_check b k j = bool_eq (set_bit b k == 0) false && (clear_bit 0 k == 0)

zero_table : cube zero_check ≡ true
unfolding holds_below zero_check set_bit clear_bit
zero_table = refl

pub set_bit-ne-zero : (b k : ℕ) → b < 256 → k < 8 → (set_bit b k == 0) ≡ false
unfolding zero_check
set_bit-ne-zero b k hb hk =
    ground (arith, cube_sound zero_check b k 0 zero_table hb hk (omega arith))

pub clear_bit-zero : (k : ℕ) → k < 8 → clear_bit 0 k ≡ 0
unfolding zero_check
clear_bit-zero k hk =
    ground (arith, cube_sound zero_check 0 k 0 zero_table (omega arith) hk (omega arith))

pub test_bit-zero : (k : ℕ) → test_bit 0 k ≡ false
unfolding test_bit
test_bit-zero k = ground arith
