-- ===== src/Common/Masks.antt =====
-- `a & m` for a mask `m` of consecutive ones.
use Prim.Native.Nat.{
  ℕ, zero, suc, ◌+◌, ◌*◌, ◌/◌, ◌%◌, ◌≤◌, ◌<◌, min, bit_and, digits, bit_and-bitwise,
}
use mathlib.Core.Path.{◌≡◌, refl, ◌∙◌, sym, ap}
use mathlib.Core.Bool.{true}
use native.Mathlib.Omega.{arith}
use fundamental_of_emb.Common.Tests.{◌==◌, ==_iff}
use fundamental_of_emb.Common.Bytes.{holds_below, holds_below_at}

-- The digits of `a & b` with a count `n` of digits to go, which is enough from `a` on.
abbrev conjunction : ℕ → ℕ → ℕ → ℕ
conjunction n a b = digits (λ x. 0) min n a b

conjunction_enough : (n m a b : ℕ) → a ≤ n → a ≤ m → conjunction n a b ≡ conjunction m a b
conjunction_enough zero zero a b hn hm = refl
conjunction_enough zero (suc m) zero b hn hm = refl
conjunction_enough zero (suc m) (suc c) b hn hm = absurd (omega arith)
conjunction_enough (suc n) zero zero b hn hm = refl
conjunction_enough (suc n) zero (suc c) b hn hm = absurd (omega arith)
conjunction_enough (suc n) (suc m) zero b hn hm = refl
conjunction_enough (suc n) (suc m) (suc c) b hn hm =
    ap (λ x. x * 2 + min (suc c % 2) (b % 2))
      (conjunction_enough n m (suc c / 2) (b / 2) (omega arith) (omega arith))

and_none : (b : ℕ) → bit_and 0 b ≡ 0
and_none b = bit_and-bitwise 0 b

-- The lowest digit apart.
pub and_digit : (a b : ℕ) → bit_and a b ≡ bit_and (a / 2) (b / 2) * 2 + min (a % 2) (b % 2)
and_digit zero b = omega (arith, and_none b, and_none (b / 2))
and_digit (suc c) b =
    bit_and-bitwise (suc c) b
    ∙ ap (λ x. x * 2 + min (suc c % 2) (b % 2))
        (conjunction_enough c (suc c / 2) (suc c / 2) (b / 2) (omega arith) (omega arith)
          ∙ sym (bit_and-bitwise (suc c / 2) (b / 2)))

-- A mask that ends in zeros.
pub and_double : (a m : ℕ) → bit_and a (2 * m) ≡ 2 * bit_and (a / 2) m
and_double a m = let e : 2 * m / 2 ≡ m = omega arith in and_digit a (2 * m) ∙ rw e (omega arith)

pub and_times4 : (a m : ℕ) → bit_and a (4 * m) ≡ 4 * bit_and (a / 4) m
and_times4 a m =
    let regroup : 4 * m ≡ 2 * (2 * m) = omega arith in
    let halves : a / 2 / 2 ≡ a / 4 = omega arith in
    ap (bit_and a) regroup
    ∙ and_double a (2 * m)
    ∙ ap (λ x. 2 * x) (and_double (a / 2) m)
    ∙ ap (λ x. 2 * (2 * bit_and x m)) halves
    ∙ omega arith

pub and_times16 : (a m : ℕ) → bit_and a (16 * m) ≡ 16 * bit_and (a / 16) m
and_times16 a m =
    let regroup : 16 * m ≡ 4 * (4 * m) = omega arith in
    let halves : a / 4 / 4 ≡ a / 16 = omega arith in
    ap (bit_and a) regroup
    ∙ and_times4 a (4 * m)
    ∙ ap (λ x. 4 * x) (and_times4 (a / 4) m)
    ∙ ap (λ x. 4 * (4 * bit_and x m)) halves
    ∙ omega arith

pub and_times256 : (a m : ℕ) → bit_and a (256 * m) ≡ 256 * bit_and (a / 256) m
and_times256 a m =
    let regroup : 256 * m ≡ 16 * (16 * m) = omega arith in
    let halves : a / 16 / 16 ≡ a / 256 = omega arith in
    ap (bit_and a) regroup
    ∙ and_times16 a (16 * m)
    ∙ ap (λ x. 16 * x) (and_times16 (a / 16) m)
    ∙ ap (λ x. 16 * (16 * bit_and x m)) halves
    ∙ omega arith

pub and_times65536 : (a m : ℕ) → bit_and a (65536 * m) ≡ 65536 * bit_and (a / 65536) m
and_times65536 a m =
    let regroup : 65536 * m ≡ 256 * (256 * m) = omega arith in
    let halves : a / 256 / 256 ≡ a / 65536 = omega arith in
    ap (bit_and a) regroup
    ∙ and_times256 a (256 * m)
    ∙ ap (λ x. 256 * x) (and_times256 (a / 256) m)
    ∙ ap (λ x. 256 * (256 * bit_and x m)) halves
    ∙ omega arith

-- A mask of `s` ones leaves a number below `2 ^ s` as it is.
ones2 : holds_below 2 (λ w. bit_and w 1 == w) ≡ true
unfolding holds_below
ones2 = refl

ones4 : holds_below 4 (λ w. bit_and w 3 == w) ≡ true
unfolding holds_below
ones4 = refl

ones16 : holds_below 16 (λ w. bit_and w 15 == w) ≡ true
unfolding holds_below
ones16 = refl

ones256 : holds_below 256 (λ w. bit_and w 255 == w) ≡ true
unfolding holds_below
ones256 = refl

ones65536 : holds_below 65536 (λ w. bit_and w 65535 == w) ≡ true
unfolding holds_below
ones65536 = refl

-- The upper half of the digits of a number of twice as many.
pub upper_half2 : (v : ℕ) → v < 4 → bit_and v 2 ≡ 2 * (v / 2)
upper_half2 v lt =
    and_double v 1
    ∙ ap (λ x. 2 * x)
        ((==_iff (bit_and (v / 2) 1) (v / 2)).0
          (holds_below_at 2 (λ w. bit_and w 1 == w) (v / 2) ones2 (omega arith)))

pub upper_half4 : (v : ℕ) → v < 16 → bit_and v 12 ≡ 4 * (v / 4)
upper_half4 v lt =
    and_times4 v 3
    ∙ ap (λ x. 4 * x)
        ((==_iff (bit_and (v / 4) 3) (v / 4)).0
          (holds_below_at 4 (λ w. bit_and w 3 == w) (v / 4) ones4 (omega arith)))

pub upper_half16 : (v : ℕ) → v < 256 → bit_and v 240 ≡ 16 * (v / 16)
upper_half16 v lt =
    and_times16 v 15
    ∙ ap (λ x. 16 * x)
        ((==_iff (bit_and (v / 16) 15) (v / 16)).0
          (holds_below_at 16 (λ w. bit_and w 15 == w) (v / 16) ones16 (omega arith)))

pub upper_half256 : (v : ℕ) → v < 65536 → bit_and v 65280 ≡ 256 * (v / 256)
upper_half256 v lt =
    and_times256 v 255
    ∙ ap (λ x. 256 * x)
        ((==_iff (bit_and (v / 256) 255) (v / 256)).0
          (holds_below_at 256 (λ w. bit_and w 255 == w) (v / 256) ones256 (omega arith)))

pub upper_half65536 : (v : ℕ) → v < 4294967296 → bit_and v 4294901760 ≡ 65536 * (v / 65536)
upper_half65536 v lt =
    and_times65536 v 65535
    ∙ ap (λ x. 65536 * x)
        ((==_iff (bit_and (v / 65536) 65535) (v / 65536)).0
          (holds_below_at 65536 (λ w. bit_and w 65535 == w) (v / 65536) ones65536 (omega arith)))
