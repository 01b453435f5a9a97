-- ===== src/Calc.antt =====
-- The calculator of Lab1/Solution/lab1-part1-sdhandha/lab1/calc: math.c and calc.c.
pub mod Division
use fundamental_of_emb.Common.{
  ℕ, zero, suc, ◌+◌, ◌-◌, ◌*◌, ◌/◌, ◌%◌, ◌^◌, ◌||◌, ◌&&◌, Bool, true, false, Option, none, some,
  List, [], ◌∷◌, ◌==◌, if◌then◌else◌, u32, add32, sub32, is_negative,
}

-- An `int` is its 32-bit pattern; sums, differences and products wrap, as the processor's do.
abbrev pub neg32 : ℕ → ℕ
neg32 w = sub32 0 w

abbrev pub abs32 : ℕ → ℕ
abs32 w = if is_negative w then neg32 w else w

abbrev pub mul32 : ℕ → ℕ → ℕ
mul32 a b = u32 (a * b)

unfoldable pub add : ℕ → ℕ → ℕ
add x y = add32 x y

unfoldable pub sub : ℕ → ℕ → ℕ
sub x y = sub32 x y

unfoldable pub mul : ℕ → ℕ → ℕ
mul x y = mul32 x y

-- The operands for which C says nothing about `x / y` and `x % y`: a zero divisor, and the least int
-- by -1, whose quotient is no int.
abbrev pub is_undefined : ℕ → ℕ → Bool
is_undefined x y = y == 0 || (x == 2 ^ 31 && y == 2 ^ 32 - 1)

-- What the processor or the compiler's library then gives, for `/` and for `%`.
module _ (any_quotient any_remainder : ℕ → ℕ → ℕ) where
  -- `x / y` of C: the quotient of the absolute values, with a sign.
  abbrev pub quotient : ℕ → ℕ → ℕ
  quotient x y =
      let q = abs32 x / abs32 y in
      if is_undefined x y
      then any_quotient x y
      else if is_negative x
      then if is_negative y then q else neg32 q
      else if is_negative y
      then neg32 q
      else q

  -- `x % y` of C: the remainder has the sign of `x`.
  abbrev pub remainder : ℕ → ℕ → ℕ
  remainder x y =
      let r = abs32 x % abs32 y in
      if is_undefined x y then any_remainder x y else if is_negative x then neg32 r else r

  unfoldable pub cdiv : ℕ → ℕ → ℕ
  cdiv x y = if y == 0 then 0 else quotient x y

  unfoldable pub modulo : ℕ → ℕ → ℕ
  modulo x y = if y == 0 then 0 else remainder x y

-- What a call of `scanf` that reads all three values leaves in `a`, `ch` and `b`.
pub record Scan : Type 0 where
  pub a : ℕ
  pub ch : ℕ
  pub b : ℕ

-- The default case sets the flag, and the loop stops.
abbrev pub after_round : Option ℕ → List ℕ → List ℕ
after_round none later = []
after_round (some v) later = v ∷ later

module _ (any_quotient any_remainder : ℕ → ℕ → ℕ) where
  -- The value that a round prints; `none` is the default case.
  abbrev pub result : Scan → Option ℕ
  result s =
      if s.ch == b'+'
      then some (add s.a s.b)
      else if s.ch == b'-'
      then some (sub s.a s.b)
      else if s.ch == b'*'
      then some (mul s.a s.b)
      else if s.ch == b'/'
      then some (cdiv any_quotient any_remainder s.a s.b)
      else if s.ch == b'%'
      then some (modulo any_quotient any_remainder s.a s.b)
      else none

  -- The numbers that `main` prints. The list has the calls of `scanf` that read three values, up to
  -- the first that does not.
  unfoldable pub main : List Scan → List ℕ
  main [] = []
  main (s ∷ rest) = after_round (result s) (main rest)
