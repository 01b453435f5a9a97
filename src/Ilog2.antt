-- ===== src/Ilog2.antt =====
-- `ilog2` of lab4/lab4/kernel/math.c, in the debug version and in the optimized one, and
-- `sum_region` of the same file.
pub mod Log
pub mod Fast
use fundamental_of_emb.Common.{
  ℕ, zero, suc, ◌+◌, ◌/◌, ◌^◌, not, Option, none, some, List, [], ◌∷◌, get_or, bit_and, bit_or,
  add32, ◌==◌, if◌then◌else◌,
}

-- `while (x >>= 1) r++`, for a word.
unfoldable pub ilog2_loop : ℕ → ℕ → ℕ → Option ℕ
ilog2_loop zero x r = none
ilog2_loop (suc fuel) x r =
    let rest = ilog2_loop fuel (x / 2) (r + 1) in if x / 2 == 0 then some r else rest

-- The debug version. A word has 32 digits, so the loop ends in 32 rounds.
unfoldable pub ilog2_debug : ℕ → Option ℕ
ilog2_debug x = ilog2_loop 32 x 0

-- The arrays `b` and `S` of the optimized version.
abbrev pub masks : List ℕ
masks = 2 ∷ 12 ∷ 240 ∷ 65280 ∷ 4294901760 ∷ []

abbrev pub shifts : List ℕ
shifts = 1 ∷ 2 ∷ 4 ∷ 8 ∷ 16 ∷ []

-- One round: `v` and `r` after it.
unfoldable pub ilog2_round : ℕ → ℕ → ℕ → ℕ × ℕ
ilog2_round i v r =
    if not (bit_and v (get_or masks i 0) == 0)
    then (v / 2 ^ get_or shifts i 0, bit_or r (get_or shifts i 0))
    else (v, r)

-- The rounds `i - 1` down to 0.
unfoldable pub ilog2_rounds : ℕ → ℕ → ℕ → ℕ
ilog2_rounds zero v r = r
ilog2_rounds (suc i) v r = let (v', r') = ilog2_round i v r in ilog2_rounds i v' r'

-- The optimized version.
unfoldable pub ilog2 : ℕ → ℕ
ilog2 v = ilog2_rounds 5 v 0

-- `sum_region`: the sum of the first words, modulo 2^32.
unfoldable pub sum_region : (ℕ → ℕ) → ℕ → ℕ
sum_region buf zero = 0
sum_region buf (suc i) = add32 (sum_region buf i) (buf i)
