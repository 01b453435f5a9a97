-- ===== src/RandGenerator.antt =====
-- `randGenerator` of Lab1/Solution/lab1-part2-sdhandha/part2c.c, which fills an array with random
-- numbers so that none occurs more than twice.
pub mod Counts
pub mod Ends
use fundamental_of_emb.Common.{
  ℕ, zero, suc, ◌+◌, ◌/◌, ◌%◌, Option, none, some, update, ltb, ◌==◌, if◌then◌else◌,
}

-- The inner loop, with `left` rounds to go from `j` on.
unfoldable pub rcount : (ℕ → ℕ) → ℕ → ℕ → ℕ → ℕ → ℕ
rcount arr r zero j count = count
rcount arr r (suc left) j count =
    let rest = rcount arr r left (j + 1) (if arr j == r then count + 1 else count) in
    if ltb count 2 then rest else count

-- `rand()%(len/2 + 1) + 1` for a number that `rand` gives.
abbrev pub scaled : ℕ → ℕ → ℕ
scaled len x = x % (len / 2 + 1) + 1

-- The calls of `rand` give the numbers of a sequence, one after the other.
module _ (rand : ℕ → ℕ) (len : ℕ) where
  -- The do-while loop for the entry `i`: the number that it ends with, and how many numbers of the
  -- sequence are used up then.
  unfoldable pub draw : ℕ → (ℕ → ℕ) → ℕ → ℕ → Option (ℕ × ℕ)
  draw zero arr i used = none
  draw (suc fuel) arr i used =
      let rest = draw fuel arr i (used + 1) in
      let r = scaled len (rand used) in
      if ltb (rcount arr r i 0 0) 2 then some (r, used + 1) else rest

  abbrev pub put : (ℕ → ℕ) → ℕ → Option (ℕ × ℕ) → Option ((ℕ → ℕ) × ℕ)
  put arr i none = none
  put arr i (some (r, used)) = some (update arr i r, used)

  abbrev pub then_draw : ℕ → ℕ → Option ((ℕ → ℕ) × ℕ) → Option ((ℕ → ℕ) × ℕ)
  then_draw fuel i none = none
  then_draw fuel i (some (arr, used)) = put arr i (draw fuel arr i used)

  -- The first `n` rounds of the outer loop.
  unfoldable pub fill_random : ℕ → (ℕ → ℕ) → ℕ → Option ((ℕ → ℕ) × ℕ)
  fill_random fuel arr zero = some (arr, 0)
  fill_random fuel arr (suc n) = then_draw fuel n (fill_random fuel arr n)

  -- The whole function, with at most `fuel` numbers for an entry.
  unfoldable pub rand_generator : ℕ → (ℕ → ℕ) → Option ((ℕ → ℕ) × ℕ)
  rand_generator fuel arr = fill_random fuel arr len
