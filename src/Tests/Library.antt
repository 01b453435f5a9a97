-- ===== src/Tests/Library.antt =====
-- The integer, memory and character routines, the calculator and the array generator on concrete
-- inputs.
use fundamental_of_emb.Common.{
  false, inl, ℕ, ◌+◌, ◌-◌, ◌%◌, ◌^◌, ◌<◌, ◌≤◌, ◌≡◌, refl, Option, none, some, List, [], ◌∷◌, suc,
  arith,
}
use fundamental_of_emb.Ilog2.{ilog2, ilog2_debug, sum_region}
use fundamental_of_emb.Ilog2.Fast.{ilog2_lem}
use fundamental_of_emb.Memmove.{memmove, memcpy, copied, memmove_lem}
use fundamental_of_emb.Calc.{main, add, sub, mul, cdiv, modulo}
use fundamental_of_emb.Calc.Division.{Divides, cdiv_lem}
use fundamental_of_emb.RandGenerator.{rand_generator, fill_random, draw, rcount}
use fundamental_of_emb.RandGenerator.Ends.{Fair, Fills, rand_generator-Fills}

ilog2_lem_example :
    (2 ^ ilog2 1000 ≤ 1000) × (1000 < 2 ^ suc (ilog2 1000)) × (ilog2_debug 1000 ≡ some (ilog2 1000))
ilog2_lem_example = ilog2_lem 1000 (omega arith) (omega arith)

words_sum : sum_region (λ i. 2 ^ 31 + i) 3 ≡ 2 ^ 31 + 3
unfolding sum_region
words_sum = refl

-- The two areas overlap.
memmove_lem_example :
    (memmove 102 100 5 (λ a. a) 104 ≡ copied 102 100 5 (λ a. a) 104)
    × (memcpy 102 100 5 (λ a. a) 104 ≡ copied 102 100 5 (λ a. a) 104)
memmove_lem_example = memmove_lem 102 100 5 (λ a. a) 104

-- -7 and 2; where C leaves the result open, there is 77.
abbrev anything : ℕ → ℕ → ℕ
anything x y = 77

cdiv_lem_example :
    Divides false 4294967289 2
      (cdiv anything anything 4294967289 2)
      (modulo anything anything 4294967289 2)
cdiv_lem_example =
    cdiv_lem anything anything 4294967289 2 (omega arith) (omega arith)
      (inl (λ e. absurd (omega (arith, e))))

-- 2 + 3, 7 % 0, and an operator that is not known; the last line is not reached.
printed :
    main anything anything (
      record { a = 2; ch = b'+'; b = 3 }
      ∷ record { a = 7; ch = b'%'; b = 0 }
      ∷ record { a = 1; ch = b'^'; b = 1 }
      ∷ record { a = 2; ch = b'*'; b = 2 }
      ∷ [])
    ≡ 5 ∷ 0 ∷ []
unfolding main add sub mul cdiv modulo
printed = refl

-- `rand` counts up; an array of 5 entries has the numbers 1, 2 and 3.
counting_Fair : Fair (λ p. p) 5 3
counting_Fair p r lo hi = ((r + 2 - p % 3) % 3, omega arith, omega (arith, lo, hi))

rand_generator-Fills_example : Fills (λ p. p) 5 5 (rand_generator (λ p. p) 5 3 (λ i. 0))
rand_generator-Fills_example = rand_generator-Fills (λ p. p) 5 3 (λ i. 0) counting_Fair

abbrev entries : Option ((ℕ → ℕ) × ℕ) → List ℕ
entries none = []
entries (some (arr, used)) = arr 0 ∷ arr 1 ∷ arr 2 ∷ arr 3 ∷ arr 4 ∷ used ∷ []

-- Five calls of `rand` are enough.
filled : entries (rand_generator (λ p. p) 5 3 (λ i. 0)) ≡ 1 ∷ 2 ∷ 3 ∷ 1 ∷ 2 ∷ 5 ∷ []
unfolding rand_generator fill_random draw rcount
filled = refl
