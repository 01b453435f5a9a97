-- ===== src/RandGenerator/Counts.antt =====
-- Occurrences in an array, and the inner loop of `randGenerator`
-- (Lab1/Solution/lab1-part2-sdhandha/part2c.c).
use fundamental_of_emb.Common.{
  ℕ, zero, suc, ◌+◌, ◌<◌, ◌≤◌, ◌≡◌, ◌⊎◌, ◌&&◌, leb, refl, ap, ltb, ◌==◌, ==_iff, if◌then◌else◌,
  arith, Bool-cases, inl, inr,
}
use fundamental_of_emb.RandGenerator.{rcount}

-- How often `r` stands in the first `n` entries.
unfoldable pub occurrences : (ℕ → ℕ) → ℕ → ℕ → ℕ
occurrences arr r zero = 0
occurrences arr r (suc n) = occurrences arr r n + (if arr n == r then 1 else 0)

occurrences-le : (arr : ℕ → ℕ) (r j n : ℕ) → j ≤ n → occurrences arr r j ≤ occurrences arr r n
unfolding occurrences
occurrences-le arr r j zero le = let at : j ≡ 0 = omega (arith, le) in rw at (omega arith)
occurrences-le arr r j (suc n) le = elim (Bool-cases (j == suc n)) [
  | inl e ↦ let at : j ≡ suc n = (==_iff j (suc n)).0 e in rw at (omega arith)
  | inr ne ↦ ground (arith, occurrences-le arr r j n (ground (arith, le, ne)))
]

occurrences-next :
    (arr : ℕ → ℕ) (r j : ℕ)
    → (if arr j == r then occurrences arr r j + 1 else occurrences arr r j)
      ≡ occurrences arr r (suc j)
unfolding occurrences
occurrences-next arr r j = ground arith

rcount-from :
    (left : ℕ) (arr : ℕ → ℕ) (r j n : ℕ)
    → j + left ≡ n
    → ltb (rcount arr r left j (occurrences arr r j)) 2 ≡ ltb (occurrences arr r n) 2
unfolding rcount
rcount-from zero arr r j n e = ap (λ x. ltb (occurrences arr r x) 2) (omega (arith, e))
rcount-from (suc left) arr r j n e = elim (Bool-cases (ltb (occurrences arr r j) 2)) [
  | inl few ↦
      let one : j + 1 ≡ suc j = omega arith in
      rw (few, occurrences-next arr r j, one) (rcount-from left arr r (suc j) n (omega (arith, e)))
  | inr many ↦ rw many (ground (arith, many, occurrences-le arr r j n (omega (arith, e))))
]

-- The inner loop tells whether `r` occurs at most once among the first `n`.
pub rcount_lem : (arr : ℕ → ℕ) (r n : ℕ) → ltb (rcount arr r n 0 0) 2 ≡ ltb (occurrences arr r n) 2
unfolding occurrences
rcount_lem arr r n = rcount-from n arr r 0 n (omega arith)

-- How many of the first `n` entries lie between 1 and `m`.
unfoldable pub total : (ℕ → ℕ) → ℕ → ℕ → ℕ
total arr zero n = 0
total arr (suc m) n = total arr m n + occurrences arr (suc m) n

-- An entry counts at most once.
total-suc :
    (arr : ℕ → ℕ) (m n : ℕ)
    → total arr m (suc n) ≡ total arr m n + (if ltb 0 (arr n) && leb (arr n) m then 1 else 0)
unfolding total occurrences
total-suc arr zero n = ground arith
total-suc arr (suc m) n = ground (arith, total-suc arr m n)

total-zero : (arr : ℕ → ℕ) (m : ℕ) → total arr m 0 ≡ 0
unfolding total occurrences
total-zero arr zero = refl
total-zero arr (suc m) = omega (arith, total-zero arr m)

pub total-le : (arr : ℕ → ℕ) (m n : ℕ) → total arr m n ≤ n
total-le arr m zero = omega (arith, total-zero arr m)
total-le arr m (suc n) = ground (arith, total-suc arr m n, total-le arr m n)

-- Among more than n / 2 numbers one occurs at most once in the first `n` entries.
pub rare :
    (arr : ℕ → ℕ) (m n : ℕ)
    → ((r : ℕ) × (0 < r) × (r ≤ m) × (occurrences arr r n < 2)) ⊎ (m + m ≤ total arr m n)
unfolding total
rare arr zero n = inr (omega arith)
rare arr (suc m) n = elim (Bool-cases (ltb (occurrences arr (suc m) n) 2)) [
  | inl few ↦ inl (suc m, omega arith, omega arith, ground (arith, few))
  | inr many ↦ elim (rare arr m n) [
    | inl (r, lo, hi, few) ↦ inl (r, lo, omega (arith, hi), few)
    | inr h ↦ inr (ground (arith, h, many))
  ]
]
