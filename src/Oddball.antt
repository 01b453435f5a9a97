-- ===== src/Oddball.antt =====
-- The search for the number without a partner in Lab1/Solution/lab1-part2-sdhandha/part2c.c, in the
-- first version and in the first optimized one.
use fundamental_of_emb.Common.{
  ℕ, zero, suc, ◌<◌, ◌≤◌, ◌≡◌, ◌≢◌, refl, sym, subst, ◌∙◌, Bool, true, false, not, ltb, ◌==◌,
  if◌then◌else◌, ==_iff, arith, Bool-cases, inl, inr,
}

-- DEFAULT: the inner loop after the rounds for `j` below `n`, and the outer one for `i` below `n`.
unfoldable pub found_inner : ℕ → (ℕ → ℕ) → ℕ → Bool
found_inner zero arr i = false
found_inner (suc n) arr i =
    let before = found_inner n arr i in
    if i == n then before else if arr i == arr n then true else before

unfoldable pub outer_result : ℕ → ℕ → (ℕ → ℕ) → ℕ
outer_result len zero arr = 0
outer_result len (suc n) arr =
    let before = outer_result len n arr in if not (found_inner len arr n) then arr n else before

unfoldable pub oddball : (ℕ → ℕ) → ℕ → ℕ
oddball arr len = outer_result len len arr

-- OPTIMIZE1: the loops count down, from `n - 1` on, with `break` and `return`.
unfoldable pub found_down : ℕ → (ℕ → ℕ) → ℕ → Bool
found_down zero arr i = false
found_down (suc n) arr i =
    let rest = found_down n arr i in if i == n then rest else if arr i == arr n then true else rest

unfoldable pub search_down : ℕ → ℕ → (ℕ → ℕ) → ℕ
search_down len zero arr = 0
search_down len (suc n) arr =
    let rest = search_down len n arr in if not (found_down len arr n) then arr n else rest

unfoldable pub oddball_optimize1 : (ℕ → ℕ) → ℕ → ℕ
oddball_optimize1 arr len = search_down len len arr

found_same : (n : ℕ) (arr : ℕ → ℕ) (i : ℕ) → found_inner n arr i ≡ found_down n arr i
unfolding found_inner found_down
found_same zero arr i = refl
found_same (suc n) arr i = rw (found_same n arr i) refl

search_same : (len n : ℕ) (arr : ℕ → ℕ) → outer_result len n arr ≡ search_down len n arr
unfolding outer_result search_down
search_same len zero arr = refl
search_same len (suc n) arr = rw (search_same len n arr, found_same len arr n) refl

-- The entry `i` has a partner among the first `n`.
found_inner-other :
    (n : ℕ) (arr : ℕ → ℕ) (i j : ℕ) → j < n → i ≢ j → arr i ≡ arr j → found_inner n arr i ≡ true
unfolding found_inner
found_inner-other zero arr i j lt ne e = absurd (omega arith)
found_inner-other (suc n) arr i j lt ne e = ground (arith, found_inner-other n arr i j)

found_inner-alone :
    (n : ℕ) (arr : ℕ → ℕ) (i : ℕ)
    → ((j : ℕ) → j < n → i ≢ j → arr i ≢ arr j)
    → found_inner n arr i ≡ false
unfolding found_inner
found_inner-alone zero arr i h = refl
found_inner-alone (suc n) arr i h =
    ground (arith, h n, found_inner-alone n arr i (λ j lt. h j (omega arith)))

module _ (arr : ℕ → ℕ) (len odd : ℕ) where
  -- The entry `odd` differs from every other, and every other has a partner.
  pub record IsOdd : Type 0 where
    pub inside : odd < len
    pub alone : (j : ℕ) → j < len → odd ≢ j → arr odd ≢ arr j
    pub partner : (i : ℕ) → i < len → i ≢ odd → (j : ℕ) × (j < len) × (i ≢ j) × (arr i ≡ arr j)

  outer_result_lem :
      IsOdd → (n : ℕ) → n ≤ len → outer_result len n arr ≡ (if ltb odd n then arr odd else 0)
  unfolding outer_result
  outer_result_lem h zero le = ground arith
  outer_result_lem h (suc n) le = elim (Bool-cases (odd == n)) [
    | inl e ↦
        let e' : odd ≡ n = (==_iff odd n).0 e in
        let f : found_inner len arr n ≡ false =
          subst (λ x. found_inner len arr x ≡ false) e' (found_inner-alone len arr odd h.alone) in
        rw (f, e') (ground arith)
    | inr e ↦
        let p = h.partner n (omega arith) (λ q. ground arith) in
        let f : found_inner len arr n ≡ true = found_inner-other len arr n p.0 p.1 p.2 p.3 in
        rw f (outer_result_lem h n (omega arith) ∙ ground arith)
  ]

-- Both versions return the entry that differs from every other, if every other has a partner.
pub oddball_lem :
    (arr : ℕ → ℕ) (len odd : ℕ)
    → IsOdd arr len odd
    → (oddball arr len ≡ arr odd) × (oddball_optimize1 arr len ≡ arr odd)
unfolding oddball oddball_optimize1
oddball_lem arr len odd h =
    let r : outer_result len len arr ≡ arr odd =
      outer_result_lem arr len odd h len (omega arith) ∙ ground (arith, h.inside) in
    (r, sym (search_same len len arr) ∙ r)

-- The two versions agree on every array, also on one without such an entry or with several.
pub oddball_same : (arr : ℕ → ℕ) (len : ℕ) → oddball_optimize1 arr len ≡ oddball arr len
unfolding oddball oddball_optimize1
oddball_same arr len = sym (search_same len len arr)
