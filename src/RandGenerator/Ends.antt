-- ===== src/RandGenerator/Ends.antt =====
-- `randGenerator` of Lab1/Solution/lab1-part2-sdhandha/part2c.c comes to its end.
use fundamental_of_emb.Common.{
  ℕ, zero, suc, ◌+◌, ◌-◌, ◌/◌, ◌%◌, ◌<◌, ◌≤◌, ◌≡◌, refl, subst, sym, false, Option, some, update,
  ltb, ◌==◌, ==_iff, arith, Bool-cases, inl, inr,
}
use native.Mathlib.Nat.{mod-lt}
use fundamental_of_emb.RandGenerator.{scaled, draw, fill_random, rand_generator}
use fundamental_of_emb.RandGenerator.Counts.{occurrences, rcount_lem, total-le, rare}

module _ (rand : ℕ → ℕ) (len : ℕ) where
  -- From everywhere on, each of the numbers 1 to len / 2 + 1 comes among the next `fuel` calls.
  abbrev pub Fair : ℕ → Type 0
  Fair fuel =
      (p r : ℕ) → 0 < r → r ≤ len / 2 + 1 → (d : ℕ) × (d < fuel) × (scaled len (rand (p + d)) ≡ r)

  record Drawn (arr : ℕ → ℕ) (i : ℕ) (o : Option (ℕ × ℕ)) : Type 0 where
    value : ℕ
    used : ℕ
    ends : o ≡ some (value, used)
    few : occurrences arr value i < 2
    range : (0 < value) × (value ≤ len / 2 + 1)

  scaled_range : (x : ℕ) → (0 < scaled len x) × (scaled len x ≤ len / 2 + 1)
  scaled_range x =
      let lt : x % (len / 2 + 1) < len / 2 + 1 = mod-lt x (omega arith) in
      (omega arith, omega (arith, lt))

  draw-Drawn :
      (fuel : ℕ) (arr : ℕ → ℕ) (i used d : ℕ)
      → d < fuel
      → occurrences arr (scaled len (rand (used + d))) i < 2
      → Drawn arr i (draw rand len fuel arr i used)
  unfolding draw
  draw-Drawn zero arr i used d lt few = absurd (omega (arith, lt))
  draw-Drawn (suc fuel) arr i used d lt few =
      elim (Bool-cases (ltb (occurrences arr (scaled len (rand used)) i) 2)) [
        | inl now ↦
            rw (rcount_lem arr (scaled len (rand used)) i, now)
              (record {
                value = scaled len (rand used);
                used = used + 1;
                ends = refl;
                few = ground (arith, now);
                range = scaled_range (rand used);
              })
        | inr later ↦ elim (Bool-cases (d == 0)) [
          | inl z ↦
              let here : used + d ≡ used = ground (arith, z) in
              let f = subst (λ x. occurrences arr (scaled len (rand x)) i < 2) here few in
              absurd (ground (arith, f, later))
          | inr nz ↦
              let there : used + d ≡ used + 1 + (d - 1) = ground (arith, nz) in
              rw (rcount_lem arr (scaled len (rand used)) i, later)
                (draw-Drawn fuel arr i (used + 1) (d - 1) (ground (arith, lt, nz))
                  (subst (λ x. occurrences arr (scaled len (rand x)) i < 2) there few))
        ]
      ]

  -- All of the first `n` entries are in the range, and none occurs more than twice.
  pub record Spread (arr : ℕ → ℕ) (n : ℕ) : Type 0 where
    pub range : (j : ℕ) → j < n → (0 < arr j) × (arr j ≤ len / 2 + 1)
    pub twice : (r : ℕ) → occurrences arr r n ≤ 2

  pub record Fills (n : ℕ) (o : Option ((ℕ → ℕ) × ℕ)) : Type 0 where
    pub after : ℕ → ℕ
    pub used : ℕ
    pub ends : o ≡ some (after, used)
    pub spread : Spread after n

  -- Fewer than `len` entries leave a number that the loop can take.
  free_value :
      (arr : ℕ → ℕ) (i : ℕ)
      → i < len
      → (r : ℕ) × (0 < r) × (r ≤ len / 2 + 1) × (occurrences arr r i < 2)
  free_value arr i lt = elim (rare arr (len / 2 + 1) i) [
    | inl found ↦ found
    | inr full ↦ absurd (omega (arith, full, total-le arr (len / 2 + 1) i, lt))
  ]

  drawn :
      (fuel : ℕ) (arr : ℕ → ℕ) (i used : ℕ)
      → Fair fuel
      → i < len
      → Drawn arr i (draw rand len fuel arr i used)
  drawn fuel arr i used fair lt =
      let (r, lo, hi, few) = free_value arr i lt in
      let (d, bound, e) = fair used r lo hi in
      draw-Drawn fuel arr i used d bound (subst (λ x. occurrences arr x i < 2) (sym e) few)

  occurrences-update :
      (arr : ℕ → ℕ) (i x r n : ℕ) → n ≤ i → occurrences (update arr i x) r n ≡ occurrences arr r n
  unfolding occurrences
  occurrences-update arr i x r zero le = refl
  occurrences-update arr i x r (suc n) le =
      let other : (i == n) ≡ false = ground arith in
      rw (other, occurrences-update arr i x r n (omega (arith, le))) refl

  put-Spread :
      (arr : ℕ → ℕ) (i x : ℕ)
      → Spread arr i
      → occurrences arr x i < 2
      → (0 < x) × (x ≤ len / 2 + 1)
      → Spread (update arr i x) (suc i)
  unfolding occurrences
  put-Spread arr i x s few range = record {
    range = λ j lt. elim (Bool-cases (i == j)) [
      | inl e ↦ rw e range
      | inr ne ↦ rw ne (s.range j (ground (arith, lt, ne)))
    ];
    twice = λ r. elim (Bool-cases (x == r)) [
      | inl e ↦
          let at : x ≡ r = (==_iff x r).0 e in
          let f = subst (λ y. occurrences arr y i < 2) at few in
          rw (occurrences-update arr i x r i (omega arith)) (ground (arith, e, f))
      | inr ne ↦ rw (occurrences-update arr i x r i (omega arith)) (ground (arith, ne, s.twice r))
    ];
  }

  empty-le : (arr : ℕ → ℕ) (r : ℕ) → occurrences arr r 0 ≤ 2
  unfolding occurrences
  empty-le arr r = omega arith

  fill-Fills :
      (fuel : ℕ) (arr : ℕ → ℕ) (n : ℕ)
      → Fair fuel
      → n ≤ len
      → Fills n (fill_random rand len fuel arr n)
  unfolding fill_random
  fill-Fills fuel arr zero fair le = record {
    after = arr;
    used = 0;
    ends = refl;
    spread = record { range = λ j lt. absurd (omega (arith, lt)); twice = empty-le arr };
  }
  fill-Fills fuel arr (suc n) fair le =
      let f = fill-Fills fuel arr n fair (omega (arith, le)) in
      let d = drawn fuel f.after n f.used fair (omega (arith, le)) in
      record {
        after = update f.after n d.value;
        used = d.used;
        ends = rw (f.ends, d.ends) refl;
        spread = put-Spread f.after n d.value f.spread d.few d.range;
      }

  -- If `rand` gives from everywhere on each of the numbers that the entries can have within `fuel`
  -- calls, then `randGenerator` comes to its end with at most `fuel` calls of `rand` for an entry,
  -- whatever the array held; all entries lie between 1 and len / 2 + 1, and none occurs more than
  -- twice.
  pub rand_generator-Fills :
      (fuel : ℕ) (arr : ℕ → ℕ) → Fair fuel → Fills len (rand_generator rand len fuel arr)
  unfolding rand_generator
  rand_generator-Fills fuel arr fair = fill-Fills fuel arr len fair (omega arith)
