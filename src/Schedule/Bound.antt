-- ===== src/Schedule/Bound.antt =====
-- What the test of lab4/lab4/kernel/sched/ub_test.c accepts.
use fundamental_of_emb.Common.{
  ℕ, zero, suc, ◌+◌, ◌-◌, ◌*◌, ◌^◌, ◌&&◌, leb, get_or, ◌≤◌, ◌<◌, ◌≡◌, ◌↔◌, refl, ◌∙◌, sym, ap,
  subst, Bool, true, false, arith, Bool-cases, inl, inr, ==_iff, ◌==◌,
}
use fundamental_of_emb.Task.{Task}
use fundamental_of_emb.Schedule.{
  Floats, bounds, bound, with_blocking, with_cost, schedule_from, assign_schedule,
}

module _ (f : Floats) (tasks : ℕ → Task) where
  open f use {Double, of_nat, millionths, add, div, above}

  -- What the first `i` tasks take of the processor: the sum of C / T, from the left.
  pub utilization : ℕ → Double
  utilization zero = millionths 0
  utilization (suc i) = add (utilization i) (div (of_nat (tasks i).cost) (of_nat (tasks i).period))

  -- What the tasks before task `i` take, with (C + B) / T of task `i`, is not above the limit.
  abbrev pub Fits : (ℕ → ℕ) → ℕ → Type 0
  Fits limit i =
      above
        (add (utilization i)
          (div (add (of_nat (tasks i).cost) (of_nat (tasks i).blocking)) (of_nat (tasks i).period)))
        (millionths (limit i))
      ≡ false

  abbrev table : ℕ → ℕ
  table i = get_or bounds i 0

  abbrev rejects : Double → ℕ → Bool
  rejects u i = above (with_blocking f u (tasks i)) (bound f i)

  utilization-next :
      (u : Double) (i : ℕ) → u ≡ utilization i → with_cost f u (tasks i) ≡ utilization (i + 1)
  unfolding utilization
  utilization-next u i e =
      let i' : suc i ≡ i + 1 = omega arith in
      ap (λ x. with_cost f x (tasks i)) e ∙ ap utilization i'

  schedule_from_sound :
      (rounds i : ℕ) (u : Double)
      → u ≡ utilization i
      → schedule_from f rounds i tasks u ≡ true
      → (j : ℕ) → i ≤ j
      → j < i + rounds
      → Fits table j
  unfolding schedule_from bound utilization
  schedule_from_sound zero i u e h j lo hi = absurd (omega arith)
  schedule_from_sound (suc rounds) i u e h j lo hi = elim (Bool-cases (rejects u i)) [
    | inl bad ↦ absurd (cc (rw bad at h))
    | inr good ↦ elim (Bool-cases (i == j)) [
      | inl here ↦ subst (Fits table) ((==_iff i j).0 here) (ap (λ x. rejects x i) (sym e) ∙ good)
      | inr later ↦
          schedule_from_sound rounds (i + 1) (with_cost f u (tasks i)) (utilization-next u i e)
            (rw good at h) j (ground arith) (omega arith)
    ]
  ]

  schedule_from_complete :
      (rounds i : ℕ) (u : Double)
      → u ≡ utilization i
      → ((j : ℕ) → i ≤ j → j < i + rounds → Fits table j)
      → schedule_from f rounds i tasks u ≡ true
  unfolding schedule_from bound utilization
  schedule_from_complete zero i u e h = refl
  schedule_from_complete (suc rounds) i u e h =
      rw (ap (λ x. rejects x i) e ∙ h i (omega arith) (omega arith)) (
        schedule_from_complete rounds (i + 1) (with_cost f u (tasks i)) (utilization-next u i e)
          (λ j lo hi. h j (omega arith) (omega arith)))

and_left : (a b : Bool) → (a && b) ≡ true → a ≡ true
and_left true b e = refl
and_left false b e = cc

and_right : (a b : Bool) → (a && b) ≡ true → b ≡ true
and_right true b e = e
and_right false b e = cc

-- n (2 ^ (1 / n) - 1) times a million lies between b - 1/2 and b + 1/2, with both sides of the two
-- comparisons brought to whole numbers.
abbrev pub is_liu_layland : ℕ → ℕ → Bool
is_liu_layland n b =
    leb ((2_000_000 * n + 2 * b - 1) ^ n) (2 * (2_000_000 * n) ^ n)
    && leb (2 * (2_000_000 * n) ^ n) ((2_000_000 * n + 2 * b + 1) ^ n)

abbrev checked : ℕ → Bool
checked zero = true
checked (suc j) = checked j && is_liu_layland (suc j) (get_or bounds j 0)

all_checked : checked 63 ≡ true
unfolding bounds
all_checked = refl

checked-below :
    (n j : ℕ) → checked n ≡ true → j < n → is_liu_layland (suc j) (get_or bounds j 0) ≡ true
checked-below zero j e lt = absurd (omega (arith, lt))
checked-below (suc n) j e lt = elim (Bool-cases (n == j)) [
  | inl here ↦
      subst (λ x. is_liu_layland (suc x) (get_or bounds x 0) ≡ true) ((==_iff n j).0 here)
        (and_right (checked n) _ e)
  | inr ne ↦ checked-below n j (and_left (checked n) _ e) (ground (arith, lt, ne))
]

-- For at most 63 tasks, the entries of the table, there are limits, each the bound of Liu and Layland
-- for as many tasks, rounded to a millionth, such that the test accepts exactly if for each task
-- what the tasks before it take of the processor, and its own cost and blocking time by its period,
-- are together not above its limit, whatever the `double` arithmetic computes.
pub assign_schedule_iff :
    (f : Floats) (tasks : ℕ → Task) (num : ℕ)
    → num < 64
    → (limit : ℕ → ℕ) × ((j : ℕ) → j < num → is_liu_layland (j + 1) (limit j) ≡ true)
      × ((assign_schedule f tasks num ≡ true) ↔ ((j : ℕ) → j < num → Fits f tasks limit j))
unfolding assign_schedule utilization
assign_schedule_iff f tasks num few = (
  λ j. get_or bounds j 0,
  (λ j lt.
      subst (λ n. is_liu_layland n (get_or bounds j 0) ≡ true) (omega arith)
        (checked-below 63 j all_checked (omega (arith, lt, few)))),
  (
    (λ h j lt.
        schedule_from_sound f tasks num 0 (f.millionths 0) refl h j (omega arith) (omega arith)),
    (λ h.
        schedule_from_complete f tasks num 0 (f.millionths 0) refl (λ j lo hi. h j (omega arith))),
  ),
)
