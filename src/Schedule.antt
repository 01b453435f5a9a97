-- ===== src/Schedule.antt =====
-- lab4/lab4/kernel/sched/ub_test.c: the utilization bound test.
pub mod Bound
use fundamental_of_emb.Common.{
  ℕ, zero, suc, ◌+◌, Bool, true, false, List, [], ◌∷◌, ◌++◌, get_or, if◌then◌else◌,
}
use fundamental_of_emb.Task.{Task}

-- The `double` arithmetic that the file uses, which is the compiler's. `millionths m` is the
-- literal `m / 1000000` and `above a b` is `a > b`.
pub record Floats : Type 1 where
  pub Double : Type 0
  pub of_nat : ℕ → Double
  pub millionths : ℕ → Double
  pub add : Double → Double → Double
  pub div : Double → Double → Double
  pub above : Double → Double → Bool

-- `bounds`, in millionths.
pub bounds : List ℕ
bounds =
    1000000 ∷ 828427 ∷ 779763 ∷ 756828 ∷ 743492 ∷ 734772 ∷ 728627 ∷ 724062 ∷ 720538 ∷ 717735
    ∷ 715452 ∷ 713557 ∷ 711959 ∷ 710593 ∷ 709412 ∷ 708381 ∷ 707472 ∷ 706666 ∷ 705946 ∷ 705298
    ∷ 704713 ∷ 704182 ∷ 703698 ∷ 703254 ∷ 702846 ∷ 702469 ∷ 702121 ∷ 701798 ∷ 701497 ∷ 701217
    ∷ 700955 ∷ 700709 ∷ 700478 ∷ 700261 ∷ 700056 ∷ 699863 ∷ 699681 ∷ 699508 ∷ 699343 ∷ 699188
    ∷ 699040 ∷ 698898 ∷ 698764 ∷ 698636 ∷ 698513 ∷ 698396 ∷ 698284 ∷ 698176 ∷ 698073 ∷ 697974
    ∷ 697879 ∷ 697788 ∷ 697700 ∷ 697615 ∷ 697533 ∷ 697455 ∷ 697379 ∷ 697306 ∷ 697235 ∷ 697166
    ∷ 697100 ∷ 697036 ∷ 696974 ∷ []

module _ (f : Floats) where
  open f use {Double, of_nat, millionths, add, div, above}

  -- `bounds[i]`; task_create keeps `i` below 62.
  unfoldable pub bound : ℕ → Double
  unfolding bounds
  bound i = millionths (get_or bounds i 0)

  -- `utilization + ((double) C + (double) B) / T`.
  abbrev pub with_blocking : Double → Task → Double
  with_blocking u t = add u (div (add (of_nat t.cost) (of_nat t.blocking)) (of_nat t.period))

  abbrev pub with_cost : Double → Task → Double
  with_cost u t = add u (div (of_nat t.cost) (of_nat t.period))

  -- The loop, with `rounds` tasks left from `i` on.
  unfoldable pub schedule_from : ℕ → ℕ → (ℕ → Task) → Double → Bool
  schedule_from zero i tasks u = true
  schedule_from (suc rounds) i tasks u =
      let rest = schedule_from rounds (i + 1) tasks (with_cost u (tasks i)) in
      if above (with_blocking u (tasks i)) (bound i) then false else rest

  unfoldable pub assign_schedule : (ℕ → Task) → ℕ → Bool
  unfolding schedule_from
  assign_schedule tasks num = schedule_from num 0 tasks (millionths 0)
