-- ===== src/Task/Sort.antt =====
-- The selection sort of task_create (lab4/lab4/kernel/syscall/proc.c) sorts, and keeps the tasks.
use fundamental_of_emb.Common.{
  ℕ, zero, suc, ◌+◌, ◌-◌, ◌≤◌, ◌<◌, ◌≡◌, refl, ◌∙◌, ap, Bool, update, ltb, ◌==◌, if◌then◌else◌,
  arith, Bool-cases, ==_iff, inl, inr, subst,
}
use fundamental_of_emb.Task.{Task, find_min, swap, select, sort_rounds, sort_tasks}

-- How many of the first `n` tasks pass a test.
pub count_tasks : ℕ → (Task → Bool) → (ℕ → Task) → ℕ
count_tasks zero p a = 0
count_tasks (suc n) p a = count_tasks n p a + (if p (a n) then 1 else 0)

-- `index` has the least period of the entries `i` to `j - 1`.
record IsLeast (a : ℕ → Task) (i j index : ℕ) : Type 0 where
  above : (i ≤ index) × (index < j)
  least : (l : ℕ) → i ≤ l → l < j → (a index).period ≤ (a l).period

find_min-IsLeast :
    (rounds i j : ℕ) (a : ℕ → Task) (index : ℕ)
    → IsLeast a i j index
    → IsLeast a i (j + rounds) (find_min rounds j a (a index).period index)
unfolding find_min
find_min-IsLeast zero i j a index h = record {
  above = omega (arith, h.above);
  least = λ l lo hi. h.least l lo (omega arith);
}
find_min-IsLeast (suc rounds) i j a index h =
    elim (Bool-cases (ltb (a j).period (a index).period)) [
      | inl less ↦ rw less (
          subst (λ e. IsLeast a i e (find_min rounds (j + 1) a (a j).period j)) (omega arith)
            (find_min-IsLeast rounds i (j + 1) a j (record {
              above = omega (arith, h.above);
              least = λ l lo hi. ground (arith, h.least l);
            })))
      | inr more ↦ rw more (
          subst (λ e. IsLeast a i e (find_min rounds (j + 1) a (a index).period index))
            (omega arith)
            (find_min-IsLeast rounds i (j + 1) a index (record {
              above = omega (arith, h.above);
              least = λ l lo hi. ground (arith, h.least l);
            })))
    ]

-- The first `i` periods ascend and none behind them is less.
abbrev SortedTo : ℕ → ℕ → (ℕ → Task) → Type 0
SortedTo n i a = (x y : ℕ) → x < i → x < y → y < n → (a x).period ≤ (a y).period

module _ (n i : ℕ) (a : ℕ → Task) (lt : i < n) where
  abbrev index : ℕ
  index = find_min (n - (i + 1)) (i + 1) a (a i).period i

  index-IsLeast : IsLeast a i n index
  index-IsLeast =
      subst (λ e. IsLeast a i e index) (omega arith)
        (find_min-IsLeast (n - (i + 1)) i (i + 1) a i (record {
          above = omega arith;
          least = λ l lo hi. let e : l ≡ i = omega arith in rw e (omega arith);
        }))

  -- The round swaps, also where the source sees that there is nothing to do.
  select-eq : (j : ℕ) → select n i a j ≡ swap i index a j
  unfolding select
  select-eq j = ground arith

  select-SortedTo : SortedTo n i a → SortedTo n (suc i) (select n i a)
  select-SortedTo h x y hx xy hy =
      let least = index-IsLeast in
      rw (select-eq x, select-eq y)
        (ground (arith, least.above, least.least y, least.least i, h x y, h x i, h x index))

count-update :
    (n : ℕ) (p : Task → Bool) (a : ℕ → Task) (i : ℕ) (t : Task)
    → count_tasks n p (update a i t) + (if ltb i n then (if p (a i) then 1 else 0) else 0)
      ≡ count_tasks n p a + (if ltb i n then (if p t then 1 else 0) else 0)
unfolding count_tasks
count-update zero p a i t = ground arith
count-update (suc n) p a i t = elim (Bool-cases (i == n)) [
  | inl e ↦
      let e' : i ≡ n = (==_iff i n).0 e in
      ground (arith, count-update n p a i t, ap (λ l. p (a l)) e')
  | inr e ↦ ground (arith, count-update n p a i t)
]

count-ext :
    (n : ℕ) (p : Task → Bool) (a b : ℕ → Task)
    → ((j : ℕ) → a j ≡ b j)
    → count_tasks n p a ≡ count_tasks n p b
unfolding count_tasks
count-ext zero p a b h = refl
count-ext (suc n) p a b h = ground (arith, count-ext n p a b h, ap p (h n))

count-swap :
    (n : ℕ) (p : Task → Bool) (a : ℕ → Task) (i j : ℕ)
    → i < n
    → j < n
    → count_tasks n p (swap i j a) ≡ count_tasks n p a
count-swap n p a i j hi hj =
    ground (arith, count-update n p a i (a j), count-update n p (update a i (a j)) j (a i))

count-select :
    (n : ℕ) (p : Task → Bool) (i : ℕ) (a : ℕ → Task)
    → i < n
    → count_tasks n p (select n i a) ≡ count_tasks n p a
count-select n p i a lt =
    count-ext n p (select n i a) (swap i (index n i a lt) a) (select-eq n i a lt)
    ∙ count-swap n p a i (index n i a lt) lt (index-IsLeast n i a lt).above.1

rounds_lem :
    (n : ℕ) (a : ℕ → Task) (i : ℕ)
    → i ≤ n
    → SortedTo n i (sort_rounds n i a)
      × ((p : Task → Bool) → count_tasks n p (sort_rounds n i a) ≡ count_tasks n p a)
unfolding sort_rounds
rounds_lem n a zero le = (λ x y hx xy hy. absurd (omega arith), λ p. refl)
rounds_lem n a (suc i) le =
    let (sorted, same) = rounds_lem n a i (omega arith) in
    (
      select-SortedTo n i (sort_rounds n i a) (omega arith) sorted,
      λ p. count-select n p i (sort_rounds n i a) (omega arith) ∙ same p,
    )

-- The sort of task_create puts the first `n` tasks in the order of their periods, and keeps them:
-- for every test, as many of them pass it as before.
pub sort_tasks_lem :
    (n : ℕ) (a : ℕ → Task)
    → ((x y : ℕ) → x < y → y < n → (sort_tasks n a x).period ≤ (sort_tasks n a y).period)
      × ((p : Task → Bool) → count_tasks n p (sort_tasks n a) ≡ count_tasks n p a)
unfolding sort_tasks
sort_tasks_lem n a =
    let (sorted, same) = rounds_lem n a n (omega arith) in
    (λ x y xy hy. sorted x y (omega arith) xy hy, same)
