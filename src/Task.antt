-- ===== src/Task.antt =====
-- Task descriptors (lab4/lab4/kernel/include/task.h) and the sort in task_create
-- (lab4/lab4/kernel/syscall/proc.c).
pub mod Sort
use fundamental_of_emb.Common.{ℕ, zero, suc, ◌+◌, ◌-◌, update, ltb, ◌==◌, if◌then◌else◌}

-- `struct task`: addresses and times, all words.
pub record Task : Type 0 where
  pub lambda : ℕ
  pub argument : ℕ
  pub stack_pos : ℕ
  pub cost : ℕ  -- C
  pub period : ℕ  -- T
  pub blocking : ℕ  -- B

-- The inner loop, with `rounds` entries left from `j` on: the index of the least period.
unfoldable pub find_min : ℕ → ℕ → (ℕ → Task) → ℕ → ℕ → ℕ
find_min zero j tasks least index = index
find_min (suc rounds) j tasks least index =
    let t = (tasks j).period in
    find_min rounds (j + 1) tasks (if ltb t least then t else least)
      (if ltb t least then j else index)

abbrev pub swap : ℕ → ℕ → (ℕ → Task) → ℕ → Task
swap i j tasks = update (update tasks i (tasks j)) j (tasks i)

-- One round of the outer loop.
unfoldable pub select : ℕ → ℕ → (ℕ → Task) → ℕ → Task
unfolding find_min
select num i tasks =
    let index = find_min (num - (i + 1)) (i + 1) tasks (tasks i).period i in
    if index == i then tasks else swap i index tasks

-- The outer loop: the rounds 0 to `i - 1`.
unfoldable pub sort_rounds : ℕ → ℕ → (ℕ → Task) → ℕ → Task
unfolding select
sort_rounds num zero tasks = tasks
sort_rounds num (suc i) tasks = select num i (sort_rounds num i tasks)

unfoldable pub sort_tasks : ℕ → (ℕ → Task) → ℕ → Task
unfolding sort_rounds
sort_tasks num tasks = sort_rounds num num tasks
