-- ===== src/Tests/Tasks.antt =====
-- The sort and the schedulability test of lab4/lab4/kernel/syscall/proc.c and
-- lab4/lab4/kernel/sched/ub_test.c on concrete inputs.
use fundamental_of_emb.Common.{
  arith, ℕ, ◌*◌, ◌/◌, ◌+◌, ◌≤◌, ◌<◌, ◌≡◌, refl, ◌↔◌, Bool, true, ltb, if◌then◌else◌, ◌==◌,
}
use fundamental_of_emb.Task.{Task, sort_tasks}
use fundamental_of_emb.Task.Sort.{count_tasks, sort_tasks_lem}
use fundamental_of_emb.Schedule.{Floats, assign_schedule, bound}
use fundamental_of_emb.Schedule.Bound.{Fits, is_liu_layland, assign_schedule_iff}

-- Fixed-point numbers, in millionths.
abbrev pub fixed : Floats
fixed = record {
  Double = ℕ;
  of_nat = λ n. n * 1_000_000;
  millionths = λ m. m;
  add = λ a b. a + b;
  div = λ a b. a * 1_000_000 / b;
  above = λ a b. ltb b a;
}

abbrev task_a : Task
task_a = record {
  lambda = 0xa000_1000;
  argument = 1;
  stack_pos = 0xa200_0000;
  cost = 10;
  period = 200;
  blocking = 0;
}

abbrev task_b : Task
task_b = record {
  lambda = 0xa000_2000;
  argument = 2;
  stack_pos = 0xa210_0000;
  cost = 20;
  period = 100;
  blocking = 1;
}

-- Two tasks, the one with the longer period first.
abbrev pub two_tasks : ℕ → Task
two_tasks i = if i == 0 then task_a else task_b

sort_tasks_lem_example :
    ((x y : ℕ)
      → x < y
      → y < 2
      → (sort_tasks 2 two_tasks x).period ≤ (sort_tasks 2 two_tasks y).period)
    × ((p : Task → Bool) → count_tasks 2 p (sort_tasks 2 two_tasks) ≡ count_tasks 2 p two_tasks)
sort_tasks_lem_example = sort_tasks_lem 2 two_tasks

assign_schedule_iff_example :
    (limit : ℕ → ℕ) × ((j : ℕ) → j < 2 → is_liu_layland (j + 1) (limit j) ≡ true)
    × ((assign_schedule fixed two_tasks 2 ≡ true)
        ↔ ((j : ℕ) → j < 2 → Fits fixed two_tasks limit j))
assign_schedule_iff_example = assign_schedule_iff fixed two_tasks 2 (omega arith)

sorted_first : (sort_tasks 2 two_tasks 0).lambda ≡ 0xa000_2000
unfolding sort_tasks
sorted_first = refl

pub sorted_accepted : assign_schedule fixed (sort_tasks 2 two_tasks) 2 ≡ true
unfolding assign_schedule bound sort_tasks
sorted_accepted = refl

accepted : assign_schedule fixed two_tasks 2 ≡ true
unfolding assign_schedule bound
accepted = refl
