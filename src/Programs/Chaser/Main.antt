-- ===== src/Programs/Chaser/Main.antt =====
-- `main` of lab4/lab4/tasks/mutex_chaser/mutex_chaser.c behind `kmain`.
use fundamental_of_emb.Common.{ℕ, ◌≡◌, refl, true, subst}
use fundamental_of_emb.Schedule.{Floats, assign_schedule}
use fundamental_of_emb.Memcheck.{valid_addr}
use fundamental_of_emb.Task.{Task, sort_tasks}
use fundamental_of_emb.Boot.{
  task_create, argument_error, stacks_valid, usr_start_addr, usr_end_addr,
}
use fundamental_of_emb.Boot.Sound.{Starts}
use fundamental_of_emb.Timer.{Saved}
use fundamental_of_emb.Kmain.{Board, kmain, user_mode}
use fundamental_of_emb.Kmain.Fresh.{creates, first_create}
use fundamental_of_emb.Programs.Chaser.{Chaser, chaser_tasks}

module _ (f : Floats) (idle addr : ℕ) (entry : Chaser → ℕ) (blocking : ℕ → ℕ)
    (rest : ℕ → Task) where
  abbrev pub tasks : ℕ → Task
  tasks = chaser_tasks entry blocking rest

  arguments_pass :
      valid_addr addr 96 usr_start_addr usr_end_addr ≡ true → argument_error addr tasks 4 ≡ 0
  unfolding stacks_valid
  arguments_pass ok = rw ok refl

  sorted :
      (sort_tasks 4 tasks 0 ≡ tasks 3)
      × (sort_tasks 4 tasks 1 ≡ tasks 0)
      × (sort_tasks 4 tasks 2 ≡ tasks 1)
      × (sort_tasks 4 tasks 3 ≡ tasks 2)
  unfolding sort_tasks
  sorted = (refl, refl, refl, refl)

  -- After `kmain` has entered user mode and `main` has made its 32 calls of `mutex_create`, if its
  -- array is in the user's memory and its tasks pass the schedulability test, whatever the fields B
  -- hold, its `task_create` starts fun1, the last entry of the array, in a sound system of four
  -- tasks.
  pub chaser_main-Starts :
      (swihandler irq_wrapper : ℕ) (b board : Board) (saved : Saved)
      → kmain swihandler irq_wrapper b ≡ user_mode board saved
      → valid_addr addr 96 usr_start_addr usr_end_addr ≡ true
      → assign_schedule f (sort_tasks 4 tasks) 4 ≡ true
      → Starts 4
          (tasks 3)
          (creates 32 board.kernel).gt_mutex
          (task_create f idle addr tasks 4 (creates 32 board.kernel)).1
  chaser_main-Starts swihandler irq_wrapper b board saved run ok accepted =
      subst
        (λ t.
          Starts 4 t (creates 32 board.kernel).gt_mutex
            (task_create f idle addr tasks 4 (creates 32 board.kernel)).1)
        sorted.0
        (first_create swihandler irq_wrapper b f idle addr tasks 4 32 board saved run
          (arguments_pass ok) accepted)
