-- ===== src/Programs/Mains.antt =====
-- The task arrays that `main` of dagger/dagger.c, simple_mutex/simple_mutex.c, cyclone/cyclone.c and
-- stress/stress.c in lab4/lab4/tasks gives to `task_create`.
use fundamental_of_emb.Common.{ℕ, zero, suc, ◌+◌, ◌*◌, ◌≡◌, refl, true, update}
use fundamental_of_emb.Schedule.{Floats, assign_schedule}
use fundamental_of_emb.Memcheck.{valid_addr}
use fundamental_of_emb.Task.{Task, sort_tasks}
use fundamental_of_emb.Boot.{
  task_create, argument_error, stacks_valid, usr_start_addr, usr_end_addr, size_of_task,
}
use fundamental_of_emb.Boot.Sound.{Starts}
use fundamental_of_emb.Timer.{Saved}
use fundamental_of_emb.Kmain.{Board, kmain, user_mode}
use fundamental_of_emb.Kmain.Fresh.{creates, first_create}

pub data Program : Type 0 where
  dagger : Program
  simple_mutex : Program
  cyclone : Program
  stress : Program

-- The number of tasks in the array.
abbrev pub size : Program → ℕ
size dagger = 2
size simple_mutex = 3
size cyclone = 1
size stress = 60

-- What the linker and the stack give: the addresses of the functions, and the array before.
module _ (fun1 fun2 fun3 : ℕ) (old : ℕ → Task) where
  abbrev pub dagger_tasks : ℕ → Task
  dagger_tasks =
      update
        (update old 0 (record {
          lambda = fun1;
          argument = b'@';
          stack_pos = 0xa200_0000;
          cost = 1;
          period = 100;
          blocking = 50;
        }))
        1
        (record {
          lambda = fun2;
          argument = b'<';
          stack_pos = 0xa100_0000;
          cost = 1;
          period = 200;
          blocking = 10;
        })

  abbrev pub simple_tasks : ℕ → Task
  simple_tasks =
      update
        (update
          (update old 0 (record {
            lambda = fun1;
            argument = b's';
            stack_pos = 0xa200_0000;
            cost = 1;
            period = 100;
            blocking = 0;
          }))
          1
          (record {
            lambda = fun2;
            argument = b'u';
            stack_pos = 0xa100_0000;
            cost = 1;
            period = 200;
            blocking = 0;
          }))
        2
        (record {
          lambda = fun3;
          argument = b'c';
          stack_pos = 0xa120_0000;
          cost = 1;
          period = 500;
          blocking = 0;
        })

  -- The field B is not set.
  abbrev pub cyclone_tasks : ℕ → Task
  cyclone_tasks = update old 0 (record {
    lambda = fun1;
    argument = 0;
    stack_pos = 0xa100_0000;
    cost = 1;
    period = 50;
    blocking = (old 0).blocking;
  })

  -- The loop of stress.c for the first `n` entries; the fields B are not set.
  unfoldable pub stress_loop : ℕ → ℕ → Task
  stress_loop zero = old
  stress_loop (suc i) = update (stress_loop i) i (record {
    lambda = fun1;
    argument = i;
    stack_pos = 0xa200_0000 + 0x10000 * i;
    cost = i + 1;
    period = (i + 1) * 100;
    blocking = (old i).blocking;
  })

  abbrev pub stress_tasks : ℕ → Task
  stress_tasks = update (stress_loop 59) 59 (record {
    lambda = fun2;
    argument = 59;
    stack_pos = 0xa200_0000 + 0x10000 * 59;
    cost = 0;
    period = 9000;
    blocking = (old 59).blocking;
  })

  abbrev pub tasks_of : Program → ℕ → Task
  tasks_of dagger = dagger_tasks
  tasks_of simple_mutex = simple_tasks
  tasks_of cyclone = cyclone_tasks
  tasks_of stress = stress_tasks

  pub arguments_pass :
      (p : Program) (addr : ℕ)
      → valid_addr addr (size_of_task * size p) usr_start_addr usr_end_addr ≡ true
      → argument_error addr (tasks_of p) (size p) ≡ 0
  unfolding stacks_valid stress_loop
  arguments_pass dagger addr ok = rw ok refl
  arguments_pass simple_mutex addr ok = rw ok refl
  arguments_pass cyclone addr ok = rw ok refl
  arguments_pass stress addr ok = rw ok refl

  -- For each of the four programs, after `kmain` has entered user mode, if the array of `main` is in
  -- the user's memory and its tasks pass the schedulability test, `task_create` starts the first of
  -- the sorted tasks in a sound system of all the program's tasks.
  pub main-Starts :
      (p : Program) (swihandler irq_wrapper : ℕ) (b board : Board) (saved : Saved) (f : Floats)
      (idle addr : ℕ)
      → kmain swihandler irq_wrapper b ≡ user_mode board saved
      → valid_addr addr (size_of_task * size p) usr_start_addr usr_end_addr ≡ true
      → assign_schedule f (sort_tasks (size p) (tasks_of p)) (size p) ≡ true
      → Starts
          (size p)
          (sort_tasks (size p) (tasks_of p) 0)
          board.kernel.gt_mutex
          (task_create f idle addr (tasks_of p) (size p) board.kernel).1
  unfolding creates
  main-Starts p swihandler irq_wrapper b board saved f idle addr run ok accepted =
      first_create swihandler irq_wrapper b f idle addr (tasks_of p) (size p) 0 board saved run
        (arguments_pass p addr ok) accepted
