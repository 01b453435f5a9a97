-- ===== src/Boot.antt =====
-- task_create of lab4/lab4/kernel/syscall/proc.c, with sched_init, set_context and allocate_tasks of
-- lab4/lab4/kernel/sched/sched.c.
pub mod Rounds
pub mod Sound
use fundamental_of_emb.Common.{
  ℕ, zero, suc, ◌+◌, ◌*◌, Bool, true, false, not, ◌||◌, ◌&&◌, none, some, update, ltb, leb, ◌==◌,
  if◌then◌else◌, u32, minus,
}
use fundamental_of_emb.RunQueue.{Ptr, RunQueue, idle_prio, runqueue_init, runqueue_add}
use fundamental_of_emb.Kernel.{
  Kernel, Tcb, SchedContext, launch_task, Outcome, leave, returned, disable_interrupts,
  enable_interrupts, einval, efault, esched,
}
use fundamental_of_emb.Dispatch.{dispatch_init, dispatch_nosave}
use fundamental_of_emb.Resume.{resume}
use fundamental_of_emb.Device.{dev_init}
use fundamental_of_emb.Memcheck.{valid_addr}
use fundamental_of_emb.Task.{Task, sort_tasks}
use fundamental_of_emb.Schedule.{Floats, assign_schedule}

abbrev pub usr_start_addr : ℕ
usr_start_addr = 0xa000_0000

abbrev pub usr_end_addr : ℕ
usr_end_addr = 0xa300_0000

-- OS_AVAIL_TASKS, and `sizeof(task_t)`: six words.
abbrev pub os_avail_tasks : ℕ
os_avail_tasks = 63

abbrev pub size_of_task : ℕ
size_of_task = 24

-- A task's entry of `system_tcb`, new. `r7` to `r11` are not set by the source.
abbrev pub fresh_tcb : ℕ → ℕ → ℕ → ℕ → Tcb
fresh_tcb prio r4 r5 r6 = record {
  native_prio = prio;
  cur_prio = prio;
  context = record { r4 = r4; r5 = r5; r6 = r6; sp = some prio; lr = launch_task };
  holds_lock = 0;
  sleep_queue = none;
}

-- `idle` is the address of the idle task's code.
unfoldable pub sched_init : ℕ → Kernel → Kernel
sched_init idle k = record k {
  system_tcb = update k.system_tcb idle_prio (fresh_tcb idle_prio idle 0 0);
  run_queue = runqueue_add k.run_queue (some idle_prio) idle_prio;
}

unfoldable pub set_context : Task → ℕ → Kernel → Kernel
set_context task prio k = record k {
  system_tcb = update k.system_tcb prio (fresh_tcb prio task.lambda task.argument task.stack_pos);
}

-- One round of `allocate_tasks`.
abbrev pub allocate_one : (ℕ → Task) → ℕ → Kernel → Kernel
allocate_one tasks i k =
    let k' = set_context (tasks i) (i + 1) k in
    record k' { run_queue = runqueue_add k'.run_queue (some (i + 1)) (i + 1) }

-- The rounds for the first `num` tasks.
unfoldable pub allocate_rounds : (ℕ → Task) → ℕ → Kernel → Kernel
unfolding set_context
allocate_rounds tasks zero k = k
allocate_rounds tasks (suc i) k = allocate_one tasks i (allocate_rounds tasks i k)

unfoldable pub allocate_tasks : (ℕ → Task) → ℕ → Kernel → Kernel
unfolding allocate_rounds
allocate_tasks tasks num k = dispatch_init (some idle_prio) (allocate_rounds tasks num k)

-- Every stack pointer lies in the user's range, the end included.
unfoldable pub stacks_valid : ℕ → (ℕ → Task) → Bool
stacks_valid zero tasks = true
stacks_valid (suc i) tasks =
    stacks_valid i tasks
    && not (ltb (tasks i).stack_pos usr_start_addr || ltb usr_end_addr (tasks i).stack_pos)

-- The checks on the arguments, before anything changes: the error, or 0.
abbrev pub argument_error : ℕ → (ℕ → Task) → ℕ → ℕ
argument_error addr tasks num =
    if leb os_avail_tasks num || num == 0
    then einval
    else if not (valid_addr addr (u32 (size_of_task * num)) usr_start_addr usr_end_addr)
    then efault
    else if not (stacks_valid num tasks)
    then efault
    else 0

module _ (f : Floats) (idle : ℕ) where
  -- The part behind the sort. The user's array is returned as the sort leaves it.
  abbrev pub create_sorted : (ℕ → Task) → ℕ → Kernel → Outcome
  create_sorted tasks num k =
      let k' = dev_init (record k { run_queue = runqueue_init k.run_queue }) in
      if not (assign_schedule f tasks num)
      then leave k' (returned (minus esched))
      else resume
          (dispatch_nosave (enable_interrupts (sched_init idle (allocate_tasks tasks num k'))))

  -- `tasks` is the array at `addr`. The result is the array and how the call ends.
  unfoldable pub task_create : ℕ → (ℕ → Task) → ℕ → Kernel → (ℕ → Task) × Outcome
  task_create addr tasks num k0 =
      let k = disable_interrupts k0 in
      let error = argument_error addr tasks num in
      if not (error == 0)
      then (tasks, leave k (returned (minus error)))
      else (sort_tasks num tasks, create_sorted (sort_tasks num tasks) num k)
