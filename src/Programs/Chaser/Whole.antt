-- ===== src/Programs/Chaser/Whole.antt =====
-- What holds in every run of lab4/lab4/tasks/mutex_chaser/mutex_chaser.c, from `kmain` on.
use fundamental_of_emb.Common.{
  refl, fill_lem, ℕ, ◌<◌, ◌≡◌, sym, subst, ap, ◌∙◌, true, ltb, arith, not,
}
use fundamental_of_emb.Mutex.{fresh_mutex}
use fundamental_of_emb.Kernel.{Kernel, Outcome}
use fundamental_of_emb.Schedule.{Floats, assign_schedule}
use fundamental_of_emb.Memcheck.{valid_addr}
use fundamental_of_emb.Task.{Task, sort_tasks}
use fundamental_of_emb.Boot.{task_create, usr_start_addr, usr_end_addr}
use fundamental_of_emb.Boot.Sound.{Starts}
use fundamental_of_emb.Timer.{Saved}
use fundamental_of_emb.Kmain.{Board, kmain, user_mode}
use fundamental_of_emb.Kmain.Fresh.{creates, enters-AllFresh, AllFresh}
use fundamental_of_emb.Programs.Pool.{creates-Created}
use fundamental_of_emb.Programs.Chaser.{Chaser, init_val}
use fundamental_of_emb.Programs.Chaser.Main.{tasks, chaser_main-Starts}
use fundamental_of_emb.Programs.Chaser.Tally.{start-Tally}
use fundamental_of_emb.Programs.Chaser.World.{entered, World, Leads, start_world}
use fundamental_of_emb.Programs.Chaser.Safe.{Left, Safe}
use fundamental_of_emb.Programs.Chaser.System.{Leads-Safe}
use fundamental_of_emb.Programs.Chaser.Behaves.{Behaves, Safe-Behaves}

start-Safe :
    {first : Task} (k : Kernel) {o : Outcome} (s : Starts 4 first (creates 32 k).gt_mutex o)
    (old : ℕ → ℕ)
    → AllFresh k
    → Safe (start_world s.state old)
start-Safe k s old fresh =
    let pool = creates-Created 32 k (omega arith) fresh in
    let same : (i : ℕ)
        → i < 32
        → s.state.gt_mutex i ≡ record fresh_mutex { available = not (ltb i 32) } =
      λ i lt. s.same_mutexes i ∙ pool.mutexes i lt in
    record {
      task = 1;
      ghost = s.ghost;
      sound = s.sound;
      created = λ i lt. ap (λ x. x.available) (same i lt) ∙ ground arith;
      current = (omega arith, λ i lt. ap (λ x. x.locked) (same i lt));
      tally = start-Tally (λ i lt. fill_lem 32 (λ i. init_val) old i ∙ ground arith) (λ t. refl);
      left = λ t lt ex ne. subst (λ r. Left r entered) (sym (s.unstarted t lt ex)) refl;
    }

module _ (f : Floats) (idle addr : ℕ) (entry : Chaser → ℕ) (blocking : ℕ → ℕ)
    (rest : ℕ → Task) where
  -- The last call of `main` starts fun1, and every run from there on behaves.
  pub record Runs (k : Kernel) : Type 0 where
    pub started :
        Starts 4
          (tasks f idle addr entry blocking rest 3)
          (creates 32 k).gt_mutex
          (task_create f idle addr (tasks f idle addr entry blocking rest) 4 (creates 32 k)).1
    pub behaves : (old : ℕ → ℕ) (w : World) → Leads (start_world started.state old) w → Behaves w

  -- After `kmain` has entered user mode and `main` of mutex_chaser.c has made its 32 calls of
  -- `mutex_create`, if its array is in the user's memory and its tasks pass the schedulability test,
  -- `task_create` starts fun1; and in every world that the statements of the four functions and timer
  -- interrupts between any two of them lead to, no function has come to `panic`, only the current task
  -- can be in its critical section, where it holds its mutex, and a number that it has loaded is still
  -- the mutex's when it is stored; the number of each mutex is what the operations give in some order,
  -- in which a function occurs once for a mutex from 1 on that it has passed, and not otherwise; and
  -- the next statement as well as an interrupt comes back to a task.
  pub mutex_chaser-Runs :
      (swihandler irq_wrapper : ℕ) (b board : Board) (saved : Saved)
      → kmain swihandler irq_wrapper b ≡ user_mode board saved
      → valid_addr addr 96 usr_start_addr usr_end_addr ≡ true
      → assign_schedule f (sort_tasks 4 (tasks f idle addr entry blocking rest)) 4 ≡ true
      → Runs board.kernel
  mutex_chaser-Runs swihandler irq_wrapper b board saved run ok accepted =
      let s =
        chaser_main-Starts f idle addr entry blocking rest swihandler irq_wrapper b board saved run
          ok accepted in
      let fresh = enters-AllFresh swihandler irq_wrapper b board saved run in
      record {
        started = s;
        behaves = λ old w l. Safe-Behaves (Leads-Safe (start-Safe board.kernel s old fresh) l);
      }
