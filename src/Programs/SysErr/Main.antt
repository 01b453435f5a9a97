-- ===== src/Programs/SysErr/Main.antt =====
-- `main` of lab4/lab4/tasks/sys_err/sys_err.c, and the task that it starts.
use fundamental_of_emb.Common.{
  ℕ, ◌<◌, ◌≡◌, refl, ap, ◌∙◌, true, false, Option, some, List, [], ◌∷◌, ltb, arith, minus,
}
use fundamental_of_emb.Kernel.{Kernel, Mutex, disable_interrupts}
use fundamental_of_emb.Mutex.{fresh_mutex}
use fundamental_of_emb.Schedule.{Floats, assign_schedule}
use fundamental_of_emb.Task.{Task, sort_tasks}
use fundamental_of_emb.Memcheck.{valid_addr}
use fundamental_of_emb.Boot.{
  usr_start_addr, usr_end_addr, argument_error, stacks_valid, task_create,
}
use fundamental_of_emb.Boot.Sound.{Starts, task_create-Starts}
use fundamental_of_emb.Kmain.{Board, kmain, user_mode}
use fundamental_of_emb.Kmain.Fresh.{enters-AllFresh, fresh-AllFree}
use fundamental_of_emb.Timer.{Saved}
use fundamental_of_emb.Programs.{Client, arrive}
use fundamental_of_emb.Programs.Quiet.{NobodyWaits, arrive-Arrives}
use fundamental_of_emb.Programs.Steps.{Kept, Handles, call-Called}
use fundamental_of_emb.Programs.SysErr.{main_checks, last_create, sys_err_tasks, fun1, check_return}
use fundamental_of_emb.Programs.SysErr.Passes.{Passes, fun1-Passes}

-- The mutexes as they were, and no task waits for a device.
record Untouched (ms : ℕ → Mutex) (k : Kernel) : Type 0 where
  mutexes : k.gt_mutex ≡ ms
  nobody : NobodyWaits k

Untouched-Kept : (ms : ℕ → Mutex) → Kept (Untouched ms)
Untouched-Kept ms = record {
  stays = λ l i. record { mutexes = l.mutexes ∙ i.mutexes; nobody = l.nobody };
  quiet = λ i. i.nobody;
}

module _ (f : Floats) (idle addr fun1_addr : ℕ) (rest elsewhere : ℕ → Task) where
  abbrev pub tasks : ℕ → Task
  tasks = sys_err_tasks fun1_addr rest

  arguments_pass :
      valid_addr addr 24 usr_start_addr usr_end_addr ≡ true → argument_error addr tasks 1 ≡ 0
  unfolding stacks_valid
  arguments_pass ok = rw ok refl

  too_many :
      (ms : ℕ → Mutex)
      → Handles
          (λ k. (task_create f idle addr tasks 65 k).1)
          (Untouched ms)
          (minus 22)
          (Untouched ms)
  unfolding task_create
  too_many ms k i = record {
    after = disable_interrupts k;
    result = refl;
    holds = record { mutexes = i.mutexes; nobody = i.nobody };
  }

  bad_address :
      (ms : ℕ → Mutex)
      → Handles
          (λ k. (task_create f idle 0xdead_beef elsewhere 30 k).1)
          (Untouched ms)
          (minus 14)
          (Untouched ms)
  unfolding task_create valid_addr
  bad_address ms k i = record {
    after = disable_interrupts k;
    result = refl;
    holds = record { mutexes = i.mutexes; nobody = i.nobody };
  }

  record Checked (ms : ℕ → Mutex) (o : Option (Unit {0} × Client)) : Type 0 where
    after : Client
    ends : o ≡ some (tt, after)
    passed : after.passed ≡ true ∷ true ∷ []
    kernel : Untouched ms after.kernel

  main_checks-Checked :
      (ms : ℕ → Mutex) (k : Kernel) (pending : List ℕ)
      → Untouched ms k
      → Checked ms (
          main_checks f idle addr tasks elsewhere
            (record { kernel = k; errno = 0; passed = []; pending = pending }))
  unfolding main_checks check_return
  main_checks-Checked ms k pending i =
      let kept = Untouched-Kept ms in
      let c1 =
        call-Called kept (λ k. (task_create f idle addr tasks 65 k).1) _ (too_many ms)
          (record { kernel = k; errno = 0; passed = []; pending = pending }) i in
      let c2 =
        call-Called kept (λ k. (task_create f idle 0xdead_beef elsewhere 30 k).1) _ (bad_address ms)
          (record { kernel = c1.kernel; errno = 22; passed = true ∷ []; pending = c1.pending })
          c1.holds in
      record {
        after = record {
          kernel = c2.kernel;
          errno = 14;
          passed = true ∷ true ∷ [];
          pending = c2.pending;
        };
        ends = rw (c1.result, c2.result) refl;
        passed = refl;
        kernel = c2.holds;
      }

  -- `main` makes its first two tests, both pass, and its last call starts `fun1`, all of whose tests
  -- pass in the kernel that this call leaves. There are timer interrupts before the calls of both.
  pub record Runs (k : Kernel) (pending : List ℕ) : Type 0 where
    pub after : Client
    pub checked :
        main_checks f idle addr tasks elsewhere
          (record { kernel = k; errno = 0; passed = []; pending = pending })
        ≡ some (tt, after)
    pub main_passed : after.passed ≡ true ∷ true ∷ []
    pub calls : Client
    pub arrives : arrive after ≡ some calls
    pub started :
        Starts 1 (tasks 0) calls.kernel.gt_mutex (last_create f idle addr tasks elsewhere calls)
    pub fun1_passed :
        (pending' : List ℕ)
        → Passes
            (true ∷ true ∷ true ∷ true ∷ true ∷ true ∷ true ∷ true ∷ [])
            calls.passed
            (fun1 (record calls { kernel = started.state; pending = pending' }))

  -- After `kmain` has entered user mode, if no task waits for a device there, `main`'s array is in
  -- the user's memory and its one task passes the schedulability test, all ten tests of sys_err.c
  -- pass, whatever timer interrupts there are between the calls of `main` and of `fun1`.
  pub sys_err-Runs :
      (swihandler irq_wrapper : ℕ) (b board : Board) (saved : Saved) (pending : List ℕ)
      → kmain swihandler irq_wrapper b ≡ user_mode board saved
      → NobodyWaits board.kernel
      → valid_addr addr 24 usr_start_addr usr_end_addr ≡ true
      → assign_schedule f (sort_tasks 1 tasks) 1 ≡ true
      → Runs board.kernel pending
  unfolding sort_tasks
  sys_err-Runs swihandler irq_wrapper b board saved pending run quiet ok accepted =
      let fresh = enters-AllFresh swihandler irq_wrapper b board saved run in
      let m =
        main_checks-Checked board.kernel.gt_mutex board.kernel pending
          (record { mutexes = refl; nobody = quiet }) in
      let a = arrive-Arrives m.after m.kernel.nobody in
      let same = a.later.mutexes ∙ m.kernel.mutexes in
      let fresh' : (i : ℕ) → i < 32 → a.kernel.gt_mutex i ≡ fresh_mutex =
        λ i lt. ap (λ ms. ms i) same ∙ fresh i lt in
      let s =
        (task_create-Starts f idle addr tasks 1 a.kernel (arguments_pass ok) accepted
          (fresh-AllFree a.kernel fresh')).1 in
      record {
        after = m.after;
        checked = m.ends;
        main_passed = m.passed;
        calls = record m.after { kernel = a.kernel; pending = a.pending };
        arrives = a.result;
        started = s;
        fun1_passed = λ pending'.
            fun1-Passes 1 (record m.after { kernel = s.state; pending = pending' })
              (record {
                current = s.sound.cur;
                mutexes = λ i lt.
                    let free : ltb i 0 ≡ false = ground arith in
                    rw free (s.same_mutexes i ∙ fresh' i lt);
                nobody = s.nobody_waits;
              });
      }
