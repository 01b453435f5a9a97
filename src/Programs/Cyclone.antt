-- ===== src/Programs/Cyclone.antt =====
-- lab4/lab4/tasks/cyclone/cyclone.c: a task that creates itself again, and so wipes out the task that
-- it was.
use fundamental_of_emb.Common.{
  ℕ, zero, suc, ◌+◌, ◌<◌, ◌≡◌, refl, ap, ◌∙◌, Bool, true, false, not, ◌&&◌, Option, none, some, ltb,
  is_negative, add32, arith, if◌then◌else◌,
}
use fundamental_of_emb.Kernel.{Kernel, Outcome, leave, stuck, launched, returned, interrupted}
use fundamental_of_emb.Schedule.{Floats, assign_schedule}
use fundamental_of_emb.Memcheck.{valid_addr}
use fundamental_of_emb.Task.{Task, sort_tasks}
use fundamental_of_emb.Boot.{task_create, usr_start_addr, usr_end_addr}
use fundamental_of_emb.Boot.Sound.{Starts, task_create-Starts}
use fundamental_of_emb.Timer.{Saved}
use fundamental_of_emb.Kmain.{Board, kmain, user_mode}
use fundamental_of_emb.Kmain.Fresh.{AllFree, enters-AllFresh, fresh-AllFree}
use fundamental_of_emb.Programs.{irqs}
use fundamental_of_emb.Programs.Quiet.{NobodyWaits, irqs-Interrupted}
use fundamental_of_emb.Programs.Mains.{cyclone, cyclone_tasks, arguments_pass}

abbrev pub ite : ℕ
ite = 30

-- What an activation of `fun1` comes to: the end of the test with the count `ct`, the next activation
-- in the kernel that `task_create` leaves, the line behind `task_create`, or none of these.
pub data Activation : Type 0 where
  test_ends : (ct : ℕ) → Activation
  recreated : (ct : ℕ) → Kernel → Activation
  never_reach : Kernel → Activation
  lost : Activation

abbrev pub after_create : ℕ → Outcome → Activation
after_create ct stuck = lost
after_create ct (leave k launched) = recreated ct k
after_create ct (leave k (returned r)) = never_reach k
after_create ct (leave k interrupted) = lost

-- `ct > ITE` on an `int`.
abbrev pub is_over : ℕ → Bool
is_over ct = not (is_negative ct) && ltb ite ct

-- What the linker gives: the addresses of the idle task's code and of `fun1`, and of the array on the
-- stack; and what the stack holds there in the activation with a count.
module _ (f : Floats) (idle addr fun1 : ℕ) (stack : ℕ → ℕ → Task) where
  abbrev pub tasks : ℕ → ℕ → Task
  tasks ct = cyclone_tasks fun1 0 0 (stack ct)

  abbrev pub after_sleep : ℕ → Option Kernel → Activation
  after_sleep ct none = lost
  after_sleep ct (some k) = after_create ct (task_create f idle addr (tasks ct) 1 k).1

  -- `fun1`, with the timer interrupts that there are up to the end of its sleep.
  unfoldable pub fun1_from : ℕ → ℕ → Kernel → Activation
  fun1_from interrupts old k =
      let ct = add32 old 1 in
      if is_over ct then test_ends ct else after_sleep ct (irqs interrupts k)

  abbrev pub goes_on : (ℕ → Kernel → Option Activation) → Activation → Option Activation
  goes_on next (recreated ct k) = next ct k
  goes_on next (test_ends ct) = some (test_ends ct)
  goes_on next (never_reach k) = some (never_reach k)
  goes_on next lost = some lost

  -- The activations, `fuel` of them at most; `interrupts` says how many there are in each.
  unfoldable pub activations : ℕ → (ℕ → ℕ) → ℕ → Kernel → Option Activation
  activations zero interrupts ct k = none
  activations (suc fuel) interrupts ct k =
      goes_on (activations fuel interrupts) (fun1_from (interrupts ct) ct k)

  module _ (ok : valid_addr addr 24 usr_start_addr usr_end_addr ≡ true)
      (accepted : (ct : ℕ) → assign_schedule f (sort_tasks 1 (tasks ct)) 1 ≡ true) where
    creates :
        (ct : ℕ) (k : Kernel)
        → AllFree k
        → Starts 1 (sort_tasks 1 (tasks ct) 0) k.gt_mutex (task_create f idle addr (tasks ct) 1 k).1
    creates ct k free =
        (task_create-Starts f idle addr (tasks ct) 1 k
          (arguments_pass fun1 0 0 (stack ct) cyclone addr ok) (accepted ct) free).1

    -- What the next activation needs of the kernel.
    record Ready (k : Kernel) : Type 0 where
      free : AllFree k
      quiet : NobodyWaits k

    Starts-Ready :
        {first : Task} (k : Kernel) {o : Outcome} (s : Starts 1 first k.gt_mutex o)
        → AllFree k
        → Ready s.state
    Starts-Ready k s free = record {
      free = λ i lt. rw (s.same_mutexes i) (free i lt);
      quiet = s.nobody_waits;
    }

    record Recreated (ct : ℕ) (a : Activation) : Type 0 where
      after : Kernel
      result : a ≡ recreated ct after
      ready : Ready after

    fun1_from-Recreated :
        (interrupts old : ℕ) (k : Kernel)
        → old < 30
        → Ready k
        → Recreated (suc old) (fun1_from interrupts old k)
    unfolding fun1_from
    fun1_from-Recreated interrupts old k lt r =
        let i = irqs-Interrupted interrupts k r.quiet in
        let free : AllFree i.after = λ m l. rw i.later.mutexes (r.free m l) in
        let s = creates (suc old) i.after free in
        let count : add32 old 1 ≡ suc old = omega (arith, lt) in
        let more : is_over (suc old) ≡ false = ground (arith, lt) in
        record {
          after = s.state;
          result = rw (count, more, i.result, s.result) refl;
          ready = Starts-Ready i.after s free;
        }

    last_activation : (interrupts : ℕ) (k : Kernel) → fun1_from interrupts 30 k ≡ test_ends 31
    unfolding fun1_from
    last_activation interrupts k = refl

    activations_end :
        (j ct : ℕ) (interrupts : ℕ → ℕ) (k : Kernel)
        → j + ct ≡ 30
        → Ready k
        → activations (suc j) interrupts ct k ≡ some (test_ends 31)
    unfolding activations
    activations_end zero ct interrupts k e r =
        let last : ct ≡ 30 = omega (arith, e) in
        ap (goes_on (activations zero interrupts))
          (ap (λ x. fun1_from (interrupts ct) x k) last ∙ last_activation (interrupts ct) k)
    activations_end (suc j) ct interrupts k e r =
        let a = fun1_from-Recreated (interrupts ct) ct k (omega (arith, e)) r in
        ap (goes_on (activations (suc j) interrupts)) a.result
        ∙ activations_end j (suc ct) interrupts a.after (omega (arith, e)) a.ready

    -- The `task_create` of `main` starts `fun1`, whose 31st activation ends the test.
    pub record Ends (k : Kernel) : Type 0 where
      pub started :
          Starts 1 (sort_tasks 1 (tasks 0) 0) k.gt_mutex (task_create f idle addr (tasks 0) 1 k).1
      pub ends :
          (interrupts : ℕ → ℕ) → activations 31 interrupts 0 started.state ≡ some (test_ends 31)

    -- After `kmain` has entered user mode, if the array of cyclone.c is in the user's memory and its
    -- task passes the schedulability test in every activation, with what its field B holds there, the
    -- `task_create` of `main` starts fun1, each of the next 30 calls of `task_create`, made by fun1
    -- itself, starts fun1 again, whatever timer interrupts there are before it, and the activation
    -- behind them ends the test, with the count 31.
    pub cyclone-Ends :
        (swihandler irq_wrapper : ℕ) (b board : Board) (saved : Saved)
        → kmain swihandler irq_wrapper b ≡ user_mode board saved
        → Ends board.kernel
    cyclone-Ends swihandler irq_wrapper b board saved run =
        let free =
          fresh-AllFree board.kernel (enters-AllFresh swihandler irq_wrapper b board saved run) in
        let s = creates 0 board.kernel free in
        record {
          started = s;
          ends = λ interrupts.
              activations_end 30 0 interrupts s.state (omega arith)
                (Starts-Ready board.kernel s free);
        }
