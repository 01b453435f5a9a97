-- ===== src/Programs/Dagger/Whole.antt =====
-- What holds in every run of lab4/lab4/tasks/dagger/dagger.c, from `kmain` on.
use fundamental_of_emb.Common.{
  ℕ, ◌+◌, ◌*◌, ◌^◌, ◌⊎◌, ltb, [], ◌≤◌, ◌<◌, ◌≡◌, ◌≢◌, refl, sym, subst, ap, ◌∙◌, true, Option, none,
  some, ◌==◌, ==_iff, arith, Bool-cases, inl, inr,
}
use fundamental_of_emb.Kernel.{Outcome}
use fundamental_of_emb.Schedule.{Floats, assign_schedule}
use fundamental_of_emb.Memcheck.{valid_addr}
use fundamental_of_emb.Task.{Task, sort_tasks}
use fundamental_of_emb.Boot.{task_create, usr_start_addr, usr_end_addr}
use fundamental_of_emb.Boot.Sound.{Starts}
use fundamental_of_emb.Timer.{Saved}
use fundamental_of_emb.Kernel.{Kernel, Mutex}
use fundamental_of_emb.Kmain.{Board, kmain, user_mode}
use fundamental_of_emb.Kmain.Fresh.{enters-AllFresh, AllFresh}
use fundamental_of_emb.Protocol.Defs.{exists}
use fundamental_of_emb.Protocol.Preempt.{first-MostUrgent}
use fundamental_of_emb.Protocol.Section.{NoneLocked}
use fundamental_of_emb.Protocol.Urgent.{MostUrgent}
use fundamental_of_emb.Programs.Mains.{dagger, dagger_tasks, main-Starts}
use fundamental_of_emb.Programs.Dagger.{
  Function, fun1, fun2, str_of, dev_of, function_of, showing, panicked, World, Move, move, Leads,
  start_world,
}
use fundamental_of_emb.Programs.Dagger.Pace.{Going, Left, Left-Going, times, task_of, HeldAt}
use fundamental_of_emb.Programs.Dagger.Period.{OnTime, period, Leads-OnTime, in_period}
use fundamental_of_emb.Programs.Dagger.Safe.{Safe, IsSafe}
use fundamental_of_emb.Programs.Dagger.System.{move-IsSafe, Leads-Safe}

-- No function has come to `panic`; no task in the run queue has a lower priority than the current
-- one; each function has shown its character at most once more than its device has come to its match,
-- and, as long as the clock, which read `t0` at the start, has stayed more than 500 below 2^32, at most
-- once in each of its periods; and every statement and every interrupt comes back to a task.
pub record Behaves (t0 : ℕ) (w : World) : Type 0 where
  pub no_panic : (t : ℕ) → 0 < t → t ≤ 2 → w.points t ≢ panicked
  pub urgent : MostUrgent w.kernel
  pub in_time : (f : Function) → times (str_of f) w.shown ≤ 1 + w.matches (dev_of f)
  pub periodic :
      (f : Function)
      → (2 ^ 32 ≤ t0 + 10 * w.ticks + 500)
        ⊎ (period f * times (str_of f) w.shown ≤ period f + 10 * w.ticks)
  pub goes_on : (m : Move) → (w' : World) × (move m w ≡ some w')

some_world : (o : Option World) → IsSafe o → (w' : World) × (o ≡ some w')
some_world none o = absurd o
some_world (some w) o = (w, refl)

going : {w : World} → Safe w → (t : ℕ) → 0 < t → t ≤ 2 → Going (w.points t)
going {w} s t pos_t le = elim (Bool-cases (s.task == t)) [
  | inl e ↦ subst (λ x. Going (w.points x)) ((==_iff s.task t).0 e) s.current
  | inr ne ↦ Left-Going _ (w.points t) (s.left t (omega (arith, le)) (ground arith) ne)
]

own_task : (f : Function) → function_of (task_of f) ≡ some f
own_task fun1 = refl
own_task fun2 = refl

Safe-Behaves :
    (t0 : ℕ) {w : World} → Safe w → (t0 + 10 * w.ticks + 500 < 2 ^ 32 → OnTime t0 w) → Behaves t0 w
Safe-Behaves t0 {w} s h = record {
  no_panic = λ t pos_t le p. subst Going p (going s t pos_t le);
  urgent = s.urgent;
  in_time = λ f. omega (arith, s.pace (task_of f) f (own_task f));
  periodic = λ f. elim (Bool-cases (ltb (t0 + 10 * w.ticks + 500) (2 ^ 32))) [
    | inl early ↦ inr (
        in_period t0 f (h (ground (arith, early)))
          (omega (arith, s.pace (task_of f) f (own_task f))))
    | inr late ↦ inl (ground (arith, late))
  ];
  goes_on = λ m. some_world (move m w) (move-IsSafe w s m);
}

task_lt : (t : ℕ) (f : Function) → function_of t ≡ some f → t < 3
task_lt t f own = ground (arith, own)

exists_lem : (t : ℕ) (f : Function) → function_of t ≡ some f → exists 2 t ≡ true
exists_lem t f own = ground (arith, own)

start-Safe :
    {first : Task} (k : Kernel) {o : Outcome} (s : Starts 2 first k.gt_mutex o)
    → AllFresh k
    → Safe (start_world s.state)
start-Safe k s fresh =
    let free : NoneLocked s.state = λ i lt. ap (λ x. x.locked) (s.same_mutexes i ∙ fresh i lt) in
    record {
      task = 1;
      ghost = s.ghost;
      sound = s.sound;
      free = free;
      urgent = first-MostUrgent s.sound free;
      current = tt;
      pace = λ t f own. omega arith;
      held = λ t f own ne.
          subst (λ r. HeldAt r s.state t [] (λ d. 0) f)
            (sym (s.unstarted t (omega (arith, task_lt t f own)) (exists_lem t f own))) tt;
      left = λ t lt ex ne. subst (λ r. Left r showing) (sym (s.unstarted t lt ex)) refl;
    }

module _ {first : Task} {pool : ℕ → Mutex} {o : Outcome} (s : Starts 2 first pool o) where
  start-due :
      s.state.timer_count + 10 * 0 + 500 < 2 ^ 32
      → (f : Function)
      → s.state.timer_count + period f * (0 + 1) ≤ (s.state.devices (dev_of f)).next_match
  start-due early fun1 = omega (arith, early, s.first_matches 0 (omega arith))
  start-due early fun2 = omega (arith, early, s.first_matches 1 (omega arith))

  start-ahead :
      (f : Function) → (s.state.devices (dev_of f)).next_match ≤ s.state.timer_count + period f
  start-ahead fun1 = omega (arith, s.first_matches 0 (omega arith))
  start-ahead fun2 = omega (arith, s.first_matches 1 (omega arith))

  start-OnTime :
      s.state.timer_count + 10 * 0 + 500 < 2 ^ 32 → OnTime s.state.timer_count (start_world s.state)
  start-OnTime early = record { clock = omega arith; due = start-due early; ahead = start-ahead }

module _ (f : Floats) (idle addr entry1 entry2 entry3 : ℕ) (old : ℕ → Task) where
  abbrev pub tasks : ℕ → Task
  tasks = dagger_tasks entry1 entry2 entry3 old

  -- `main` starts fun1, and every run from there on behaves.
  pub record DaggerRuns (k : Kernel) : Type 0 where
    pub started : Starts 2 (tasks 0) k.gt_mutex (task_create f idle addr tasks 2 k).1
    pub behaves :
        (w : World) → Leads (start_world started.state) w → Behaves started.state.timer_count w

  sorted : sort_tasks 2 tasks 0 ≡ tasks 0
  unfolding sort_tasks
  sorted = refl

  -- After `kmain` has entered user mode, if the array of `main` of dagger.c is in the user's memory and
  -- its tasks pass the schedulability test, `task_create` starts fun1; and in every world that the
  -- statements of the two functions and timer interrupts between any two of them lead to, no function
  -- has come to `panic`, no task in the run queue has a lower priority than the current one, each
  -- function has shown its character at most once more than there were interrupts at which its device
  -- had come to its next match, the number of times that it has shown it, times the period p of its
  -- device, is at most p and ten for each interrupt, as long as the clock's reading at the start and
  -- ten for each interrupt are together more than 500 below 2^32 (from then on nothing is stated of the
  -- periods), and the next statement as well as an interrupt comes back to a task.
  pub dagger-Runs :
      (swihandler irq_wrapper : ℕ) (b board : Board) (saved : Saved)
      → kmain swihandler irq_wrapper b ≡ user_mode board saved
      → valid_addr addr 48 usr_start_addr usr_end_addr ≡ true
      → assign_schedule f (sort_tasks 2 tasks) 2 ≡ true
      → DaggerRuns board.kernel
  dagger-Runs swihandler irq_wrapper b board saved run ok accepted =
      let s : Starts 2 (tasks 0) board.kernel.gt_mutex
          (task_create f idle addr tasks 2 board.kernel).1 =
        subst
          (λ t. Starts 2 t board.kernel.gt_mutex (task_create f idle addr tasks 2 board.kernel).1)
          sorted
          (main-Starts entry1 entry2 entry3 old dagger swihandler irq_wrapper b board saved f idle
            addr run ok accepted) in
      let fresh = enters-AllFresh swihandler irq_wrapper b board saved run in
      record {
        started = s;
        behaves = λ w l.
            let safe = start-Safe board.kernel s fresh in
            Safe-Behaves s.state.timer_count (Leads-Safe safe l)
              (Leads-OnTime s.state.timer_count safe (start-OnTime s) l);
      }
