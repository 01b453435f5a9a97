-- ===== src/Programs/Dagger.antt =====
-- The system of lab4/lab4/tasks/dagger/dagger.c: its two functions as tasks of the kernel, one
-- statement at a time, with timer interrupts between any two of them.
pub mod Pace
pub mod Safe
pub mod System
pub mod Period
pub mod Whole
use fundamental_of_emb.Common.{
  ℕ, ◌+◌, ◌≡◌, Option, none, some, List, [], ◌∷◌, ℤ, pos, negsuc, update, ◌==◌, if◌then◌else◌,
}
use fundamental_of_emb.RunQueue.{Ptr}
use fundamental_of_emb.Kernel.{
  Kernel, Outcome, leave, stuck, Entry, launched, returned, interrupted,
}
use fundamental_of_emb.Device.{event_wait, timer_irq}
use fundamental_of_emb.Protocol.Asleep.{is_due}

pub data Function : Type 0 where
  fun1 : Function
  fun2 : Function

-- The character that `main` gives to a function.
abbrev pub str_of : Function → ℕ
str_of fun1 = b'@'
str_of fun2 = b'<'

-- The device that a function waits for.
abbrev pub dev_of : Function → ℕ
dev_of fun1 = 0
dev_of fun2 = 1

-- Where a function is: at its call of `putchar`, at its `event_wait`, or in `panic`.
pub data Point : Type 0 where
  showing : Point
  waiting : Point
  panicked : Point

-- What a function does with the result of its `event_wait`.
abbrev pub result_at : Point → ℤ → Point
result_at waiting (pos r) = showing
result_at waiting (negsuc e) = panicked
result_at showing r = showing
result_at panicked r = panicked

-- A task to which control comes back: it starts, has the result of its call, or goes on.
abbrev pub comes_back : Entry → Point → Point
comes_back launched p = showing
comes_back interrupted p = p
comes_back (returned r) p = result_at p r

-- The kernel, where the function of each task is, the characters given to `putchar`, the last one
-- first, how many interrupts have come to the next match of each device, and how many there were.
pub record World : Type 0 where
  pub kernel : Kernel
  pub points : ℕ → Point
  pub shown : List ℕ
  pub matches : ℕ → ℕ
  pub ticks : ℕ

abbrev pub goes_on : World → Kernel → Entry → Ptr → Option World
goes_on w k e none = none
goes_on w k e (some c) =
    some (record w { kernel = k; points = update w.points c (comes_back e (w.points c)) })

-- The end of a handler; `none` if it does not come back.
abbrev pub back : World → Outcome → Option World
back w stuck = none
back w (leave k e) = goes_on w k e k.cur_tcb

-- The function of a task: `task_create` has sorted the tasks by their periods. Task 63 is idle.
abbrev pub function_of : ℕ → Option Function
function_of t = if t == 1 then some fun1 else if t == 2 then some fun2 else none

-- The next statement of function `f` as task `c`.
abbrev pub statement : Function → ℕ → World → Point → Option World
statement f c w showing =
    some (record w { points = update w.points c waiting; shown = str_of f ∷ w.shown })
statement f c w waiting = back w (event_wait (dev_of f) w.kernel)
statement f c w panicked = some w

abbrev pub runs_as : Option Function → ℕ → World → Option World
runs_as none c w = some w
runs_as (some f) c w = statement f c w (w.points c)

abbrev pub runs_from : World → Ptr → Option World
runs_from w none = none
runs_from w (some c) = runs_as (function_of c) c w

-- What happens next: a statement of the current task, or a timer interrupt.
pub data Move : Type 0 where
  run : Move
  tick : Move

-- The interrupts that come to the next match of a device, with the one that comes now.
abbrev pub matched : World → ℕ → ℕ
matched w d = w.matches d + (if is_due w.kernel d then 1 else 0)

abbrev pub ticked : World → World
ticked w = record w { matches = matched w; ticks = w.ticks + 1 }

unfoldable pub move : Move → World → Option World
move run w = runs_from w w.kernel.cur_tcb
move tick w = back (ticked w) (timer_irq w.kernel)

-- The worlds that statements and interrupts in any order lead to.
pub data Leads (start : World) : World → Type 0 where
  here : Leads start start
  next : {w w' : World} → Leads start w → (m : Move) → move m w ≡ some w' → Leads start w'

-- Behind the `task_create` of `main`.
abbrev pub start_world : Kernel → World
start_world k = record {
  kernel = k;
  points = λ t. showing;
  shown = [];
  matches = λ d. 0;
  ticks = 0;
}
