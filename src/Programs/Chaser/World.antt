-- ===== src/Programs/Chaser/World.antt =====
-- The whole system of lab4/lab4/tasks/mutex_chaser/mutex_chaser.c: its four functions as tasks of the
-- kernel, one statement at a time, with timer interrupts between any two of them.
use fundamental_of_emb.Common.{
  ℕ, ◌+◌, ◌≡◌, Option, none, some, ℤ, pos, negsuc, update, ltb, ◌==◌, if◌then◌else◌, fill,
}
use fundamental_of_emb.RunQueue.{Ptr}
use fundamental_of_emb.Kernel.{
  Kernel, Outcome, leave, stuck, Entry, launched, returned, interrupted,
}
use fundamental_of_emb.Mutex.{mutex_lock, mutex_unlock}
use fundamental_of_emb.Device.{event_wait, timer_irq}
use fundamental_of_emb.Programs.Chaser.{
  Chaser, fun1, fun2, fun3, fun4, mutex_num, init_val, operate, device_of,
}

-- Where a function is: at its call of `mutex_lock`, at the load of the mutex's number, at the store
-- with the number loaded, at `mutex_unlock`, at the `event_wait` of its first loop or of the loop
-- behind it, or in `panic`.
pub data Point : Type 0 where
  locking : Point
  loading : Point
  storing : (number : ℕ) → Point
  unlocking : Point
  waiting : Point
  finished : Point
  panicked : Point

pub record Local : Type 0 where
  pub at : Point
  pub cur_mutex : ℕ

-- The test of the first loop.
abbrev pub loop_test : ℕ → Local
loop_test m = record { at = if ltb m mutex_num then locking else finished; cur_mutex = m }

-- The start of a function.
abbrev pub entered : Local
entered = loop_test 1

-- What a function does with the result of its call.
abbrev pub result_at : Point → ℕ → ℤ → Local
result_at locking m (pos r) = record { at = if r == 0 then loading else panicked; cur_mutex = m }
result_at locking m (negsuc e) = record { at = panicked; cur_mutex = m }
result_at unlocking m (pos r) =
    if r == 0
    then record { at = waiting; cur_mutex = m + 1 }
    else record { at = panicked; cur_mutex = m }
result_at unlocking m (negsuc e) = record { at = panicked; cur_mutex = m }
result_at waiting m (pos r) = loop_test m
result_at waiting m (negsuc e) = record { at = panicked; cur_mutex = m }
result_at finished m (pos r) = record { at = finished; cur_mutex = m }
result_at finished m (negsuc e) = record { at = panicked; cur_mutex = m }
result_at loading m r = record { at = loading; cur_mutex = m }
result_at (storing number) m r = record { at = storing number; cur_mutex = m }
result_at panicked m r = record { at = panicked; cur_mutex = m }

-- A task to which control comes back: it starts, has the result of its call, or goes on.
abbrev pub comes_back : Entry → Local → Local
comes_back launched l = entered
comes_back interrupted l = l
comes_back (returned r) l = result_at l.at l.cur_mutex r

-- The kernel, the numbers of the mutexes, and where the function of each task is.
pub record World : Type 0 where
  pub kernel : Kernel
  pub mutex_val : ℕ → ℕ
  pub locals : ℕ → Local

abbrev pub goes_on : World → Kernel → Entry → Ptr → Option World
goes_on w k e none = none
goes_on w k e (some c) =
    some (record w { kernel = k; locals = update w.locals c (comes_back e (w.locals c)) })

-- The end of a handler; `none` if it does not come back.
abbrev pub back : World → Outcome → Option World
back w stuck = none
back w (leave k e) = goes_on w k e k.cur_tcb

-- The function of a task: `task_create` has sorted the tasks by their periods. Task 63 is idle.
abbrev pub chaser_of : ℕ → Option Chaser
chaser_of t =
    if t == 1
    then some fun1
    else if t == 2
    then some fun2
    else if t == 3
    then some fun3
    else if t == 4
    then some fun4
    else none

-- The next statement of function `f` as task `c`.
abbrev pub statement : Chaser → ℕ → World → Point → ℕ → Option World
statement f c w locking m = back w (mutex_lock m w.kernel)
statement f c w loading m = some (record w {
  locals = update w.locals c (record { at = storing (w.mutex_val m); cur_mutex = m });
})
statement f c w (storing number) m = some (record w {
  mutex_val = update w.mutex_val m (operate f number);
  locals = update w.locals c (record { at = unlocking; cur_mutex = m });
})
statement f c w unlocking m = back w (mutex_unlock m w.kernel)
statement f c w waiting m = back w (event_wait (device_of f) w.kernel)
statement f c w finished m = back w (event_wait (device_of f) w.kernel)
statement f c w panicked m = some w

abbrev pub runs_as : Option Chaser → ℕ → World → Option World
runs_as none c w = some w
runs_as (some f) c w = statement f c w (w.locals c).at (w.locals c).cur_mutex

abbrev pub runs_from : World → Ptr → Option World
runs_from w none = none
runs_from w (some c) = runs_as (chaser_of c) c w

-- What happens next: a statement of the current task, or a timer interrupt.
pub data Move : Type 0 where
  run : Move
  tick : Move

unfoldable pub move : Move → World → Option World
move run w = runs_from w w.kernel.cur_tcb
move tick w = back w (timer_irq w.kernel)

-- The worlds that statements and interrupts in any order lead to.
pub data Leads (start : World) : World → Type 0 where
  here : Leads start start
  next : {w w' : World} → Leads start w → (m : Move) → move m w ≡ some w' → Leads start w'

-- Behind the `task_create` of `main`, which has set the numbers.
abbrev pub start_world : Kernel → (ℕ → ℕ) → World
start_world k old = record {
  kernel = k;
  mutex_val = fill mutex_num (λ i. init_val) old;
  locals = λ t. entered;
}
