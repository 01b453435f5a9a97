-- ===== src/Tests/System.antt =====
-- A system with two tasks: its start by task_create (lab4/lab4/kernel/syscall/proc.c), and what
-- happens in it.
use fundamental_of_emb.Common.{
  ℕ, ◌<◌, ◌≡◌, ◌≢◌, refl, sym, subst, ap, ◌∙◌, true, false, none, some, arith, set_bit, clear_bit,
  ◌^◌, fill_lem,
}
use fundamental_of_emb.RunQueue.{
  runqueue_init, runqueue_add, runqueue_remove, highest_prio, unmap, prio_unmap_table,
}
use fundamental_of_emb.Schedule.{assign_schedule, bound}
use fundamental_of_emb.Dispatch.{dispatch_init, dispatch_nosave, take_highest}
use fundamental_of_emb.Resume.{resume}
use fundamental_of_emb.Kernel.{Kernel, Outcome, leave, stuck, Entry, launched, zero_tcb}
use fundamental_of_emb.Mutex.{mutex_init, mutex_lock, mutex_unlock, fresh_mutex}
use fundamental_of_emb.Device.{dev_init, dev_wait, event_wait}
use fundamental_of_emb.Task.{sort_tasks}
use fundamental_of_emb.Boot.{sched_init, allocate_tasks, task_create, argument_error, stacks_valid}
use fundamental_of_emb.Boot.Sound.{Starts, task_create-Starts}
use fundamental_of_emb.Memcheck.{valid_addr}
use fundamental_of_emb.Protocol.Defs.{MutexFine, Inv, IsSound}
use fundamental_of_emb.Protocol.Switch.{IsFine}
use fundamental_of_emb.Protocol.Parks.{Parks, dev_wait-Parks}
use fundamental_of_emb.Protocol.Asleep.{is_due}
use fundamental_of_emb.Protocol.Await.{Before, waits_for_match}
use fundamental_of_emb.Protocol.Clock.{Reads, LeavesReads, event_wait-LeavesReads}
use fundamental_of_emb.Protocol.Urgent.{LeavesUrgent, dev_wait-LeavesUrgent}
use fundamental_of_emb.Timer.{irq_handler, Handled, irq_handler-Handled}
use fundamental_of_emb.Protocol.Locks.{
  Ends, lock_code, unlock_code, mutex_lock_lem, mutex_unlock_lem,
}
use fundamental_of_emb.Protocol.Reach.{
  wait, tick, step, Allowed, step-IsFine, Reach, here, next, LocksFine, locks_are_current, Found,
  no_task_lost, Reach-IsSound,
}
use fundamental_of_emb.Tests.Queue.{noise}
use fundamental_of_emb.Tests.Tasks.{fixed, two_tasks, sorted_accepted}

-- The memory before the kernel starts, and after `mutex_init`.
abbrev memory : Kernel
memory = record {
  run_queue = noise;
  system_tcb = λ t. zero_tcb;
  cur_tcb = none;
  gt_mutex =
      λ m. record { available = false; holding_tcb = some 9; locked = true; sleep_queue = some 9 };
  devices = λ d. record { sleep_queue = some 9; next_match = 7 };
  timer_count = 120;
  irq = true;
}

abbrev blank : Kernel
blank = mutex_init memory

blank_free :
    (m : ℕ) → m < 32 → MutexFine none (blank.gt_mutex m) × ((blank.gt_mutex m).locked ≡ false)
unfolding mutex_init
blank_free m lt =
    let e : blank.gt_mutex m ≡ fresh_mutex =
      fill_lem 32 (λ _. fresh_mutex) memory.gt_mutex m ∙ ground arith in
    rw e (record { holder = refl; no_sleepers = refl; allocated = λ a. refl }, refl)

arguments_pass : argument_error 0xa000_0000 two_tasks 2 ≡ 0
unfolding valid_addr stacks_valid
arguments_pass = refl

task_create-Starts_example :
    ((task_create fixed 0xa000_3000 0xa000_0000 two_tasks 2 blank).0 ≡ sort_tasks 2 two_tasks)
    × Starts 2
        (sort_tasks 2 two_tasks 0)
        blank.gt_mutex
        (task_create fixed 0xa000_3000 0xa000_0000 two_tasks 2 blank).1
task_create-Starts_example =
    task_create-Starts fixed 0xa000_3000 0xa000_0000 two_tasks 2 blank arguments_pass
      sorted_accepted blank_free

abbrev state_of : Outcome → Kernel
state_of (leave k e) = k
state_of stuck = blank

-- The running system, in its first task.
abbrev demo : Kernel
demo = state_of (task_create fixed 0xa000_3000 0xa000_0000 two_tasks 2 blank).1

demo-Starts :
    Starts 2
      (sort_tasks 2 two_tasks 0)
      blank.gt_mutex
      (task_create fixed 0xa000_3000 0xa000_0000 two_tasks 2 blank).1
demo-Starts =
    (task_create-Starts fixed 0xa000_3000 0xa000_0000 two_tasks 2 blank arguments_pass
      sorted_accepted blank_free).1

demo-Inv : Inv 2 demo 1 demo-Starts.ghost
demo-Inv =
    subst (λ k. Inv 2 k 1 demo-Starts.ghost) (sym (ap state_of demo-Starts.result))
      demo-Starts.sound

demo-IsSound : IsSound 2 demo
demo-IsSound = (1, demo-Starts.ghost, demo-Inv)

not_idle : demo.cur_tcb ≢ some 63
not_idle e = ground (arith, demo-Inv.cur)

step-IsFine_example : IsFine 2 (step (wait 3) demo)
step-IsFine_example = step-IsFine (wait 3) demo-IsSound (not_idle, λ e. absurd (omega arith))

mutex_lock_lem_example : Ends 2 demo 1 demo-Starts.ghost (lock_code demo 5) (mutex_lock 5 demo)
mutex_lock_lem_example = mutex_lock_lem demo-Inv 5

mutex_unlock_lem_example :
    Ends 2 demo 1 demo-Starts.ghost (unlock_code demo 5) (mutex_unlock 5 demo)
mutex_unlock_lem_example = mutex_unlock_lem demo-Inv 5

-- What an event leads to.
abbrev entry_of : Outcome → Entry
entry_of (leave k e) = e
entry_of stuck = launched

comes_back : (n : ℕ) (o : Outcome) → IsFine n o → o ≡ leave (state_of o) (entry_of o)
comes_back n (leave k e) h = refl
comes_back n stuck h = absurd h

-- The first task waits for device 3, then the timer ticks.
abbrev after_wait : Kernel
after_wait = state_of (step (wait 3) demo)

abbrev after_tick : Kernel
after_tick = state_of (step tick after_wait)

reach_wait : Reach demo after_wait
reach_wait =
    let a : Allowed (wait 3) demo = (not_idle, λ e. absurd (omega arith)) in
    next here (wait 3) a (comes_back 2 (step (wait 3) demo) (step-IsFine (wait 3) demo-IsSound a))

reach_tick : Reach demo after_tick
reach_tick = next reach_wait tick tt (
    comes_back 2 (step tick after_wait)
      (step-IsFine tick (Reach-IsSound demo-IsSound reach_wait) tt))

locks_are_current_example : LocksFine after_tick 5
locks_are_current_example = locks_are_current demo-IsSound reach_tick 5 (omega arith)

no_task_lost_example : Found after_tick 1
no_task_lost_example =
    no_task_lost demo-IsSound reach_tick 1 (omega arith) (omega arith) (omega arith)

irq_handler-Handled_example :
    Handled true 2 demo demo-Starts.ghost (λ a. 2 ^ 26) (irq_handler (λ a. 2 ^ 26) demo)
irq_handler-Handled_example = irq_handler-Handled (λ a. 2 ^ 26) demo-Inv

unlocked_demo : (demo.system_tcb 1).holds_lock ≡ 0
unfolding task_create assign_schedule bound sort_tasks valid_addr stacks_valid mutex_init dev_init
    sched_init allocate_tasks dispatch_init dispatch_nosave take_highest runqueue_init runqueue_add
    runqueue_remove highest_prio unmap prio_unmap_table set_bit clear_bit resume
unlocked_demo = refl

demo-Reads : Reads 120 (λ d. (demo.devices d).next_match) demo × ((demo.devices 3).next_match ≡ 170)
unfolding task_create assign_schedule bound sort_tasks valid_addr stacks_valid mutex_init dev_init
    sched_init allocate_tasks dispatch_init dispatch_nosave take_highest runqueue_init runqueue_add
    runqueue_remove highest_prio unmap prio_unmap_table set_bit clear_bit resume
demo-Reads = ((refl, (λ d lt. refl)), refl)

wait_returns : event_wait 3 demo ≡ leave after_wait (entry_of (step (wait 3) demo))
unfolding step
wait_returns =
    comes_back 2 (step (wait 3) demo)
      (step-IsFine (wait 3) demo-IsSound (not_idle, λ e. absurd (omega arith)))

-- The first match of device 3 is later than the first interrupt.
not_due : is_due after_wait 3 ≡ false
not_due =
    let r =
      subst (LeavesReads demo.timer_count (λ d. (demo.devices d).next_match)) wait_returns
        (event_wait-LeavesReads demo-Inv unlocked_demo (omega arith) 3 (omega arith)) in
    rw (r.0, r.1 3 (omega arith), demo-Reads.0.0, demo-Reads.1) refl

waits_for_match_example : after_tick.cur_tcb ≢ some 1
waits_for_match_example =
    waits_for_match demo-Inv unlocked_demo (omega arith) 3 (omega arith) wait_returns (
      Before.next Before.here tick tt not_due (
        comes_back 2 (step tick after_wait)
          (step-IsFine tick (Reach-IsSound demo-IsSound reach_wait) tt)))

dev_wait-Parks_example : Parks 2 demo 1 (demo-Starts.ghost.queue 2) 2 (dev_wait 2 demo)
dev_wait-Parks_example = dev_wait-Parks demo-Inv unlocked_demo (omega arith) 2 (omega arith)

dev_wait-LeavesUrgent_example : LeavesUrgent (dev_wait 2 demo)
dev_wait-LeavesUrgent_example =
    dev_wait-LeavesUrgent demo-Inv unlocked_demo (omega arith) 2 (omega arith)
