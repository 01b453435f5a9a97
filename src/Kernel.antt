-- ===== src/Kernel.antt =====
-- The state of the lab4 kernel: task control blocks (lab4/lab4/kernel/include/task.h), mutexes
-- (include/lock.h), devices (device.c), the run queue, the current task and the clock.
use fundamental_of_emb.Common.{ℕ, Bool, true, false, none, some, ℤ, update}
use fundamental_of_emb.RunQueue.{RunQueue, Ptr}

-- Constants of config.h, device.h and bits/errno.h.
abbrev pub os_num_mutex : ℕ
os_num_mutex = 32

abbrev pub num_devices : ℕ
num_devices = 4

abbrev pub eperm : ℕ
eperm = 1

abbrev pub ebadf : ℕ
ebadf = 9

abbrev pub enomem : ℕ
enomem = 12

abbrev pub efault : ℕ
efault = 14

abbrev pub einval : ℕ
einval = 22

abbrev pub edeadlock : ℕ
edeadlock = 58

abbrev pub eholdslock : ℕ
eholdslock = 60

abbrev pub esched : ℕ
esched = 100

-- Where a suspended task goes on: the `lr` of its context. The four points inside C functions are
-- those behind a call of `dispatch_save` or `dispatch_sleep`, with the locals that are live there.
pub data Resume : Type 0 where
  nowhere : Resume
  launch_task : Resume
  in_mutex_lock : (mutex : ℕ) → (cur_tcb : Ptr) → Resume
  in_mutex_unlock : Resume
  in_dev_wait : Resume
  in_dev_update : Resume

-- `struct sched_context`. Of the registers only those that `launch_task` reads are kept; `sp` is
-- the entry of `system_tcb` whose kernel stack it is the top of.
pub record SchedContext : Type 0 where
  pub r4 : ℕ
  pub r5 : ℕ
  pub r6 : ℕ
  pub sp : Ptr
  pub lr : Resume

-- `struct tcb`. `holds_lock` is an `int`, as its 32-bit pattern.
pub record Tcb : Type 0 where
  pub native_prio : ℕ
  pub cur_prio : ℕ
  pub context : SchedContext
  pub holds_lock : ℕ
  pub sleep_queue : Ptr

-- `struct mutex`.
pub record Mutex : Type 0 where
  pub available : Bool
  pub holding_tcb : Ptr
  pub locked : Bool
  pub sleep_queue : Ptr

-- `struct dev`.
pub record Dev : Type 0 where
  pub sleep_queue : Ptr
  pub next_match : ℕ

-- The globals. `irq` says whether interrupts are enabled.
pub record Kernel : Type 0 where
  pub run_queue : RunQueue
  pub system_tcb : ℕ → Tcb
  pub cur_tcb : Ptr
  pub gt_mutex : ℕ → Mutex
  pub devices : ℕ → Dev
  pub timer_count : ℕ
  pub irq : Bool

-- How control comes back to user mode, in the task that is current then.
pub data Entry : Type 0 where
  launched : Entry
  returned : ℤ → Entry
  interrupted : Entry

-- A handler goes back to user mode. `stuck` is a loop that used up its fuel, or a jump to a context
-- that was never set.
pub data Outcome : Type 0 where
  leave : Kernel → Entry → Outcome
  stuck : Outcome

abbrev zero_context : SchedContext
zero_context = record { r4 = 0; r5 = 0; r6 = 0; sp = none; lr = nowhere }

abbrev pub zero_tcb : Tcb
zero_tcb = record {
  native_prio = 0;
  cur_prio = 0;
  context = zero_context;
  holds_lock = 0;
  sleep_queue = none;
}

-- What a pointer points to. A read through NULL, undefined in C, gives zeros here, and a write
-- through NULL is dropped; the invariant of `Protocol` rules both out.
abbrev pub tcb_at : (ℕ → Tcb) → Ptr → Tcb
tcb_at s none = zero_tcb
tcb_at s (some i) = s i

abbrev pub store : (ℕ → Tcb) → Ptr → Tcb → ℕ → Tcb
store s none t = s
store s (some i) t = update s i t

-- `get_cur_tcb()` of sched/ctx_switch.c is the field `cur_tcb`; this is what it points to.
abbrev pub current : Kernel → Tcb
current k = tcb_at k.system_tcb k.cur_tcb

abbrev pub disable_interrupts : Kernel → Kernel
disable_interrupts k = record k { irq = false }

abbrev pub enable_interrupts : Kernel → Kernel
enable_interrupts k = record k { irq = true }
