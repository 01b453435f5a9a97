-- ===== src/Mutex.antt =====
-- lab4/lab4/kernel/lock/mutex.c.
use fundamental_of_emb.Common.{
  ℕ, zero, suc, ◌+◌, true, false, not, ◌||◌, Option, none, some, ℤ, pos, minus, update, fill,
  ptr_eq, is_negative, leb, ◌==◌, if◌then◌else◌, sub32,
}
use fundamental_of_emb.RunQueue.{Ptr, runqueue_add}
use fundamental_of_emb.Kernel.{
  Kernel, Tcb, Mutex, Outcome, leave, stuck, returned, in_mutex_lock, in_mutex_unlock, store,
  current, disable_interrupts, enable_interrupts, os_num_mutex, eperm, enomem, einval, edeadlock,
}
use fundamental_of_emb.Dispatch.{dispatch_save, dispatch_sleep}
use fundamental_of_emb.Sleep.{append_sleeper}
use fundamental_of_emb.Resume.{acquire, resume, resume_if}

abbrev pub fresh_mutex : Mutex
fresh_mutex = record { available = true; holding_tcb = none; locked = false; sleep_queue = none }

unfoldable pub mutex_init : Kernel → Kernel
unfolding fill
mutex_init k = record k { gt_mutex = fill os_num_mutex (λ _. fresh_mutex) k.gt_mutex }

-- The loop of `mutex_create`, with `n` entries left from `i` on.
unfoldable pub create_from : ℕ → ℕ → (ℕ → Mutex) → Option ℕ
create_from zero i ms = none
create_from (suc n) i ms =
    let rest = create_from n (i + 1) ms in if (ms i).available then some i else rest

abbrev pub create_at : Kernel → Option ℕ → Kernel × ℤ
create_at k none = (enable_interrupts k, minus enomem)
create_at k (some i) = (
  enable_interrupts
      (record k { gt_mutex = update k.gt_mutex i (record (k.gt_mutex i) { available = false }) }),
  pos i,
)

unfoldable pub mutex_create : Kernel → Kernel × ℤ
unfolding create_from
mutex_create k =
    let k' = disable_interrupts k in create_at k' (create_from os_num_mutex 0 k'.gt_mutex)

-- The rest of `mutex_lock` behind the argument checks: it sleeps first if the mutex is locked.
abbrev pub sleep_on : ℕ → Kernel → Option (Ptr × (ℕ → Tcb)) → Outcome
sleep_on mutex k none = stuck
sleep_on mutex k (some (head, s)) =
    let m = record (k.gt_mutex mutex) { sleep_queue = head } in
    let k' = record k { gt_mutex = update k.gt_mutex mutex m; system_tcb = s } in
    resume (dispatch_sleep (in_mutex_lock mutex k.cur_tcb) k')

unfoldable pub mutex_lock : ℕ → Kernel → Outcome
mutex_lock mutex k0 =
    let k = disable_interrupts k0 in
    let m = k.gt_mutex mutex in
    if is_negative mutex || leb os_num_mutex mutex
    then leave (enable_interrupts k) (returned (minus einval))
    else if m.available
    then leave (enable_interrupts k) (returned (minus einval))
    else if ptr_eq m.holding_tcb k.cur_tcb
    then leave (enable_interrupts k) (returned (minus edeadlock))
    else if m.locked
    then sleep_on mutex k (append_sleeper k.system_tcb m.sleep_queue k.cur_tcb)
    else acquire mutex k.cur_tcb k

-- The count goes down, and at 0 the native priority comes back.
abbrev pub release_tcb : Tcb → Tcb
release_tcb t =
    let holds = sub32 t.holds_lock 1 in
    record t { holds_lock = holds; cur_prio = if holds == 0 then t.native_prio else t.cur_prio }

-- The first sleeper of an unlocked mutex becomes runnable.
abbrev pub wake_first : ℕ → Kernel → Ptr → Outcome
wake_first mutex k none = leave (enable_interrupts k) (returned (pos 0))
wake_first mutex k (some temp) =
    let t = k.system_tcb temp in
    let m = record (k.gt_mutex mutex) { sleep_queue = t.sleep_queue } in
    resume_if in_mutex_unlock (
      dispatch_save in_mutex_unlock (record k {
        gt_mutex = update k.gt_mutex mutex m;
        system_tcb = update k.system_tcb temp (record t { sleep_queue = none });
        run_queue = runqueue_add k.run_queue (some temp) t.cur_prio;
      }))

unfoldable pub mutex_unlock : ℕ → Kernel → Outcome
mutex_unlock mutex k0 =
    let k = disable_interrupts k0 in
    let m = k.gt_mutex mutex in
    if is_negative mutex || leb os_num_mutex mutex
    then leave (enable_interrupts k) (returned (minus einval))
    else if m.available
    then leave (enable_interrupts k) (returned (minus einval))
    else if not (ptr_eq m.holding_tcb k.cur_tcb)
    then leave (enable_interrupts k) (returned (minus eperm))
    else wake_first mutex
        (record k {
          gt_mutex = update k.gt_mutex mutex (record m { locked = false; holding_tcb = none });
          system_tcb = store k.system_tcb k.cur_tcb (release_tcb (current k));
        })
        m.sleep_queue
