-- ===== src/Resume.antt =====
-- What a task does when it is switched to: the code behind its call of `dispatch_save` or
-- `dispatch_sleep`, or `launch_task`, up to its return to user mode. None of it switches again.
use fundamental_of_emb.Common.{ℕ, Bool, true, false, pos, update, add32}
use fundamental_of_emb.RunQueue.{Ptr}
use fundamental_of_emb.Kernel.{
  Kernel, Outcome, leave, stuck, launched, returned, interrupted, Resume, nowhere, launch_task,
  in_mutex_lock, in_mutex_unlock, in_dev_wait, in_dev_update, tcb_at, store, current,
  enable_interrupts,
}

-- The end of `mutex_lock` (lab4/lab4/kernel/lock/mutex.c), where the mutex is taken.
unfoldable pub acquire : ℕ → Ptr → Kernel → Outcome
acquire mutex cur k =
    let t = tcb_at k.system_tcb cur in
    let m = record (k.gt_mutex mutex) { locked = true; holding_tcb = cur } in
    let t' = record t { holds_lock = add32 t.holds_lock 1; cur_prio = 0 } in
    leave
      (enable_interrupts
        (record k { gt_mutex = update k.gt_mutex mutex m; system_tcb = store k.system_tcb cur t' }))
      (returned (pos 0))

-- `launch_task` goes to user mode, where interrupts are on; the handlers enable them and return 0;
-- the interrupt handler returns to what was interrupted, with interrupts on.
unfoldable pub resume_at : Resume → Kernel → Outcome
resume_at nowhere k = stuck
resume_at launch_task k = leave (enable_interrupts k) launched
resume_at (in_mutex_lock mutex cur) k = acquire mutex cur k
resume_at in_mutex_unlock k = leave (enable_interrupts k) (returned (pos 0))
resume_at in_dev_wait k = leave (enable_interrupts k) (returned (pos 0))
resume_at in_dev_update k = leave (enable_interrupts k) interrupted

-- The part of `ctx_switch_full` and `ctx_switch_half` that loads the context of the new task.
unfoldable pub resume : Kernel → Outcome
unfolding resume_at
resume k = resume_at (current k).context.lr k

-- After `dispatch_save`: the new task goes on, or the caller does if there was no switch.
unfoldable pub resume_if : Resume → Kernel × Bool → Outcome
unfolding resume_at
resume_if lr (k, true) = resume k
resume_if lr (k, false) = resume_at lr k
