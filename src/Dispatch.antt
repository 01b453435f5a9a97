-- ===== src/Dispatch.antt =====
-- The dispatcher: lab4/lab4/kernel/sched/ctx_switch.c.
use fundamental_of_emb.Common.{ℕ, Bool, true, false, ltb, if◌then◌else◌}
use fundamental_of_emb.RunQueue.{Ptr, runqueue_add, runqueue_remove, highest_prio}
use fundamental_of_emb.Kernel.{Kernel, Resume, tcb_at, store, current}

unfoldable pub dispatch_init : Ptr → Kernel → Kernel
dispatch_init idle k = record k { cur_tcb = idle }

unfoldable pub get_cur_prio : Kernel → ℕ
get_cur_prio k = (current k).cur_prio

unfoldable pub get_cur_tcb : Kernel → Ptr
get_cur_tcb k = k.cur_tcb

-- The part of `ctx_switch_full` that stores the context of the task left: it will go on at `lr`.
abbrev pub save_context : Ptr → Resume → Kernel → Kernel
save_context p lr k =
    let t = tcb_at k.system_tcb p in
    record k {
      system_tcb = store k.system_tcb p (record t { context = record (t.context) { lr = lr } });
    }

-- `cur_tcb = runqueue_remove(highest_prio())`.
unfoldable pub take_highest : Kernel → Kernel
take_highest k =
    let (p, q) = runqueue_remove k.run_queue (highest_prio k.run_queue) in
    record k { run_queue = q; cur_tcb = p }

-- The task left goes back to the run queue, and the most urgent one is taken.
abbrev pub switch_from : Ptr → ℕ → Resume → Kernel → Kernel
switch_from cur prio lr k =
    save_context cur lr (take_highest (record k { run_queue = runqueue_add k.run_queue cur prio }))

-- True if another task is switched to, which then goes on from its context.
unfoldable pub dispatch_save : Resume → Kernel → Kernel × Bool
dispatch_save lr k =
    if ltb (highest_prio k.run_queue) (current k).cur_prio
    then (
      save_context k.cur_tcb lr (
          take_highest
            (record k { run_queue = runqueue_add k.run_queue k.cur_tcb (current k).cur_prio })),
      true,
    )
    else (k, false)

-- `ctx_switch_half` stores nothing.
unfoldable pub dispatch_nosave : Kernel → Kernel
dispatch_nosave k = take_highest k

unfoldable pub dispatch_sleep : Resume → Kernel → Kernel
dispatch_sleep lr k = save_context k.cur_tcb lr (take_highest k)
