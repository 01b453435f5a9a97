-- ===== src/Device.antt =====
-- lab4/lab4/kernel/device.c, and the event_wait call of lab4/lab4/kernel/syscall/proc.c.
use fundamental_of_emb.Common.{
  ℕ, zero, suc, Bool, true, false, not, ◌&&◌, ◌||◌, Option, none, some, [], ◌∷◌, minus, update,
  fill, get_or, is_negative, is_some, ltb, leb, ◌==◌, if◌then◌else◌, add32,
}
use fundamental_of_emb.RunQueue.{RunQueue, Ptr, runqueue_add}
use fundamental_of_emb.Kernel.{
  Kernel, Tcb, Dev, Outcome, leave, stuck, returned, interrupted, in_dev_wait, in_dev_update,
  current, disable_interrupts, enable_interrupts, num_devices, einval, eholdslock,
}
use fundamental_of_emb.Dispatch.{dispatch_save, dispatch_sleep}
use fundamental_of_emb.Sleep.{append_sleeper, queue_fuel}
use fundamental_of_emb.Resume.{resume, resume_if}

abbrev pub dev_freq : ℕ → ℕ
dev_freq i = get_or (100 ∷ 200 ∷ 500 ∷ 50 ∷ []) i 0

unfoldable pub dev_init : Kernel → Kernel
dev_init k = record k {
  devices =
      fill num_devices
        (λ i. record { next_match = add32 k.timer_count (dev_freq i); sleep_queue = none })
        k.devices;
}

-- `dev` indexes four devices; what lies behind them is entry 4 of the function.
abbrev pub wait_on : ℕ → Kernel → Option (Ptr × (ℕ → Tcb)) → Outcome
wait_on dev k none = stuck
wait_on dev k (some (head, s)) = resume (
    dispatch_sleep in_dev_wait (record k {
      devices = update k.devices dev (record (k.devices dev) { sleep_queue = head });
      system_tcb = s;
    }))

unfoldable pub dev_wait : ℕ → Kernel → Outcome
dev_wait dev k0 =
    let k = disable_interrupts k0 in
    wait_on dev k (append_sleeper k.system_tcb (k.devices dev).sleep_queue k.cur_tcb)

-- The inner loop of `dev_update`: every task of a sleep queue becomes runnable.
unfoldable pub wake_all : ℕ → Ptr → RunQueue → (ℕ → Tcb) → Option (RunQueue × (ℕ → Tcb))
wake_all fuel none q s = some (q, s)
wake_all zero (some node) q s = none
wake_all (suc fuel) (some node) q s =
    let t = s node in
    wake_all fuel t.sleep_queue (runqueue_add q (some node) t.cur_prio)
      (update s node (record t { sleep_queue = none }))

-- The state of the loop over the devices, with `dispatch_update_flag`.
abbrev pub Scan : Type 0
Scan = Option (Kernel × Bool)

abbrev pub woken : Kernel → Bool → Option (RunQueue × (ℕ → Tcb)) → Scan
woken k flag none = none
woken k flag (some (q, s)) = some (record k { run_queue = q; system_tcb = s }, flag)

-- One round of `dev_update`, for device `i`.
unfoldable pub update_dev : ℕ → ℕ → Kernel → Bool → Scan
update_dev millis i k flag =
    let d = k.devices i in
    let d' : Dev = record { next_match = add32 millis (dev_freq i); sleep_queue = none } in
    if leb d.next_match millis
    then woken (record k { devices = update k.devices i d' }) (flag || is_some d.sleep_queue)
        (wake_all queue_fuel d.sleep_queue k.run_queue k.system_tcb)
    else some (k, flag)

abbrev pub update_next : ℕ → ℕ → Scan → Scan
update_next millis i none = none
update_next millis i (some (k, flag)) = update_dev millis i k flag

-- The four rounds.
unfoldable pub update_devs : ℕ → ℕ → Kernel → Scan
update_devs millis zero k = some (k, false)
update_devs millis (suc n) k = update_next millis n (update_devs millis n k)

abbrev pub update_end : Scan → Outcome
update_end none = stuck
update_end (some (k, true)) = resume_if in_dev_update (dispatch_save in_dev_update k)
update_end (some (k, false)) = leave (enable_interrupts k) interrupted

unfoldable pub dev_update : ℕ → Kernel → Outcome
unfolding update_devs
dev_update millis k = update_end (update_devs millis num_devices k)

-- `dev > NUM_DEVICES` lets the device number 4 through.
unfoldable pub event_wait : ℕ → Kernel → Outcome
event_wait dev k =
    let holds = (current k).holds_lock in
    if ltb num_devices dev
    then leave k (returned (minus einval))
    else if not (holds == 0) && not (is_negative holds)
    then leave k (returned (minus eholdslock))
    else dev_wait dev k

-- `C_IRQ_handler` of lab4/lab4/kernel/arm/C_IRQ_handler.c for a pending timer interrupt, taken with
-- interrupts on. The timer's registers are in `Timer`.
unfoldable pub timer_irq : Kernel → Outcome
timer_irq k =
    let now = add32 k.timer_count 10 in
    dev_update now (disable_interrupts (record k { timer_count = now }))
