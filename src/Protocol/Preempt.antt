-- ===== src/Protocol/Preempt.antt =====
-- A timer interrupt leaves the most urgent task current (lab4/lab4/kernel/device.c).
use fundamental_of_emb.Common.{
  ℕ, zero, suc, ◌≤◌, ◌<◌, ◌≡◌, refl, sym, subst, ◌∙◌, ap, Bool, true, false, none, some, leb, arith,
  Bool-cases, inl, inr, ◌||◌, is_some, update, add32, Option, ◌==◌, ==_iff, ◌≢◌, if◌then◌else◌,
}
use fundamental_of_emb.RunQueue.{RunQueue, Ptr}
use fundamental_of_emb.RunQueue.Inv.{is_runnable}
use fundamental_of_emb.Kernel.{Kernel, Dev, Tcb, current, tcb_at}
use fundamental_of_emb.Device.{
  dev_freq, update_dev, update_next, update_devs, update_end, wake_all, woken, Scan, dev_update,
  timer_irq,
}
use fundamental_of_emb.Sleep.{queue_fuel}
use fundamental_of_emb.Protocol.Defs.{
  Ghost, Inv, Place, absent, running, ready, waiting, is_absent, slot,
}
use fundamental_of_emb.Protocol.Section.{NoneLocked, none_held}
use fundamental_of_emb.Protocol.Switch.{clock-Inv}
use fundamental_of_emb.Protocol.Update.{update_devs-Scanned}
use fundamental_of_emb.Protocol.Urgent.{MostUrgent, LeavesUrgent, dispatch-LeavesUrgent}

-- A scan that has woken nobody has not touched what the dispatcher reads.
abbrev Untouched : Kernel → Scan → Type 0
Untouched k none = Unit
Untouched k (some (k', true)) = Unit
Untouched k (some (k', false)) =
    (k'.run_queue ≡ k.run_queue) × (k'.cur_tcb ≡ k.cur_tcb) × (k'.system_tcb ≡ k.system_tcb)

woken-Untouched :
    (k k' : Kernel) (o : Option (RunQueue × (ℕ → Tcb))) → Untouched k (woken k' true o)
woken-Untouched k k' none = tt
woken-Untouched k k' (some r) = tt

module _ (k k' : Kernel) (i : ℕ) (d : Dev) where
  -- A sleep queue that is not empty sets the flag.
  queue-Untouched :
      (p : Ptr) (flag : Bool)
      → Untouched k (some (k', flag))
      → Untouched k (
          woken
            (record k' { devices = update k'.devices i d })
            (flag || is_some p)
            (wake_all queue_fuel p k'.run_queue k'.system_tcb))
  unfolding wake_all
  queue-Untouched none true u = tt
  queue-Untouched none false u = u
  queue-Untouched (some t) true u =
      woken-Untouched k (record k' { devices = update k'.devices i d })
        (wake_all queue_fuel (some t) k'.run_queue k'.system_tcb)
  queue-Untouched (some t) false u =
      woken-Untouched k (record k' { devices = update k'.devices i d })
        (wake_all queue_fuel (some t) k'.run_queue k'.system_tcb)

module _ (k : Kernel) (millis : ℕ) where
  update_dev-Untouched :
      (i : ℕ) (k' : Kernel) (flag : Bool)
      → Untouched k (some (k', flag))
      → Untouched k (update_dev millis i k' flag)
  unfolding update_dev
  update_dev-Untouched i k' flag u = elim (Bool-cases (leb (k'.devices i).next_match millis)) [
    | inl due ↦ rw due (
        queue-Untouched k k' i
          (record { next_match = add32 millis (dev_freq i); sleep_queue = none })
          (k'.devices i).sleep_queue flag u)
    | inr early ↦ rw early u
  ]

  update_next-Untouched : (i : ℕ) (o : Scan) → Untouched k o → Untouched k (update_next millis i o)
  update_next-Untouched i none u = tt
  update_next-Untouched i (some (k', flag)) u = update_dev-Untouched i k' flag u

  update_devs-Untouched : (n : ℕ) → Untouched k (update_devs millis n k)
  unfolding update_devs
  update_devs-Untouched zero = (refl, refl, refl)
  update_devs-Untouched (suc n) = update_next-Untouched n _ (update_devs-Untouched n)

-- The current task and the run queue decide.
MostUrgent-same :
    (k k' : Kernel)
    → (k'.run_queue ≡ k.run_queue) × (k'.cur_tcb ≡ k.cur_tcb) × (k'.system_tcb ≡ k.system_tcb)
    → MostUrgent k
    → MostUrgent k'
MostUrgent-same k k' same u t lt r =
    let prio : (current k').cur_prio ≡ (current k).cur_prio =
      ap (λ p. (tcb_at k'.system_tcb p).cur_prio) same.1
      ∙ ap (λ s. (tcb_at s k.cur_tcb).cur_prio) same.2 in
    subst (λ p. p ≤ t) (sym prio) (u t lt (sym (ap (λ q. is_runnable q t) same.0) ∙ r))

update_end-LeavesUrgent :
    {n : ℕ} {k' : Kernel} {c : ℕ} {g : Ghost} (k : Kernel) (flag : Bool)
    → Inv n k' c g
    → Untouched k (some (k', flag))
    → MostUrgent k
    → LeavesUrgent (update_end (some (k', flag)))
update_end-LeavesUrgent k true v u urgent = dispatch-LeavesUrgent v
update_end-LeavesUrgent {k'} k false v u urgent = MostUrgent-same k k' u urgent

-- In a sound state in which no ready task has a lower priority than the current one, a timer
-- interrupt leads to such a state again.
pub timer_irq-LeavesUrgent :
    {n : ℕ} {k : Kernel} {c : ℕ} {g : Ghost}
    → Inv n k c g
    → MostUrgent k
    → LeavesUrgent (timer_irq k)
unfolding timer_irq dev_update
timer_irq-LeavesUrgent {n} {k} v urgent =
    let now = add32 k.timer_count 10 in
    let start : Kernel = record k { timer_count = now; irq = false } in
    let s = update_devs-Scanned now 4 (clock-Inv false now v) (omega arith) in
    subst (λ o. LeavesUrgent (update_end o)) (sym s.result)
      (update_end-LeavesUrgent start s.flag s.sound
        (subst (Untouched start) s.result (update_devs-Untouched start now 4))
        (λ t lt r. urgent t lt r))

absent_slot : (p : Place) → is_absent p ≡ true → is_some (slot p 0) ≢ true
absent_slot absent e r = cc
absent_slot running e r = cc
absent_slot ready e r = cc
absent_slot (waiting d) e r = cc

-- Task 0 does not exist.
not_zero :
    {n : ℕ} {k : Kernel} {c t : ℕ} {g : Ghost}
    → Inv n k c g
    → t < 64
    → is_runnable k.run_queue t ≡ true
    → 1 ≤ t
not_zero {k} {t} {g} v lt r = elim (Bool-cases (t == 0)) [
  | inr pos ↦ ground (arith, pos)
  | inl e ↦
      let zero_runs : is_runnable k.run_queue 0 ≡ true =
        ap (is_runnable k.run_queue) (sym ((==_iff t 0).0 e)) ∙ r in
      let listed : is_some (k.run_queue.run_list 0) ≡ true =
        sym (v.queued.valid.listed 0 (omega arith)) ∙ zero_runs in
      let placed : is_some (slot (g.place 0) 0) ≡ true =
        ap is_some (sym (v.queued.listed 0 (omega arith))) ∙ listed in
      absurd (absent_slot (g.place 0) (v.placed.present 0 (omega arith)) placed)
]

-- The first task, without a lock, is the most urgent one.
pub first-MostUrgent : {n : ℕ} {k : Kernel} {g : Ghost} → Inv n k 1 g → NoneLocked k → MostUrgent k
first-MostUrgent {n} {k} v free t lt r =
    let prio : (current k).cur_prio ≡ (k.system_tcb 1).cur_prio =
      ap (λ p. (tcb_at k.system_tcb p).cur_prio) v.cur in
    let one : (k.system_tcb 1).cur_prio ≡ 1 =
      v.ceiling ∙ ap (λ h. if h == 0 then 1 else 0) (none_held v free) in
    omega (arith, prio, one, not_zero v lt r)
