-- ===== src/Protocol/Urgent.antt =====
-- After a dispatch the current task is the most urgent one (lab4/lab4/kernel/sched/ctx_switch.c).
use fundamental_of_emb.Common.{
  ℕ, ◌≤◌, ◌<◌, ◌≡◌, refl, sym, subst, ◌∙◌, ap, true, ltb, arith, Bool-cases, inl, inr,
}
use fundamental_of_emb.RunQueue.{highest_prio, runqueue_remove}
use fundamental_of_emb.RunQueue.Inv.{is_runnable}
use fundamental_of_emb.RunQueue.Highest.{highest_prio-least}
use fundamental_of_emb.Kernel.{Kernel, Outcome, leave, stuck, current, tcb_at, in_dev_update}
use fundamental_of_emb.Dispatch.{dispatch_save, take_highest}
use fundamental_of_emb.Device.{dev_wait}
use fundamental_of_emb.Resume.{resume, resume_if}
use fundamental_of_emb.Protocol.Defs.{Ghost, Inv, Parked}
use fundamental_of_emb.Protocol.Take.{chosen, take-Inv}
use fundamental_of_emb.Protocol.Switch.{
  chosen_calm, resume-calm, dispatch_save_lem, dispatch_save_stay, save-Inv,
}
use fundamental_of_emb.Protocol.Park.{park_ready}
use fundamental_of_emb.Protocol.Wait.{dev_wait-Switches}

-- No ready task has a priority below the current one's; a lower number is more urgent.
abbrev pub MostUrgent : Kernel → Type 0
MostUrgent k = (t : ℕ) → t < 64 → is_runnable k.run_queue t ≡ true → (current k).cur_prio ≤ t

abbrev pub LeavesUrgent : Outcome → Type 0
LeavesUrgent (leave k e) = MostUrgent k
LeavesUrgent stuck = ⊥

module _ {n : ℕ} {k : Kernel} {g : Ghost} (h : Parked n k g) where
  still_runnable :
      (t : ℕ)
      → t < 64
      → is_runnable (take_highest k).run_queue t ≡ true
      → is_runnable k.run_queue t ≡ true
  unfolding take_highest runqueue_remove
  still_runnable t lt r =
      h.queued.valid.listed t lt ∙ ground (arith, (take-Inv h).queued.valid.listed t lt, r)

  taken-MostUrgent : MostUrgent (take_highest k)
  taken-MostUrgent t lt r =
      let v = take-Inv h in
      let prio : (current (take_highest k)).cur_prio
          ≡ ((take_highest k).system_tcb (chosen h)).cur_prio =
        ap (λ p. (tcb_at (take_highest k).system_tcb p).cur_prio) v.cur in
      let least = (highest_prio-least h.queued.valid t lt (still_runnable t lt r)).2 in
      ground (arith, prio, v.ceiling, least)

  switch-LeavesUrgent : LeavesUrgent (resume (take_highest k))
  switch-LeavesUrgent =
      subst LeavesUrgent (sym (resume-calm (take-Inv h) (chosen_calm h)).1) taken-MostUrgent

-- In a sound state, behind a wait of a task without a lock for one of the four devices the current
-- task is the most urgent one: no ready task has a lower priority.
pub dev_wait-LeavesUrgent :
    {n : ℕ} {k : Kernel} {c : ℕ} {g : Ghost}
    → Inv n k c g
    → (k.system_tcb c).holds_lock ≡ 0
    → c < 63
    → (d : ℕ) → d < 4
    → LeavesUrgent (dev_wait d k)
dev_wait-LeavesUrgent v free busy d hd =
    let s = dev_wait-Switches v free busy d hd in
    subst LeavesUrgent (sym s.result) (switch-LeavesUrgent s.parked)

-- The same holds behind the dispatch of the timer's interrupt handler.
pub dispatch-LeavesUrgent :
    {n : ℕ} {k : Kernel} {c : ℕ} {g : Ghost}
    → Inv n k c g
    → LeavesUrgent (resume_if in_dev_update (dispatch_save in_dev_update k))
unfolding resume_if
dispatch-LeavesUrgent {n} {k} {c} {g} v =
    let prio_now : (current k).cur_prio ≡ (k.system_tcb c).cur_prio =
      ap (λ p. (tcb_at k.system_tcb p).cur_prio) v.cur in
    elim (Bool-cases (ltb (highest_prio k.run_queue) (k.system_tcb c).cur_prio)) [
      | inl less ↦
          let free : (k.system_tcb c).holds_lock ≡ 0 = ground (arith, v.ceiling) in
          let prio : (k.system_tcb c).cur_prio ≡ c = ground (arith, v.ceiling) in
          subst (λ p. LeavesUrgent (resume_if in_dev_update p))
            (sym (dispatch_save_lem k in_dev_update v.cur prio (ground arith)))
            (switch-LeavesUrgent
              (park_ready (save-Inv c in_dev_update refl v) (ground (arith, free)) (ground arith)))
      | inr stay ↦
          subst (λ p. LeavesUrgent (resume_if in_dev_update p))
            (sym (dispatch_save_stay k in_dev_update (ground (arith, prio_now))))
            (λ t lt r. ground (arith, prio_now, stay, (highest_prio-least v.queued.valid t lt r).2))
    ]
