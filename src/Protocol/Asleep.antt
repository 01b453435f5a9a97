-- ===== src/Protocol/Asleep.antt =====
-- A task that waits for a device waits until the device's next match (lab4/lab4/kernel/device.c).
use fundamental_of_emb.Common.{
  ℕ, ◌<◌, ◌≡◌, refl, sym, subst, ◌∙◌, ap, Bool, true, false, none, some, ltb, leb, ◌==◌, ==_iff,
  arith, Bool-cases, inl, inr, add32,
}
use fundamental_of_emb.RunQueue.{Ptr, highest_prio}
use fundamental_of_emb.Kernel.{Kernel, Outcome, leave, stuck, in_dev_update, current, tcb_at}
use fundamental_of_emb.Dispatch.{dispatch_save, take_highest}
use fundamental_of_emb.Resume.{resume, resume_if}
use fundamental_of_emb.Device.{dev_wait, event_wait, dev_update, timer_irq, update_end}
use fundamental_of_emb.Protocol.Defs.{Ghost, Inv, Parked, waiting}
use fundamental_of_emb.Protocol.Section.{NoneLocked, none_held}
use fundamental_of_emb.Protocol.Switch.{
  chosen_calm, clock-Inv, resume-calm, dispatch_save_lem, dispatch_save_stay, save-Inv,
}
use fundamental_of_emb.Protocol.Park.{park_ready}
use fundamental_of_emb.Protocol.Take.{chosen, chosen_ready, next, take-Inv}
use fundamental_of_emb.Protocol.Update.{update_devs-Scanned}
use fundamental_of_emb.Protocol.Wait.{Switches, dev_wait-Switches}

-- In a sound state, task `t` is in the sleep queue of device `d`.
pub record Sleeps (n : ℕ) (k : Kernel) (t d : ℕ) : Type 0 where
  pub task : ℕ
  pub ghost : Ghost
  pub sound : Inv n k task ghost
  pub below : t < 63
  pub place : ghost.place t ≡ waiting d

abbrev pub LeavesAsleep : ℕ → ℕ → ℕ → Outcome → Type 0
LeavesAsleep n t d (leave k e) = Sleeps n k t d
LeavesAsleep n t d stuck = ⊥

abbrev number : Ptr → ℕ
number none = 0
number (some c) = c

pub same_task :
    {n : ℕ} {k : Kernel} {c c' : ℕ} {g : Ghost} → Inv n k c g → k.cur_tcb ≡ some c' → c ≡ c'
same_task v e = ap number (sym v.cur ∙ e)

-- Back in user mode.
pub clock_lem :
    {n : ℕ} {k : Kernel} {t d : ℕ} → Sleeps n k t d → Sleeps n (record k { irq = true }) t d
clock_lem {k} s = record {
  task = s.task;
  ghost = s.ghost;
  sound = clock-Inv true k.timer_count s.sound;
  below = s.below;
  place = s.place;
}

-- It is not the current one.
pub not_current :
    {n : ℕ} {k : Kernel} {c t d : ℕ} → Sleeps n k t d → k.cur_tcb ≡ some c → (c == t) ≡ false
not_current {c} {t} s e =
    ap (λ x. x == t) (sym (same_task s.sound e)) ∙ ground (arith, s.sound.only t s.below, s.place)

-- A switch to the most urgent task leaves the waiting ones.
switch-LeavesAsleep :
    {n : ℕ} {k : Kernel} {g : Ghost} {t d : ℕ}
    → Parked n k g
    → t < 63
    → g.place t ≡ waiting d
    → LeavesAsleep n t d (resume (take_highest k))
unfolding take_highest
switch-LeavesAsleep {n} {k} {g} {t} {d} h lt w =
    let v = take-Inv h in
    subst (LeavesAsleep n t d) (sym (resume-calm v (chosen_calm h)).1) (record {
      task = chosen h;
      ghost = next h;
      sound = clock-Inv true k.timer_count v;
      below = lt;
      place = elim (Bool-cases (chosen h == t)) [
        | inl e ↦
            let same : chosen h ≡ t = (==_iff (chosen h) t).0 e in
            absurd (ground (arith, chosen_ready h (omega (arith, same, lt)), same, w))
        | inr ne ↦ ground (arith, ne, w)
      ];
    })

-- A wait leaves the caller in the sleep queue of its device, and the tasks that wait already.
module _ {n : ℕ} {k : Kernel} {c : ℕ} {g : Ghost} (v : Inv n k c g)
    (free : (k.system_tcb c).holds_lock ≡ 0) (busy : c < 63) (d : ℕ) (lt : d < 4) where
  pub event_wait_lem :
      (t e : ℕ)
      → t < 63
      → ((s : Switches n k c g d (dev_wait d k)) → s.ghost.place t ≡ waiting e)
      → LeavesAsleep n t e (event_wait d k)
  unfolding event_wait
  event_wait_lem t e below w =
      let s = dev_wait-Switches v free busy d lt in
      let known : ltb 4 d ≡ false = ground arith in
      let none_held : (current k).holds_lock ≡ 0 =
        ap (λ p. (tcb_at k.system_tcb p).holds_lock) v.cur ∙ free in
      rw (known, none_held)
        (subst (LeavesAsleep n t e) (sym s.result) (switch-LeavesAsleep s.parked below (w s)))

  pub caller-LeavesAsleep : LeavesAsleep n c d (event_wait d k)
  caller-LeavesAsleep = event_wait_lem c d busy (λ s. s.waits)

pub event_wait-LeavesAsleep :
    {n : ℕ} {k : Kernel} {c t e : ℕ}
    → Sleeps n k t e
    → k.cur_tcb ≡ some c
    → NoneLocked k
    → c < 63
    → (d : ℕ) → d < 4
    → LeavesAsleep n t e (event_wait d k)
event_wait-LeavesAsleep {t} {e} s cur free busy d lt =
    event_wait_lem s.sound (none_held s.sound free) (omega (arith, busy, same_task s.sound cur)) d
      lt t e s.below (λ x. x.still t e s.below s.place)

dispatch-LeavesAsleep :
    {n : ℕ} {k : Kernel} {t d : ℕ}
    → Sleeps n k t d
    → LeavesAsleep n t d (resume_if in_dev_update (dispatch_save in_dev_update k))
unfolding resume_if
dispatch-LeavesAsleep {n} {k} {t} {d} s =
    let c = s.task in
    let v = s.sound in
    let prio_now : (current k).cur_prio ≡ (k.system_tcb c).cur_prio =
      ap (λ p. (tcb_at k.system_tcb p).cur_prio) v.cur in
    let other : (c == t) ≡ false = ground (arith, v.only t s.below, s.place) in
    elim (Bool-cases (ltb (highest_prio k.run_queue) (k.system_tcb c).cur_prio)) [
      | inl less ↦
          let free : (k.system_tcb c).holds_lock ≡ 0 = ground (arith, v.ceiling) in
          let prio : (k.system_tcb c).cur_prio ≡ c = ground (arith, v.ceiling) in
          subst (λ p. LeavesAsleep n t d (resume_if in_dev_update p))
            (sym (dispatch_save_lem k in_dev_update v.cur prio (ground arith)))
            (switch-LeavesAsleep
              (park_ready (save-Inv c in_dev_update refl v) (ground (arith, free)) (ground arith))
              s.below (rw other s.place))
      | inr stay ↦
          subst (λ p. LeavesAsleep n t d (resume_if in_dev_update p))
            (sym (dispatch_save_stay k in_dev_update (ground (arith, prio_now)))) (clock_lem s)
    ]

update_end-LeavesAsleep :
    {n : ℕ} {k : Kernel} {t d : ℕ} (flag : Bool)
    → Sleeps n k t d
    → LeavesAsleep n t d (update_end (some (k, flag)))
update_end-LeavesAsleep true s = dispatch-LeavesAsleep s
update_end-LeavesAsleep false s = clock_lem s

-- The clock reaches the next match of a device.
abbrev pub is_due : Kernel → ℕ → Bool
is_due k d = leb (k.devices d).next_match (add32 k.timer_count 10)

-- A timer interrupt leaves the tasks that wait for a device which is not due.
pub timer_irq-LeavesAsleep :
    {n : ℕ} {k : Kernel} {t d : ℕ}
    → Sleeps n k t d
    → is_due k d ≡ false
    → LeavesAsleep n t d (timer_irq k)
unfolding timer_irq dev_update
timer_irq-LeavesAsleep {n} {k} {t} {d} w early =
    let now = add32 k.timer_count 10 in
    let s = update_devs-Scanned now 4 (clock-Inv false now w.sound) (omega arith) in
    subst (λ o. LeavesAsleep n t d (update_end o)) (sym s.result)
      (update_end-LeavesAsleep s.flag (record {
        task = w.task;
        ghost = s.ghost;
        sound = s.sound;
        below = w.below;
        place = s.still t d early w.place;
      }))
