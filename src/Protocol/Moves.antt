-- ===== src/Protocol/Moves.antt =====
-- Which task user mode comes back to, and with what (lab4/lab4/kernel/sched/ctx_switch.c,
-- lab4/lab4/kernel/device.c).
use fundamental_of_emb.Common.{
  ℕ, ◌<◌, ◌≡◌, refl, sym, ◌∙◌, ap, Bool, true, false, some, pos, ltb, ◌==◌, arith, subst,
  Bool-cases, inl, inr, add32,
}
use fundamental_of_emb.RunQueue.{highest_prio}
use fundamental_of_emb.Kernel.{
  Kernel, Outcome, leave, Entry, launched, returned, interrupted, Resume, nowhere, launch_task,
  in_mutex_lock, in_mutex_unlock, in_dev_wait, in_dev_update, current, tcb_at,
}
use fundamental_of_emb.Dispatch.{take_highest, dispatch_save, save_context}
use fundamental_of_emb.Resume.{resume, resume_at, resume_if}
use fundamental_of_emb.Device.{event_wait, dev_update, update_end, timer_irq}
use fundamental_of_emb.Protocol.Defs.{Ghost, Inv, Parked, is_calm}
use fundamental_of_emb.Protocol.Take.{take-Inv, chosen, next}
use fundamental_of_emb.Protocol.Switch.{
  clock-Inv, save-Inv, chosen_calm, dispatch_save_lem, dispatch_save_stay,
}
use fundamental_of_emb.Protocol.Park.{park_ready}
use fundamental_of_emb.Protocol.Wait.{dev_wait-Switches}
use fundamental_of_emb.Protocol.Update.{update_devs-Scanned}

-- The place where a task goes on.
abbrev pub point : Kernel → ℕ → Resume
point k t = (k.system_tcb t).context.lr

-- How control comes back to user mode at a place.
abbrev pub entry_at : Resume → Entry
entry_at nowhere = launched
entry_at launch_task = launched
entry_at (in_mutex_lock m p) = returned (pos 0)
entry_at in_mutex_unlock = returned (pos 0)
entry_at in_dev_wait = returned (pos 0)
entry_at in_dev_update = interrupted

-- Task `c` is left at `lr`, and another one goes on where it was left.
pub record Moves (n : ℕ) (k : Kernel) (c : ℕ) (lr : Resume) (o : Outcome) : Type 0 where
  pub after : Kernel
  pub to : ℕ
  pub ghost : Ghost
  pub result : o ≡ leave after (entry_at (point after to))
  pub sound : Inv n after to ghost
  pub calm : is_calm (point after to) ≡ true
  pub pool : after.gt_mutex ≡ k.gt_mutex
  pub caller : point after c ≡ lr
  pub others : (t : ℕ) → (c == t) ≡ false → point after t ≡ point k t

-- The current task goes on, and every other one is where it was.
pub record Stays (n : ℕ) (k : Kernel) (c : ℕ) (o : Outcome) : Type 0 where
  pub after : Kernel
  pub ghost : Ghost
  pub result : o ≡ leave after interrupted
  pub sound : Inv n after c ghost
  pub pool : after.gt_mutex ≡ k.gt_mutex
  pub others : (t : ℕ) → point after t ≡ point k t

-- A task that holds a lock is not left.
pub data Ticks (n : ℕ) (k : Kernel) (c : ℕ) (o : Outcome) : Type 0 where
  stays : Stays n k c o → Ticks n k c o
  moves : (k.system_tcb c).holds_lock ≡ 0 → Moves n k c in_dev_update o → Ticks n k c o

resume_at_lem :
    (lr : Resume) (k : Kernel)
    → is_calm lr ≡ true
    → resume_at lr k ≡ leave (record k { irq = true }) (entry_at lr)
unfolding resume_at
resume_at_lem nowhere k e = cc
resume_at_lem launch_task k e = refl
resume_at_lem (in_mutex_lock m p) k e = cc
resume_at_lem in_mutex_unlock k e = refl
resume_at_lem in_dev_wait k e = refl
resume_at_lem in_dev_update k e = refl

pub resume_lem :
    {n : ℕ} {k : Kernel} {c : ℕ} {g : Ghost}
    → Inv n k c g
    → is_calm (current k).context.lr ≡ true
    → resume k ≡ leave (record k { irq = true }) (entry_at (point k c))
unfolding resume
resume_lem {k} v calm =
    resume_at_lem _ k calm
    ∙ ap (λ p. leave (record k { irq = true }) (entry_at (tcb_at k.system_tcb p).context.lr)) v.cur

-- The switch from a state `before` in which every task is parked, and `c` at `lr`.
switch-Moves :
    {n : ℕ} {k before : Kernel} {c : ℕ} {g : Ghost} {lr : Resume} {o : Outcome}
    → Parked n before g
    → o ≡ resume (take_highest before)
    → before.gt_mutex ≡ k.gt_mutex
    → point before c ≡ lr
    → ((t : ℕ) → (c == t) ≡ false → point before t ≡ point k t)
    → Moves n k c lr o
unfolding take_highest
switch-Moves {k} {before} h e pool at others =
    let v = take-Inv h in
    let to_calm : is_calm (point (take_highest before) (chosen h)) ≡ true =
      ap (λ p. is_calm (tcb_at (take_highest before).system_tcb p).context.lr) (sym v.cur)
      ∙ chosen_calm h in
    record {
      after = record (take_highest before) { irq = true };
      to = chosen h;
      ghost = next h;
      result = e ∙ resume_lem v (chosen_calm h);
      sound = clock-Inv true before.timer_count v;
      calm = to_calm;
      pool = pool;
      caller = at;
      others = others;
    }

-- `event_wait` on one of the four devices, by a task without a lock.
pub event_wait-Moves :
    {n : ℕ} {k : Kernel} {c : ℕ} {g : Ghost}
    → Inv n k c g
    → (k.system_tcb c).holds_lock ≡ 0
    → c < 63
    → (d : ℕ) → d < 4
    → Moves n k c in_dev_wait (event_wait d k)
unfolding event_wait
event_wait-Moves {n} {k} {c} v free busy d lt =
    let s = dev_wait-Switches v free busy d lt in
    let known : ltb 4 d ≡ false = ground arith in
    let none_held : (current k).holds_lock ≡ 0 =
      ap (λ p. (tcb_at k.system_tcb p).holds_lock) v.cur ∙ free in
    rw (known, none_held) (switch-Moves s.parked s.result s.pool s.caller s.others)

saved_other :
    (k : Kernel) (c t : ℕ)
    → (c == t) ≡ false
    → ((save_context (some c) in_dev_update k).system_tcb t).context.lr
      ≡ (k.system_tcb t).context.lr
saved_other k c t ne = ground arith

-- `dispatch_save` in the interrupt handler.
dispatch-Ticks :
    {n : ℕ} {k : Kernel} {c : ℕ} {g : Ghost}
    → Inv n k c g
    → Ticks n k c (resume_if in_dev_update (dispatch_save in_dev_update k))
unfolding resume_if resume_at
dispatch-Ticks {n} {k} {c} {g} v =
    elim (Bool-cases (ltb (highest_prio k.run_queue) (k.system_tcb c).cur_prio)) [
      | inl less ↦
          let free : (k.system_tcb c).holds_lock ≡ 0 = ground (arith, v.ceiling) in
          let prio : (k.system_tcb c).cur_prio ≡ c = ground (arith, v.ceiling) in
          moves free (
            switch-Moves
              (park_ready (save-Inv c in_dev_update refl v) (ground (arith, free)) (ground arith))
              (ap (resume_if in_dev_update)
                (dispatch_save_lem k in_dev_update v.cur prio (ground arith)))
              refl (ground arith) (saved_other k c))
      | inr stay ↦
          let prio : (current k).cur_prio ≡ (k.system_tcb c).cur_prio =
            ap (λ q. (tcb_at k.system_tcb q).cur_prio) v.cur in
          stays (record {
            after = record k { irq = true };
            ghost = g;
            result =
                ap (resume_if in_dev_update)
                  (dispatch_save_stay k in_dev_update (ground (arith, prio)));
            sound = clock-Inv true k.timer_count v;
            pool = refl;
            others = λ t. refl;
          })
    ]

update_end-Ticks :
    {n : ℕ} {k : Kernel} {c : ℕ} {g : Ghost} (flag : Bool)
    → Inv n k c g
    → Ticks n k c (update_end (some (k, flag)))
update_end-Ticks true v = dispatch-Ticks v
update_end-Ticks {k} {c} {g} false v = stays (record {
  after = record k { irq = true };
  ghost = g;
  result = refl;
  sound = clock-Inv true k.timer_count v;
  pool = refl;
  others = λ t. refl;
})

-- The same mutexes and the same places before.
Ticks-same :
    {n : ℕ} {k k' : Kernel} {c : ℕ} {o : Outcome}
    → k'.gt_mutex ≡ k.gt_mutex
    → (k'.system_tcb c).holds_lock ≡ (k.system_tcb c).holds_lock
    → ((t : ℕ) → point k' t ≡ point k t)
    → Ticks n k' c o
    → Ticks n k c o
Ticks-same pool holds same (stays s) = stays (record {
  after = s.after;
  ghost = s.ghost;
  result = s.result;
  sound = s.sound;
  pool = s.pool ∙ pool;
  others = λ t. s.others t ∙ same t;
})
Ticks-same pool holds same (moves free m) = moves (sym holds ∙ free) (record {
  after = m.after;
  to = m.to;
  ghost = m.ghost;
  result = m.result;
  sound = m.sound;
  calm = m.calm;
  pool = m.pool ∙ pool;
  caller = m.caller;
  others = λ t ne. m.others t ne ∙ same t;
})

-- A timer interrupt goes back to the current task, or leaves it in the handler and goes on in
-- another one; no mutex changes.
pub timer_irq-Ticks :
    {n : ℕ} {k : Kernel} {c : ℕ} {g : Ghost} → Inv n k c g → Ticks n k c (timer_irq k)
unfolding timer_irq dev_update
timer_irq-Ticks {n} {k} {c} v =
    let now = add32 k.timer_count 10 in
    let s = update_devs-Scanned now 4 (clock-Inv false now v) (omega arith) in
    subst (λ o. Ticks n k c (update_end o)) (sym s.result)
      (Ticks-same s.pool s.holds s.points (update_end-Ticks s.flag s.sound))
