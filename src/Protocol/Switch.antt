-- ===== src/Protocol/Switch.antt =====
-- Control comes back to user mode after a switch (lab4/lab4/kernel/sched/ctx_switch.c).
use fundamental_of_emb.Common.{
  ℕ, ◌≤◌, ◌<◌, ◌≡◌, refl, sym, ◌∙◌, ap, ap₂, Bool, true, false, some, ltb, arith, subst,
}
use fundamental_of_emb.RunQueue.{runqueue_add, highest_prio}
use fundamental_of_emb.Kernel.{
  Kernel, Resume, nowhere, launch_task, in_mutex_lock, in_mutex_unlock, in_dev_wait, in_dev_update,
  Outcome, leave, stuck, Entry, tcb_at, current,
}
use fundamental_of_emb.Dispatch.{
  take_highest, save_context, switch_from, dispatch_save, dispatch_sleep,
}
use fundamental_of_emb.Resume.{resume, resume_at}
use fundamental_of_emb.Protocol.Defs.{Ghost, is_calm, Parked, Inv, IsSound}
use fundamental_of_emb.Protocol.Take.{
  take-Inv, chosen, remove_self, chosen_exists, chosen-lt, Placed-same,
}

-- The handler returns to user mode, in a sound state.
abbrev pub IsFine : ℕ → Outcome → Type 0
IsFine n (leave k e) = IsSound n k
IsFine n stuck = ⊥

-- The interrupt flag and the clock do not matter.
pub clock-Inv :
    {n : ℕ} {k : Kernel} {c : ℕ} {g : Ghost} (b : Bool) (now : ℕ)
    → Inv n k c g
    → Inv n (record k { irq = b; timer_count = now }) c g
clock-Inv b now v = record {
  queued = record { valid = v.queued.valid; listed = v.queued.listed; idle = v.queued.idle };
  placed = Placed-same v.placed (λ t. refl) (λ d. refl);
  cur = v.cur;
  in_use = v.in_use;
  only = v.only;
  resting = v.resting;
  native = v.native;
  ceiling = v.ceiling;
  counted = v.counted;
  mutexes = v.mutexes;
}

-- A calm context stored for any task.
pub save-Inv :
    {n : ℕ} {k : Kernel} {c : ℕ} {g : Ghost} (x : ℕ) (lr : Resume)
    → is_calm lr ≡ true
    → Inv n k c g
    → Inv n (save_context (some x) lr k) c g
save-Inv {k} {c} x lr calm v = record {
  queued = record { valid = v.queued.valid; listed = v.queued.listed; idle = v.queued.idle };
  placed = Placed-same v.placed (λ t. ground arith) (λ d. refl);
  cur = v.cur;
  in_use = v.in_use;
  only = v.only;
  resting = λ t lt e ne. let r = v.resting t lt e ne in ground arith;
  native = ground (arith, v.native);
  ceiling = ground (arith, v.ceiling);
  counted = ground (arith, v.counted);
  mutexes = v.mutexes;
}

-- A task with a calm context goes back to user mode with everything else unchanged.
pub resume-calm :
    {n : ℕ} {k : Kernel} {c : ℕ} {g : Ghost}
    → Inv n k c g
    → is_calm (current k).context.lr ≡ true
    → (e : Entry) × (resume k ≡ leave (record k { irq = true }) e)
unfolding resume
resume-calm {k} v calm = go (current k).context.lr calm
  where
    go :
        (lr : Resume)
        → is_calm lr ≡ true
        → (e : Entry) × (resume_at lr k ≡ leave (record k { irq = true }) e)
    go nowhere e = cc
    go launch_task e = (_, refl)
    go (in_mutex_lock m p) e = cc
    go in_mutex_unlock e = (_, refl)
    go in_dev_wait e = (_, refl)
    go in_dev_update e = (_, refl)

pub resume-IsFine :
    {n : ℕ} {k : Kernel} {c : ℕ} {g : Ghost}
    → Inv n k c g
    → is_calm (current k).context.lr ≡ true
    → IsFine n (resume k)
resume-IsFine {n} {k} {c} {g} v calm =
    subst (IsFine n) (sym (resume-calm v calm).1) (c, g, clock-Inv true k.timer_count v)

pub chosen_calm :
    {n : ℕ} {k : Kernel} {g : Ghost}
    → Parked n k g
    → is_calm (current (take_highest k)).context.lr ≡ true
unfolding take_highest
chosen_calm h =
    ground (arith, remove_self h, (h.resting (chosen h) (chosen-lt h) (chosen_exists h)).calm)

-- The chosen task goes on.
pub switch-IsFine :
    {n : ℕ} {k : Kernel} {g : Ghost} → Parked n k g → IsFine n (resume (take_highest k))
switch-IsFine h = resume-IsFine (take-Inv h) (chosen_calm h)

-- The dispatcher with the stores in the other order: first the context of the task left.
pub dispatch_sleep_lem :
    (k : Kernel) {c : ℕ} (lr : Resume)
    → k.cur_tcb ≡ some c
    → dispatch_sleep lr k ≡ take_highest (save_context (some c) lr k)
unfolding dispatch_sleep take_highest
dispatch_sleep_lem k lr e = ap (λ p. save_context p lr (take_highest k)) e

pub dispatch_save_stay :
    (k : Kernel) (lr : Resume)
    → (current k).cur_prio ≤ highest_prio k.run_queue
    → dispatch_save lr k ≡ (k, false)
unfolding dispatch_save
dispatch_save_stay k lr h = ground arith

pub dispatch_save_lem :
    (k : Kernel) {c : ℕ} (lr : Resume)
    → k.cur_tcb ≡ some c
    → (k.system_tcb c).cur_prio ≡ c
    → highest_prio k.run_queue < c
    → dispatch_save lr k ≡ (
      take_highest
          (record (save_context (some c) lr k) { run_queue = runqueue_add k.run_queue (some c) c }),
      true,
    )
unfolding dispatch_save take_highest
dispatch_save_lem k {c} lr e p h =
    let prio : (current k).cur_prio ≡ c = ap (λ q. (tcb_at k.system_tcb q).cur_prio) e ∙ p in
    let test : ltb (highest_prio k.run_queue) (current k).cur_prio ≡ true = ground arith in
    rw test (ap₂ (λ q i. (switch_from q i lr k, true)) e prio)
