-- ===== src/Protocol/Reach.antt =====
-- The running system as a step relation: system calls of the current task and timer interrupts
-- (lab4/lab4/kernel/arm/C_SWI_handler.c, lab4/lab4/kernel/arm/C_IRQ_handler.c).
use fundamental_of_emb.Common.{
  ℕ, ◌≤◌, ◌<◌, ◌≡◌, ◌≢◌, refl, sym, ◌∙◌, ap, true, false, not, Option, none, some, List, ltb, ◌==◌,
  if◌then◌else◌, arith, subst, Bool-cases, inl, inr, ==_iff, ◌&&◌, is_negative, ℤ,
}
use fundamental_of_emb.RunQueue.{idle_prio}
use fundamental_of_emb.Kernel.{
  Kernel, Outcome, leave, Entry, returned, current, tcb_at, os_num_mutex,
}
use fundamental_of_emb.Mutex.{mutex_create, create_from, create_at, mutex_lock, mutex_unlock}
use fundamental_of_emb.Device.{event_wait, timer_irq}
use fundamental_of_emb.Protocol.Defs.{
  Place, absent, running, ready, waiting, Ghost, count, contains, Chain, Inv, IsSound,
}
use fundamental_of_emb.Protocol.Lists.{count-ext, count-le}
use fundamental_of_emb.Protocol.Take.{Placed-same}
use fundamental_of_emb.Protocol.Switch.{IsFine, clock-Inv}
use fundamental_of_emb.Protocol.Wait.{dev_wait-IsFine}
use fundamental_of_emb.Protocol.Update.{timer_irq-IsFine}
use fundamental_of_emb.Protocol.Locks.{Ends, mutex_lock_lem, mutex_unlock_lem}

-- What happens to the machine. A task other than the idle one makes the calls; the device number 4,
-- which the kernel does not refuse, is left out.
pub data Event : Type 0 where
  lock : ℕ → Event
  unlock : ℕ → Event
  create : Event
  wait : ℕ → Event
  tick : Event

cur_holds :
    {n : ℕ} {k : Kernel} {c : ℕ} {g : Ghost}
    → Inv n k c g
    → ((current k).holds_lock ≡ (k.system_tcb c).holds_lock) × ((k.system_tcb c).holds_lock ≤ 32)
cur_holds {k} v = (
  ap (λ p. (tcb_at k.system_tcb p).holds_lock) v.cur,
  omega (arith, v.counted, count-le 32 (λ m. (k.gt_mutex m).locked)),
)

pub wait_test :
    {n : ℕ} {k : Kernel} {c : ℕ} {g : Ghost}
    → Inv n k c g
    → (not ((current k).holds_lock == 0) && not (is_negative (current k).holds_lock))
      ≡ not ((k.system_tcb c).holds_lock == 0)
wait_test v = ground (arith, cur_holds v)

-- `event_wait(dev)` in a sound state: refused, or a wait that comes back soundly.
pub event_wait-IsFine :
    {n : ℕ} {k : Kernel} {c : ℕ} {g : Ghost}
    → Inv n k c g
    → c < 63
    → (d : ℕ) → d ≢ 4
    → IsFine n (event_wait d k)
unfolding event_wait
event_wait-IsFine {k} {c} {g} v busy d ne = elim (Bool-cases (ltb 4 d)) [
  | inl bad ↦ rw bad (c, g, v)
  | inr good ↦
      rw (good, wait_test v)
        (elim (Bool-cases ((k.system_tcb c).holds_lock == 0)) [
          | inl free ↦ rw free (dev_wait-IsFine v ((==_iff _ _).0 free) busy d (ground arith))
          | inr held ↦ rw held (c, g, v)
        ])
]

abbrev pub create_outcome : Kernel × ℤ → Outcome
create_outcome (k, r) = leave k (returned r)

create_at-Inv :
    {n : ℕ} {k : Kernel} {c : ℕ} {g : Ghost} (o : Option ℕ)
    → Inv n k c g
    → Inv n (create_at k o).0 c g
create_at-Inv {k} none v = clock-Inv true k.timer_count v
create_at-Inv (some i) v = record {
  queued = record { valid = v.queued.valid; listed = v.queued.listed; idle = v.queued.idle };
  placed = Placed-same v.placed (λ t. refl) (λ d. refl);
  cur = v.cur;
  in_use = v.in_use;
  only = v.only;
  resting = v.resting;
  native = v.native;
  ceiling = v.ceiling;
  counted = v.counted ∙ count-ext 32 _ _ (λ m l. ground arith);
  mutexes = λ m lt.
      let f = v.mutexes m lt in
      record {
        holder = ground (arith, f.holder);
        no_sleepers = ground (arith, f.no_sleepers);
        allocated = λ q. ground (arith, f.allocated);
      };
}

-- `mutex_create` in a sound state, with every task in its place.
pub mutex_create-Inv :
    {n : ℕ} {k : Kernel} {c : ℕ} {g : Ghost} → Inv n k c g → Inv n (mutex_create k).0 c g
unfolding mutex_create
mutex_create-Inv {k} v =
    create_at-Inv (create_from os_num_mutex 0 k.gt_mutex) (clock-Inv false k.timer_count v)

pub mutex_create-IsFine :
    {n : ℕ} {k : Kernel} {c : ℕ} {g : Ghost}
    → Inv n k c g
    → IsFine n (create_outcome (mutex_create k))
mutex_create-IsFine {c} {g} v = (c, g, mutex_create-Inv v)

unfoldable pub step : Event → Kernel → Outcome
step (lock m) k = mutex_lock m k
step (unlock m) k = mutex_unlock m k
step create k = create_outcome (mutex_create k)
step (wait d) k = event_wait d k
step tick k = timer_irq k

-- Calls come from a task, and `event_wait` gets no device number 4.
abbrev pub Allowed : Event → Kernel → Type 0
Allowed (lock m) k = k.cur_tcb ≢ some idle_prio
Allowed (unlock m) k = k.cur_tcb ≢ some idle_prio
Allowed create k = k.cur_tcb ≢ some idle_prio
Allowed (wait d) k = (k.cur_tcb ≢ some idle_prio) × (d ≢ 4)
Allowed tick k = Unit

pub Ends-IsFine :
    {n : ℕ} {k : Kernel} {c : ℕ} {g : Ghost} {r : ℤ} {o : Outcome} → Ends n k c g r o → IsFine n o
Ends-IsFine {n} {c} {g} e = subst (IsFine n) (sym e.result) (c, g, e.sound)

-- In a sound state every event is handled to its end: no loop runs out of fuel, no switch goes to
-- a task that is not there, and the state that user mode comes back to is sound again.
pub step-IsFine : {n : ℕ} {k : Kernel} (e : Event) → IsSound n k → Allowed e k → IsFine n (step e k)
unfolding step
step-IsFine (lock m) s a = Ends-IsFine (mutex_lock_lem s.2 m)
step-IsFine (unlock m) s a = Ends-IsFine (mutex_unlock_lem s.2 m)
step-IsFine create s a = mutex_create-IsFine s.2
step-IsFine (wait d) s a =
    let v = s.2 in event_wait-IsFine v (ground (arith, v.in_use, v.cur, a.0)) d a.1
step-IsFine tick s a = timer_irq-IsFine s.2

-- The states that a sequence of events leads to.
pub data Reach (start : Kernel) : Kernel → Type 0 where
  here : Reach start start
  next :
      {k k' : Kernel} {r : Entry}
      → Reach start k
      → (e : Event) → Allowed e k
      → step e k ≡ leave k' r
      → Reach start k'

pub Reach-IsSound : {n : ℕ} {start k : Kernel} → IsSound n start → Reach start k → IsSound n k
Reach-IsSound s here = s
Reach-IsSound {n} s (next r e a eq) = subst (IsFine n) eq (step-IsFine e (Reach-IsSound s r) a)

-- A mutex without sleepers is free or held by the current task; the number of locked mutexes is
-- the current task's `holds_lock`, and its priority is 0 or its own, as the count says.
pub record LocksFine (k : Kernel) (m : ℕ) : Type 0 where
  pub no_sleepers : (k.gt_mutex m).sleep_queue ≡ none
  pub holder : (k.gt_mutex m).holding_tcb ≡ (if (k.gt_mutex m).locked then k.cur_tcb else none)
  pub counted : (current k).holds_lock ≡ count 32 (λ i. (k.gt_mutex i).locked)
  pub ceiling :
      (current k).cur_prio ≡ (if (current k).holds_lock == 0 then (current k).native_prio else 0)

current_block : {n : ℕ} {k : Kernel} {c : ℕ} {g : Ghost} → Inv n k c g → current k ≡ k.system_tcb c
current_block {k} v = ap (tcb_at k.system_tcb) v.cur

Inv-LocksFine :
    {n : ℕ} {k : Kernel} {c : ℕ} {g : Ghost} → Inv n k c g → (m : ℕ) → m < 32 → LocksFine k m
Inv-LocksFine {k} {c} v m lt = record {
  no_sleepers = (v.mutexes m lt).no_sleepers;
  holder =
      (v.mutexes m lt).holder ∙ ap (λ p. if (k.gt_mutex m).locked then p else none) (sym v.cur);
  counted = ap (λ t. t.holds_lock) (current_block v) ∙ v.counted;
  ceiling =
      ap (λ t. t.cur_prio) (current_block v)
      ∙ v.ceiling
      ∙ ap (λ p. if (k.system_tcb c).holds_lock == 0 then p else 0) (sym v.native)
      ∙ ap (λ t. if t.holds_lock == 0 then t.native_prio else 0) (sym (current_block v));
}

-- In every state reached from a sound one no mutex has sleepers, and a locked mutex is held by the
-- current task; the current task counts the locked mutexes, and runs at the ceiling 0 if the count
-- is not 0, and at its own priority otherwise.
pub locks_are_current :
    {n : ℕ} {start k : Kernel} → IsSound n start → Reach start k → (m : ℕ) → m < 32 → LocksFine k m
locks_are_current s r m lt = let t = Reach-IsSound s r in Inv-LocksFine t.2 m lt

-- Where task `t` is found: current, in the run queue at its own priority, or in a sleep queue.
pub data Found (k : Kernel) (t : ℕ) : Type 0 where
  current_task : k.cur_tcb ≡ some t → Found k t
  in_run_queue : k.run_queue.run_list t ≡ some t → Found k t
  in_sleep_queue :
      (d : ℕ) (xs : List ℕ)
      → d < 4
      → Chain k.system_tcb (k.devices d).sleep_queue xs
      → contains t xs ≡ true
      → Found k t

place-Found :
    {n : ℕ} {k : Kernel} {c : ℕ} {g : Ghost}
    → Inv n k c g
    → (t : ℕ) → 0 < t
    → t ≤ n
    → t < 63
    → (p : Place) → g.place t ≡ p
    → Found k t
place-Found v t pos_t le lt absent e = absurd (ground (arith, v.placed.present t lt))
place-Found v t pos_t le lt running e = current_task (v.cur ∙ ground (arith, v.only t lt))
place-Found v t pos_t le lt ready e = in_run_queue (v.queued.listed t lt ∙ rw e)
place-Found {g} v t pos_t le lt (waiting d) e =
    let at = v.placed.complete t d lt e in
    in_sleep_queue d (g.queue d) at.0 (v.placed.chained d at.0) at.1

-- No task is lost: in every state reached from a sound one, each of the tasks 1 to `n` is found.
pub no_task_lost :
    {n : ℕ} {start k : Kernel}
    → IsSound n start
    → Reach start k
    → (t : ℕ) → 0 < t
    → t ≤ n
    → t < 63
    → Found k t
no_task_lost s r t pos_t le lt = let v = (Reach-IsSound s r).2 in place-Found v t pos_t le lt _ refl
