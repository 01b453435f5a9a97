-- ===== src/Protocol/Await.antt =====
-- What `event_wait` promises its caller (lab4/lab4/kernel/syscall/proc.c, lab4/lab4/kernel/device.c).
use fundamental_of_emb.Common.{
  ℕ, ◌<◌, ◌≡◌, ◌≢◌, ◌⊎◌, sym, subst, true, false, some, ltb, ◌==◌, ==_iff, arith, Bool-cases, inl,
  inr, ℤ,
}
use fundamental_of_emb.Kernel.{Kernel, Outcome, leave, Entry}
use fundamental_of_emb.Device.{event_wait}
use fundamental_of_emb.Protocol.Defs.{Ghost, Inv}
use fundamental_of_emb.Protocol.Locks.{Ends, mutex_lock_lem, mutex_unlock_lem}
use fundamental_of_emb.Protocol.Reach.{
  Event, lock, unlock, create, wait, tick, step, Allowed, wait_test, mutex_create-Inv,
}
use fundamental_of_emb.Protocol.Asleep.{
  Sleeps, LeavesAsleep, not_current, event_wait_lem, caller-LeavesAsleep, is_due,
  timer_irq-LeavesAsleep,
}

-- An event that is no interrupt at which the device comes to its match.
abbrev pub IsBefore : ℕ → Event → Kernel → Type 0
IsBefore d tick k = is_due k d ≡ false
IsBefore d (lock m) k = Unit
IsBefore d (unlock m) k = Unit
IsBefore d create k = Unit
IsBefore d (wait e) k = Unit

-- The states that such events lead to, calls of any task among them.
pub data Before (d : ℕ) (start : Kernel) : Kernel → Type 0 where
  here : Before d start start
  next :
      {k k' : Kernel} {r : Entry}
      → Before d start k
      → (e : Event) → Allowed e k
      → IsBefore d e k
      → step e k ≡ leave k' r
      → Before d start k'

Ends-LeavesAsleep :
    {n : ℕ} {k : Kernel} {t d : ℕ} {r : ℤ} {o : Outcome}
    → (s : Sleeps n k t d) → Ends n k s.task s.ghost r o
    → LeavesAsleep n t d o
Ends-LeavesAsleep {n} {t} {d} s e =
    subst (LeavesAsleep n t d) (sym e.result)
      (record { task = s.task; ghost = s.ghost; sound = e.sound; below = s.below; place = s.place })

-- A wait that is refused changes nothing.
refused_lem :
    {n : ℕ} {k : Kernel} {t d : ℕ}
    → (s : Sleeps n k t d) → (e : ℕ)
    → (ltb 4 e ≡ true) ⊎ (((k.system_tcb s.task).holds_lock == 0) ≡ false)
    → LeavesAsleep n t d (event_wait e k)
unfolding event_wait
refused_lem s e (inl bad) = rw bad s
refused_lem s e (inr held) = elim (Bool-cases (ltb 4 e)) [
  | inl bad ↦ rw bad s
  | inr good ↦ rw (good, wait_test s.sound, held) s
]

wait-LeavesAsleep :
    {n : ℕ} {k : Kernel} {t d : ℕ}
    → (s : Sleeps n k t d) → s.task < 63
    → (e : ℕ) → e ≢ 4
    → LeavesAsleep n t d (event_wait e k)
wait-LeavesAsleep {k} {t} {d} s busy e ne =
    elim (Bool-cases ((k.system_tcb s.task).holds_lock == 0)) [
      | inr held ↦ refused_lem s e (inr held)
      | inl free ↦ elim (Bool-cases (ltb 4 e)) [
        | inl bad ↦ refused_lem s e (inl bad)
        | inr good ↦
            event_wait_lem s.sound ((==_iff _ _).0 free) busy e (ground arith) t d s.below
              (λ x. x.still t d s.below s.place)
      ]
    ]

step-LeavesAsleep :
    {n : ℕ} {k : Kernel} {t d : ℕ}
    → Sleeps n k t d
    → (e : Event) → Allowed e k
    → IsBefore d e k
    → LeavesAsleep n t d (step e k)
unfolding step
step-LeavesAsleep s (lock m) a b = Ends-LeavesAsleep s (mutex_lock_lem s.sound m)
step-LeavesAsleep s (unlock m) a b = Ends-LeavesAsleep s (mutex_unlock_lem s.sound m)
step-LeavesAsleep s create a b = record {
  task = s.task;
  ghost = s.ghost;
  sound = mutex_create-Inv s.sound;
  below = s.below;
  place = s.place;
}
step-LeavesAsleep s (wait e) a b =
    let v = s.sound in wait-LeavesAsleep s (ground (arith, v.in_use, v.cur, a.0)) e a.1
step-LeavesAsleep s tick a b = timer_irq-LeavesAsleep s b

Before-Sleeps :
    {n : ℕ} {t d : ℕ} {start k : Kernel} → Sleeps n start t d → Before d start k → Sleeps n k t d
Before-Sleeps s here = s
Before-Sleeps {n} {t} {d} s (next l e a b eq) =
    subst (LeavesAsleep n t d) eq (step-LeavesAsleep (Before-Sleeps s l) e a b)

-- In a sound state, a task other than the idle one that holds no lock calls `event_wait` for one of
-- the four devices: whatever calls of other tasks and interrupts follow, up to the first interrupt
-- at which the clock has come to the device's next match, the caller is not current.
pub waits_for_match :
    {n : ℕ} {k k1 k2 : Kernel} {c : ℕ} {g : Ghost} {r : Entry}
    → Inv n k c g
    → (k.system_tcb c).holds_lock ≡ 0
    → c < 63
    → (d : ℕ) → d < 4
    → event_wait d k ≡ leave k1 r
    → Before d k1 k2
    → k2.cur_tcb ≢ some c
waits_for_match {n} {c} v free busy d lt eq l cur =
    let s =
      Before-Sleeps (subst (LeavesAsleep n c d) eq (caller-LeavesAsleep v free busy d lt)) l in
    let self : (c == c) ≡ true = ground arith in absurd (cc (not_current s cur, self))
