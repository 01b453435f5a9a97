-- ===== src/Protocol/Parks.antt =====
-- `dev_wait` of lab4/lab4/kernel/device.c puts the calling task to sleep.
use fundamental_of_emb.Common.{
  ℕ, ◌<◌, ◌≡◌, subst, ◌∙◌, true, false, List, [], ◌∷◌, ◌++◌, ◌==◌, ==_iff, arith, Bool-cases, inl,
  inr,
}
use fundamental_of_emb.Kernel.{Kernel, Outcome, leave, in_dev_wait}
use fundamental_of_emb.Device.{dev_wait}
use fundamental_of_emb.Protocol.Defs.{Ghost, Chain, Inv, waiting}
use fundamental_of_emb.Protocol.Take.{chosen, chosen_ready, next, take-Inv}
use fundamental_of_emb.Protocol.Switch.{chosen_calm, clock-Inv}
use fundamental_of_emb.Dispatch.{take_highest}
use fundamental_of_emb.Protocol.Moves.{entry_at, point, resume_lem}
use fundamental_of_emb.Protocol.Wait.{dev_wait-Switches}

-- Task `c` sleeps at the end of the queue of device `d`, inside `dev_wait`, and another task goes on
-- where it was left.
pub record Parks (n : ℕ) (k : Kernel) (c : ℕ) (queue : List ℕ) (d : ℕ) (o : Outcome) : Type 0 where
  pub after : Kernel
  pub to : ℕ
  pub ghost : Ghost
  pub result : o ≡ leave after (entry_at (point after to))
  pub sound : Inv n after to ghost
  pub another : (c == to) ≡ false
  pub asleep : Chain after.system_tcb (after.devices d).sleep_queue (queue ++ c ∷ [])
  pub place : ghost.place c ≡ waiting d
  pub caller : point after c ≡ in_dev_wait
  pub others : (t : ℕ) → (c == t) ≡ false → point after t ≡ point k t
  pub pool : after.gt_mutex ≡ k.gt_mutex

-- `dev_wait` on one of the four devices, called in a sound state by a task without a lock, other than
-- the idle task, comes back in a sound state in which another task is current: that one goes on where
-- it was left. The caller is the last one in the device's sleep queue, behind those that were in it, and
-- is left inside `dev_wait`; every other task is left where it was, and the mutexes are unchanged.
pub dev_wait-Parks :
    {n : ℕ} {k : Kernel} {c : ℕ} {g : Ghost}
    → Inv n k c g
    → (k.system_tcb c).holds_lock ≡ 0
    → c < 63
    → (d : ℕ) → d < 4
    → Parks n k c (g.queue d) d (dev_wait d k)
unfolding take_highest
dev_wait-Parks {n} {k} {c} {g} v free busy d lt =
    let s = dev_wait-Switches v free busy d lt in
    let w = take-Inv s.parked in
    let to = chosen s.parked in
    let other : (c == to) ≡ false = elim (Bool-cases (c == to)) [
      | inl e ↦
          let same : c ≡ to = (==_iff c to).0 e in
          absurd (ground (arith, chosen_ready s.parked (omega (arith, same, busy)), same, s.waits))
      | inr ne ↦ ne
    ] in
    let after : Kernel = record (take_highest s.before) { irq = true } in
    let sound : Inv n after to (next s.parked) = clock-Inv true s.before.timer_count w in
    record {
      after = after;
      to = to;
      ghost = next s.parked;
      result = s.result ∙ resume_lem w (chosen_calm s.parked);
      sound = sound;
      another = other;
      asleep =
          subst (Chain after.system_tcb (after.devices d).sleep_queue) s.line
            (sound.placed.chained d lt);
      place = ground (arith, s.waits, other);
      caller = s.caller;
      others = s.others;
      pool = s.pool;
    }
