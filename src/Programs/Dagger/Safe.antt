-- ===== src/Programs/Dagger/Safe.antt =====
-- The invariant of the system of lab4/lab4/tasks/dagger/dagger.c.
use fundamental_of_emb.Common.{
  ℕ, ◌<◌, ◌≡◌, ap, ◌∙◌, true, false, Option, none, some, ◌==◌, ltb, arith,
}
use fundamental_of_emb.Kernel.{Kernel, current, tcb_at}
use fundamental_of_emb.Device.{event_wait}
use fundamental_of_emb.Protocol.Defs.{Ghost, Inv, exists}
use fundamental_of_emb.Protocol.Moves.{point}
use fundamental_of_emb.Protocol.Section.{NoneLocked}
use fundamental_of_emb.Protocol.Urgent.{MostUrgent, LeavesUrgent, dev_wait-LeavesUrgent}
use fundamental_of_emb.Programs.Dagger.Pace.{Going, Left, InTime, HeldAt}
use fundamental_of_emb.Programs.Dagger.{Function, fun1, fun2, dev_of, World, function_of}

pub record Safe (w : World) : Type 0 where
  pub task : ℕ
  pub ghost : Ghost
  pub sound : Inv 2 w.kernel task ghost
  pub free : NoneLocked w.kernel
  pub urgent : MostUrgent w.kernel
  pub current : Going (w.points task)
  pub left :
      (t : ℕ)
      → t < 64
      → exists 2 t ≡ true
      → (task == t) ≡ false
      → Left (point w.kernel t) (w.points t)
  pub pace :
      (t : ℕ) (f : Function) → function_of t ≡ some f → InTime w.shown w.matches f (w.points t)
  pub held :
      (t : ℕ) (f : Function)
      → function_of t ≡ some f
      → (task == t) ≡ false
      → HeldAt (point w.kernel t) w.kernel t w.shown w.matches f

abbrev pub IsSafe : Option World → Type 0
IsSafe none = ⊥
IsSafe (some w) = Safe w

pub self_test : (c : ℕ) → (c == c) ≡ true
self_test c = ground arith

pub dev-lt : (f : Function) → dev_of f < 4
dev-lt fun1 = omega arith
dev-lt fun2 = omega arith

pub busy : (c : ℕ) (f : Function) → function_of c ≡ some f → c < 63
busy c f e = ground (arith, e)

-- A wait on one of the devices, by a task without a lock, leaves the most urgent task current.
pub event_wait-LeavesUrgent :
    {n : ℕ} {k : Kernel} {c : ℕ} {g : Ghost}
    → Inv n k c g
    → (k.system_tcb c).holds_lock ≡ 0
    → c < 63
    → (d : ℕ) → d < 4
    → LeavesUrgent (event_wait d k)
unfolding event_wait
event_wait-LeavesUrgent {k} v free lt d ok =
    let known : ltb 4 d ≡ false = ground arith in
    let none_held : (current k).holds_lock ≡ 0 =
      ap (λ p. (tcb_at k.system_tcb p).holds_lock) v.cur ∙ free in
    rw (known, none_held) (dev_wait-LeavesUrgent v free lt d ok)
