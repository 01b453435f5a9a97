-- ===== src/Programs/Chaser/Safe.antt =====
-- The invariant of the system of lab4/lab4/tasks/mutex_chaser/mutex_chaser.c.
use fundamental_of_emb.Common.{
  sym, ap, refl, ℕ, ◌<◌, ◌≡◌, true, false, Option, none, some, pos, ltb, ◌==◌, arith, Bool-cases,
  inl, inr,
}
use fundamental_of_emb.Kernel.{
  Kernel, Resume, nowhere, launch_task, in_mutex_lock, in_mutex_unlock, in_dev_wait, in_dev_update,
}
use fundamental_of_emb.Protocol.Defs.{Ghost, Inv, exists}
use fundamental_of_emb.Protocol.Moves.{point, entry_at}
use fundamental_of_emb.Protocol.Section.{AllCreated, NoneLocked, OneLocked}
use fundamental_of_emb.Programs.Chaser.Tally.{Tally, passed}
use fundamental_of_emb.Programs.Chaser.World.{
  Point, locking, loading, storing, unlocking, waiting, finished, panicked, Local, loop_test,
  result_at, comes_back, World, entered,
}

-- A function at a call that it may be interrupted at: not in its critical section.
abbrev pub Outside : Point → ℕ → Type 0
Outside locking m = m < 32
Outside waiting m = Unit
Outside finished m = Unit
Outside _ m = ⊥

abbrev pub AtWait : Point → Type 0
AtWait waiting = Unit
AtWait finished = Unit
AtWait _ = ⊥

-- A task that is not current, from the place where the kernel has left it.
abbrev pub Left : Resume → Local → Type 0
Left launch_task l = l ≡ entered
Left in_dev_wait l = AtWait l.at
Left in_dev_update l = Outside l.at l.cur_mutex
Left nowhere l = ⊥
Left (in_mutex_lock m p) l = ⊥
Left in_mutex_unlock l = ⊥

-- The current task: in its critical section exactly its own mutex is locked, and the number that it
-- has loaded is still that of the mutex; outside no mutex is locked.
abbrev pub Current : Kernel → (ℕ → ℕ) → Point → ℕ → Type 0
Current k vals locking m = (m < 32) × NoneLocked k
Current k vals loading m = (m < 32) × OneLocked m k
Current k vals (storing number) m = (m < 32) × OneLocked m k × (number ≡ vals m)
Current k vals unlocking m = (m < 32) × OneLocked m k
Current k vals waiting m = NoneLocked k
Current k vals finished m = NoneLocked k
Current k vals panicked m = ⊥

pub record Safe (w : World) : Type 0 where
  pub task : ℕ
  pub ghost : Ghost
  pub sound : Inv 4 w.kernel task ghost
  pub created : AllCreated w.kernel
  pub current : Current w.kernel w.mutex_val (w.locals task).at (w.locals task).cur_mutex
  pub tally : Tally w.mutex_val w.locals
  pub left :
      (t : ℕ)
      → t < 64
      → exists 4 t ≡ true
      → (task == t) ≡ false
      → Left (point w.kernel t) (w.locals t)

abbrev pub IsSafe : Option World → Type 0
IsSafe none = ⊥
IsSafe (some w) = Safe w

loop_test-Outside : (m : ℕ) → Outside (loop_test m).at m
loop_test-Outside m = elim (Bool-cases (ltb m 32)) [
  | inl less ↦ rw less (ground arith)
  | inr all ↦ rw all tt
]

pub Outside-Current :
    (k : Kernel) (vals : ℕ → ℕ) (p : Point) (m : ℕ)
    → NoneLocked k
    → Outside p m
    → Current k vals p m
Outside-Current k vals locking m free o = (o, free)
Outside-Current k vals loading m free o = absurd o
Outside-Current k vals (storing number) m free o = absurd o
Outside-Current k vals unlocking m free o = absurd o
Outside-Current k vals waiting m free o = free
Outside-Current k vals finished m free o = free
Outside-Current k vals panicked m free o = absurd o

result-Outside :
    (p : Point) (m : ℕ)
    → AtWait p
    → Outside (result_at p m (pos 0)).at (result_at p m (pos 0)).cur_mutex
result-Outside locking m o = absurd o
result-Outside loading m o = absurd o
result-Outside (storing number) m o = absurd o
result-Outside unlocking m o = absurd o
result-Outside waiting m o = loop_test-Outside m
result-Outside finished m o = tt
result-Outside panicked m o = absurd o

-- A task goes on outside its critical section.
pub back-Outside :
    (lr : Resume) (l : Local)
    → Left lr l
    → Outside (comes_back (entry_at lr) l).at (comes_back (entry_at lr) l).cur_mutex
back-Outside nowhere l o = absurd o
back-Outside launch_task l o = omega arith
back-Outside (in_mutex_lock m p) l o = absurd o
back-Outside in_mutex_unlock l o = absurd o
back-Outside in_dev_wait l o = result-Outside l.at l.cur_mutex o
back-Outside in_dev_update l o = o

loop_test-passed :
    (m i : ℕ) → passed (loop_test m) i ≡ passed (record { at = waiting; cur_mutex = m }) i
loop_test-passed m i = elim (Bool-cases (ltb m 32)) [
  | inl less ↦ rw less refl
  | inr all ↦ rw all refl
]

result-passed :
    (p : Point) (m i : ℕ)
    → AtWait p
    → passed (result_at p m (pos 0)) i ≡ passed (record { at = p; cur_mutex = m }) i
result-passed locking m i o = absurd o
result-passed loading m i o = absurd o
result-passed (storing number) m i o = absurd o
result-passed unlocking m i o = absurd o
result-passed waiting m i o = loop_test-passed m i
result-passed finished m i o = refl
result-passed panicked m i o = absurd o

-- A task that goes on passes no mutex.
pub back-passed :
    (lr : Resume) (l : Local) (i : ℕ)
    → Left lr l
    → passed (comes_back (entry_at lr) l) i ≡ passed l i
back-passed nowhere l i o = absurd o
back-passed launch_task l i o = ap (λ x. passed x i) (sym o)
back-passed (in_mutex_lock m p) l i o = absurd o
back-passed in_mutex_unlock l i o = absurd o
back-passed in_dev_wait l i o = result-passed l.at l.cur_mutex i o
back-passed in_dev_update l i o = refl
