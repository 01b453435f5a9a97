-- ===== src/Programs/Chaser/Behaves.antt =====
-- What the invariant of the system of lab4/lab4/tasks/mutex_chaser/mutex_chaser.c says of its tasks.
use fundamental_of_emb.Common.{
  sym, ℕ, ◌<◌, ◌≤◌, ◌≡◌, ◌≢◌, refl, subst, ap, ◌∙◌, true, false, Bool, Option, none, some, ◌==◌,
  ==_iff, if◌then◌else◌, arith, Bool-cases, inl, inr,
}
use fundamental_of_emb.Kernel.{
  Kernel, Resume, nowhere, launch_task, in_mutex_lock, in_mutex_unlock, in_dev_wait, in_dev_update,
}
use fundamental_of_emb.Protocol.Section.{OneLocked}
use fundamental_of_emb.Programs.Chaser.Tally.{Tally}
use fundamental_of_emb.Programs.Chaser.World.{
  Point, locking, loading, storing, unlocking, waiting, finished, panicked, Local, World, Move,
  move,
}
use fundamental_of_emb.Programs.Chaser.Safe.{Outside, AtWait, Left, Current, Safe, IsSafe}
use fundamental_of_emb.Programs.Chaser.System.{move-IsSafe}

-- Between `mutex_lock` and `mutex_unlock`.
abbrev pub is_inside : Point → Bool
is_inside loading = true
is_inside (storing number) = true
is_inside unlocking = true
is_inside _ = false

-- No function has come to `panic`; one that is in its critical section is that of the current task,
-- which holds its mutex; a number loaded is still the mutex's when it is stored; the numbers are what
-- some order of the operations done gives; and every statement and every interrupt comes back to a
-- task.
pub record Behaves (w : World) : Type 0 where
  pub no_panic : (t : ℕ) → 0 < t → t ≤ 4 → (w.locals t).at ≢ panicked
  pub exclusive :
      (t : ℕ)
      → 0 < t
      → t ≤ 4
      → is_inside (w.locals t).at ≡ true
      → (w.kernel.cur_tcb ≡ some t)
        × ((w.kernel.gt_mutex (w.locals t).cur_mutex).holding_tcb ≡ some t)
  pub not_lost :
      (t number : ℕ)
      → 0 < t
      → t ≤ 4
      → (w.locals t).at ≡ storing number
      → number ≡ w.mutex_val (w.locals t).cur_mutex
  pub tally : Tally w.mutex_val w.locals
  pub goes_on : (m : Move) → (w' : World) × (move m w ≡ some w')

-- Where a task that is not current can be.
abbrev Resting : Point → Type 0
Resting locking = Unit
Resting waiting = Unit
Resting finished = Unit
Resting _ = ⊥

Outside-Resting : (p : Point) (m : ℕ) → Outside p m → Resting p
Outside-Resting locking m o = tt
Outside-Resting loading m o = absurd o
Outside-Resting (storing number) m o = absurd o
Outside-Resting unlocking m o = absurd o
Outside-Resting waiting m o = tt
Outside-Resting finished m o = tt
Outside-Resting panicked m o = absurd o

AtWait-Resting : (p : Point) → AtWait p → Resting p
AtWait-Resting locking o = absurd o
AtWait-Resting loading o = absurd o
AtWait-Resting (storing number) o = absurd o
AtWait-Resting unlocking o = absurd o
AtWait-Resting waiting o = tt
AtWait-Resting finished o = tt
AtWait-Resting panicked o = absurd o

Left-Resting : (lr : Resume) (l : Local) → Left lr l → Resting l.at
Left-Resting nowhere l o = absurd o
Left-Resting launch_task l o = subst (λ x. Resting x.at) (sym o) tt
Left-Resting (in_mutex_lock m p) l o = absurd o
Left-Resting in_mutex_unlock l o = absurd o
Left-Resting in_dev_wait l o = AtWait-Resting l.at o
Left-Resting in_dev_update l o = Outside-Resting l.at l.cur_mutex o

Resting-inside : (p : Point) → Resting p → is_inside p ≡ false
Resting-inside locking o = refl
Resting-inside loading o = absurd o
Resting-inside (storing number) o = absurd o
Resting-inside unlocking o = absurd o
Resting-inside waiting o = refl
Resting-inside finished o = refl
Resting-inside panicked o = absurd o

-- The current task in its critical section has its mutex locked.
Current-locked :
    (k : Kernel) (vals : ℕ → ℕ) (p : Point) (m : ℕ)
    → is_inside p ≡ true
    → Current k vals p m
    → (m < 32) × OneLocked m k
Current-locked k vals locking m e c = cc
Current-locked k vals loading m e c = c
Current-locked k vals (storing number) m e c = (c.0, c.1)
Current-locked k vals unlocking m e c = c
Current-locked k vals waiting m e c = cc
Current-locked k vals finished m e c = cc
Current-locked k vals panicked m e c = absurd c

module _ {w : World} (s : Safe w) where
  resting : (t : ℕ) → 0 < t → t ≤ 4 → (s.task == t) ≡ false → Resting (w.locals t).at
  resting t pos_t le ne =
      Left-Resting _ (w.locals t) (s.left t (omega (arith, le)) (ground arith) ne)

  is_current : (t : ℕ) → 0 < t → t ≤ 4 → is_inside (w.locals t).at ≡ true → s.task ≡ t
  is_current t pos_t le inside = elim (Bool-cases (s.task == t)) [
    | inl e ↦ (==_iff s.task t).0 e
    | inr ne ↦
        let out = Resting-inside (w.locals t).at (resting t pos_t le ne) in
        absurd (cc (inside, out))
  ]

  current_at :
      (t : ℕ) → s.task ≡ t → Current w.kernel w.mutex_val (w.locals t).at (w.locals t).cur_mutex
  current_at t e =
      subst (λ x. Current w.kernel w.mutex_val (w.locals x).at (w.locals x).cur_mutex) e s.current

  no_panic_here : (t : ℕ) → 0 < t → t ≤ 4 → (w.locals t).at ≢ panicked
  no_panic_here t pos_t le p = elim (Bool-cases (s.task == t)) [
    | inl e ↦
        subst (λ x. Current w.kernel w.mutex_val x (w.locals t).cur_mutex) p
          (current_at t ((==_iff s.task t).0 e))
    | inr ne ↦ subst Resting p (resting t pos_t le ne)
  ]

  exclusive_here :
      (t : ℕ)
      → 0 < t
      → t ≤ 4
      → is_inside (w.locals t).at ≡ true
      → (w.kernel.cur_tcb ≡ some t)
        × ((w.kernel.gt_mutex (w.locals t).cur_mutex).holding_tcb ≡ some t)
  exclusive_here t pos_t le inside =
      let e = is_current t pos_t le inside in
      let m = (w.locals t).cur_mutex in
      let c = Current-locked w.kernel w.mutex_val (w.locals t).at m inside (current_at t e) in
      let self : (m == m) ≡ true = ground arith in
      (
        s.sound.cur ∙ ap some e,
        (s.sound.mutexes m c.0).holder
            ∙ ap (λ b. if b then some s.task else none) (c.1 m c.0 ∙ self)
            ∙ ap some e,
      )

  not_lost_here :
      (t number : ℕ)
      → 0 < t
      → t ≤ 4
      → (w.locals t).at ≡ storing number
      → number ≡ w.mutex_val (w.locals t).cur_mutex
  not_lost_here t number pos_t le p =
      let e = is_current t pos_t le (ap is_inside p) in
      (subst (λ x. Current w.kernel w.mutex_val x (w.locals t).cur_mutex) p (current_at t e)).2

some_world : (o : Option World) → IsSafe o → (w' : World) × (o ≡ some w')
some_world none o = absurd o
some_world (some w) o = (w, refl)

pub Safe-Behaves : {w : World} → Safe w → Behaves w
Safe-Behaves {w} s = record {
  no_panic = no_panic_here s;
  exclusive = exclusive_here s;
  not_lost = not_lost_here s;
  tally = s.tally;
  goes_on = λ m. some_world (move m w) (move-IsSafe w s m);
}
