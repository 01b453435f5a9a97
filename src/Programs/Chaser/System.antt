-- ===== src/Programs/Chaser/System.antt =====
-- The system of lab4/lab4/tasks/mutex_chaser/mutex_chaser.c stays in its invariant.
use fundamental_of_emb.Common.{
  ℕ, ◌<◌, ◌≡◌, refl, sym, subst, ap, ◌∙◌, true, Option, none, some, pos, update, ◌==◌, ==_iff,
  arith, Bool-cases, inl, inr, ◌+◌,
}
use fundamental_of_emb.Kernel.{
  Kernel, Outcome, returned, interrupted, Resume, in_dev_wait, in_dev_update,
}
use fundamental_of_emb.Device.{event_wait, timer_irq}
use fundamental_of_emb.Protocol.Defs.{Ghost, Inv, exists}
use fundamental_of_emb.Protocol.Moves.{
  point, entry_at, Moves, Ticks, stays, moves, event_wait-Moves, timer_irq-Ticks,
}
use fundamental_of_emb.Protocol.Section.{
  AllCreated, NoneLocked, OneLocked, Returns, lock-Returns, unlock-Returns, none_held, some_held,
}
use fundamental_of_emb.Programs.Chaser.{Chaser, fun1, fun2, fun3, fun4, operate, device_of}
use fundamental_of_emb.Programs.Chaser.Tally.{
  Tally, passed, passed_at, update-Tally, store-Tally, task_of_lem,
}
use fundamental_of_emb.Programs.Chaser.World.{
  Point, locking, loading, storing, unlocking, waiting, finished, panicked, Local, result_at,
  comes_back, World, goes_on, back, chaser_of, statement, runs_as, runs_from, Move, run, tick, move,
  Leads, here, next,
}
use fundamental_of_emb.Programs.Chaser.Safe.{
  Outside, AtWait, Left, Current, Safe, IsSafe, Outside-Current, back-Outside, back-passed,
}

device-lt : (f : Chaser) → device_of f < 4
device-lt fun1 = omega arith
device-lt fun2 = omega arith
device-lt fun3 = omega arith
device-lt fun4 = omega arith

chaser-lt : (c : ℕ) (f : Chaser) → chaser_of c ≡ some f → c < 63
chaser-lt c f e = ground (arith, e)

self_test : (c : ℕ) → (c == c) ≡ true
self_test c = ground arith

-- The same mutexes.
Current-same :
    (k k' : Kernel) (vals : ℕ → ℕ) (p : Point) (m : ℕ)
    → k'.gt_mutex ≡ k.gt_mutex
    → Current k vals p m
    → Current k' vals p m
Current-same k k' vals locking m same c = (c.0, λ i lt. ap (λ ms. (ms i).locked) same ∙ c.1 i lt)
Current-same k k' vals loading m same c = (c.0, λ i lt. ap (λ ms. (ms i).locked) same ∙ c.1 i lt)
Current-same k k' vals (storing number) m same c =
    (c.0, λ i lt. ap (λ ms. (ms i).locked) same ∙ c.1 i lt, c.2)
Current-same k k' vals unlocking m same c = (c.0, λ i lt. ap (λ ms. (ms i).locked) same ∙ c.1 i lt)
Current-same k k' vals waiting m same c = λ i lt. ap (λ ms. (ms i).locked) same ∙ c i lt
Current-same k k' vals finished m same c = λ i lt. ap (λ ms. (ms i).locked) same ∙ c i lt
Current-same k k' vals panicked m same c = absurd c

-- In its critical section a task counts its lock.
Current-Outside :
    {n : ℕ} {k : Kernel} {c : ℕ} {g : Ghost} (vals : ℕ → ℕ) (p : Point) (m : ℕ)
    → Inv n k c g
    → (k.system_tcb c).holds_lock ≡ 0
    → Current k vals p m
    → Outside p m × NoneLocked k
Current-Outside vals locking m v free c = c
Current-Outside vals loading m v free c = absurd (some_held v m c.0 (c.1 m c.0 ∙ self_test m) free)
Current-Outside vals (storing number) m v free c =
    absurd (some_held v m c.0 (c.1 m c.0 ∙ self_test m) free)
Current-Outside vals unlocking m v free c =
    absurd (some_held v m c.0 (c.1 m c.0 ∙ self_test m) free)
Current-Outside vals waiting m v free c = (tt, c)
Current-Outside vals finished m v free c = (tt, c)
Current-Outside vals panicked m v free c = absurd c

-- A function counts a mutex as passed from its store on.
stepped : (m i : ℕ) → passed_at waiting (m + 1) i ≡ passed_at unlocking m i
stepped m i = ground arith

module _ (w : World) (s : Safe w) where
  -- The same task goes on, and has come to `l`.
  keeps-Safe :
      (k' : Kernel) (vals' : ℕ → ℕ) (l : Local) (g' : Ghost)
      → Inv 4 k' s.task g'
      → AllCreated k'
      → ((t : ℕ) → point k' t ≡ point w.kernel t)
      → Current k' vals' l.at l.cur_mutex
      → Tally vals' (update w.locals s.task l)
      → Safe (record w { kernel = k'; mutex_val = vals'; locals = update w.locals s.task l })
  keeps-Safe k' vals' l g' v created same cur tally = record {
    tally = tally;
    task = s.task;
    ghost = g';
    sound = v;
    created = created;
    current = rw (self_test s.task) cur;
    left =
        λ t lt ex ne. rw ne (subst (λ r. Left r (w.locals t)) (sym (same t)) (s.left t lt ex ne));
  }

  -- Another task goes on.
  switch-IsSafe :
      (lr : Resume) (o : Outcome)
      → Left lr (w.locals s.task)
      → NoneLocked w.kernel
      → Moves 4 w.kernel s.task lr o
      → IsSafe (back w o)
  switch-IsSafe lr o caller free m =
      subst (λ x. IsSafe (back w x)) (sym m.result)
        (subst (λ p. IsSafe (goes_on w m.after (entry_at (point m.after m.to)) p)) (sym m.sound.cur)
          (record {
            task = m.to;
            ghost = m.ghost;
            sound = m.sound;
            created = λ i lt. ap (λ ms. (ms i).available) m.pool ∙ s.created i lt;
            current = rw (self_test m.to) (
                Outside-Current m.after w.mutex_val _ _
                  (λ i lt. ap (λ ms. (ms i).locked) m.pool ∙ free i lt)
                  (back-Outside (point m.after m.to) (w.locals m.to)
                    (all_left m.to m.sound.in_use.0 m.sound.in_use.1)));
            tally =
                update-Tally m.to _
                  (λ i.
                    back-passed (point m.after m.to) (w.locals m.to) i
                      (all_left m.to m.sound.in_use.0 m.sound.in_use.1))
                  s.tally;
            left = λ t lt ex ne. rw ne (all_left t lt ex);
          }))
    where
      all_left : (t : ℕ) → t < 64 → exists 4 t ≡ true → Left (point m.after t) (w.locals t)
      all_left t lt ex = elim (Bool-cases (s.task == t)) [
        | inl e ↦
            subst (λ x. Left (point m.after x) (w.locals x)) ((==_iff s.task t).0 e)
              (subst (λ r. Left r (w.locals s.task)) (sym m.caller) caller)
        | inr ne ↦ subst (λ r. Left r (w.locals t)) (sym (m.others t ne)) (s.left t lt ex ne)
      ]

  -- A call of `mutex_lock` or `mutex_unlock`.
  call-IsSafe :
      (Pool : Kernel → Type 0) (o : Outcome) (r : Returns 4 w.kernel s.task Pool o) (l : Local)
      → comes_back (returned (pos 0)) (w.locals s.task) ≡ l
      → ((i : ℕ) → passed l i ≡ passed (w.locals s.task) i)
      → Current r.after w.mutex_val l.at l.cur_mutex
      → IsSafe (back w o)
  call-IsSafe Pool o r l e same cur =
      subst (λ x. IsSafe (back w x)) (sym r.result)
        (subst (λ p. IsSafe (goes_on w r.after (returned (pos 0)) p)) (sym r.sound.cur)
          (subst (λ x. Safe (record w { kernel = r.after; locals = update w.locals s.task x }))
            (sym e)
            (keeps-Safe r.after w.mutex_val l r.ghost r.sound r.created r.others cur
              (update-Tally s.task l same s.tally))))

  abbrev here_at : Local
  here_at = w.locals s.task

  result_lem :
      (p : Point) (m : ℕ)
      → here_at.at ≡ p
      → here_at.cur_mutex ≡ m
      → comes_back (returned (pos 0)) here_at ≡ result_at p m (pos 0)
  result_lem p m ep em =
      ap (λ q. result_at q here_at.cur_mutex (pos 0)) ep ∙ ap (λ i. result_at p i (pos 0)) em

  here_passed :
      (p : Point) (m i : ℕ)
      → here_at.at ≡ p
      → here_at.cur_mutex ≡ m
      → passed_at p m i ≡ passed here_at i
  here_passed p m i ep em =
      sym (ap (λ q. passed_at q here_at.cur_mutex i) ep ∙ ap (λ x. passed_at p x i) em)

  wait-IsSafe :
      (f : Chaser)
      → s.task < 63
      → NoneLocked w.kernel
      → AtWait here_at.at
      → IsSafe (back w (event_wait (device_of f) w.kernel))
  wait-IsSafe f busy free at =
      switch-IsSafe in_dev_wait _ at free
        (event_wait-Moves s.sound (none_held s.sound free) busy (device_of f) (device-lt f))

  -- Each statement of a function.
  statement-IsSafe :
      (f : Chaser) (p : Point) (m : ℕ)
      → chaser_of s.task ≡ some f
      → here_at.at ≡ p
      → here_at.cur_mutex ≡ m
      → Current w.kernel w.mutex_val p m
      → IsSafe (statement f s.task w p m)
  statement-IsSafe f locking m own ep em c =
      let r = lock-Returns s.sound m c.0 s.created c.1 in
      call-IsSafe (OneLocked m) _ r _ (result_lem locking m ep em)
        (λ i. here_passed locking m i ep em) (c.0, r.pool)
  statement-IsSafe f loading m own ep em c =
      keeps-Safe w.kernel w.mutex_val (record { at = storing (w.mutex_val m); cur_mutex = m })
        s.ghost s.sound s.created (λ t. refl) (c.0, c.1, refl)
        (update-Tally s.task _ (λ i. here_passed loading m i ep em) s.tally)
  statement-IsSafe f (storing number) m own ep em c =
      keeps-Safe w.kernel (update w.mutex_val m (operate f number))
        (record { at = unlocking; cur_mutex = m }) s.ghost s.sound s.created (λ t. refl) (c.0, c.1)
        (store-Tally f s.task m number (task_of_lem s.task f own) ep em c.2 s.tally)
  statement-IsSafe f unlocking m own ep em c =
      let r = unlock-Returns s.sound m c.0 s.created c.1 in
      call-IsSafe NoneLocked _ r _ (result_lem unlocking m ep em)
        (λ i. stepped m i ∙ here_passed unlocking m i ep em) r.pool
  statement-IsSafe f waiting m own ep em c =
      wait-IsSafe f (chaser-lt s.task f own) c (subst AtWait (sym ep) tt)
  statement-IsSafe f finished m own ep em c =
      wait-IsSafe f (chaser-lt s.task f own) c (subst AtWait (sym ep) tt)
  statement-IsSafe f panicked m own ep em c = absurd c

  runs_as-IsSafe : (o : Option Chaser) → chaser_of s.task ≡ o → IsSafe (runs_as o s.task w)
  runs_as-IsSafe none e = s
  runs_as-IsSafe (some f) e = statement-IsSafe f here_at.at here_at.cur_mutex e refl refl s.current

  tick-IsSafe : (o : Outcome) → Ticks 4 w.kernel s.task o → IsSafe (back w o)
  tick-IsSafe o (stays t) =
      subst (λ x. IsSafe (back w x)) (sym t.result)
        (subst (λ p. IsSafe (goes_on w t.after interrupted p)) (sym t.sound.cur)
          (keeps-Safe t.after w.mutex_val here_at t.ghost t.sound
            (λ i lt. ap (λ ms. (ms i).available) t.pool ∙ s.created i lt) t.others
            (Current-same w.kernel t.after w.mutex_val here_at.at here_at.cur_mutex t.pool
              s.current)
            (update-Tally s.task here_at (λ i. refl) s.tally)))
  tick-IsSafe o (moves free m) =
      let c = Current-Outside w.mutex_val here_at.at here_at.cur_mutex s.sound free s.current in
      switch-IsSafe in_dev_update o c.0 c.1 m

  pub move-IsSafe : (m : Move) → IsSafe (move m w)
  unfolding move
  move-IsSafe run =
      subst (λ p. IsSafe (runs_from w p)) (sym s.sound.cur) (runs_as-IsSafe (chaser_of s.task) refl)
  move-IsSafe tick = tick-IsSafe (timer_irq w.kernel) (timer_irq-Ticks s.sound)

pub Leads-Safe : {start w : World} → Safe start → Leads start w → Safe w
Leads-Safe s here = s
Leads-Safe s (next {w} {w'} l m e) = subst IsSafe e (move-IsSafe w (Leads-Safe s l) m)
