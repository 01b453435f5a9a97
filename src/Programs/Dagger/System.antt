-- ===== src/Programs/Dagger/System.antt =====
-- The system of lab4/lab4/tasks/dagger/dagger.c stays in its invariant.
use fundamental_of_emb.Common.{
  ℕ, ◌+◌, ◌≤◌, ◌<◌, ◌≡◌, refl, sym, subst, ap, ◌∙◌, true, Option, none, some, ◌∷◌, update, ◌==◌,
  ==_iff, arith, Bool-cases, inl, inr,
}
use fundamental_of_emb.Kernel.{
  Kernel, Outcome, leave, Entry, interrupted, Resume, in_dev_wait, in_dev_update,
}
use fundamental_of_emb.Device.{event_wait, timer_irq}
use fundamental_of_emb.Protocol.Defs.{exists}
use fundamental_of_emb.Protocol.Moves.{
  point, entry_at, Moves, Ticks, stays, moves, event_wait-Moves, timer_irq-Ticks,
}
use fundamental_of_emb.Protocol.Section.{none_held}
use fundamental_of_emb.Protocol.Urgent.{LeavesUrgent}
use fundamental_of_emb.Protocol.Preempt.{timer_irq-LeavesUrgent}
use fundamental_of_emb.Protocol.Asleep.{
  Sleeps, LeavesAsleep, not_current, caller-LeavesAsleep, event_wait-LeavesAsleep, is_due,
  timer_irq-LeavesAsleep,
}
use fundamental_of_emb.Programs.Dagger.Pace.{
  Going, AtWait, Left, back-Going, times, owed, InTime, Held, HeldAt, HeldAt-map, back-InTime,
  function_same, apart, other_str,
}
use fundamental_of_emb.Programs.Dagger.{
  matched, ticked, Function, str_of, dev_of, Point, showing, waiting, panicked, comes_back, World,
  goes_on, back, function_of, statement, runs_as, runs_from, Move, run, tick, move, Leads, here,
  next,
}
use fundamental_of_emb.Programs.Dagger.Safe.{
  Safe, IsSafe, self_test, busy, dev-lt, event_wait-LeavesUrgent,
}

module _ (w : World) (s : Safe w) where
  -- The tasks that sleep when a handler starts sleep on, or their device has come to its match.
  abbrev Keeps : Outcome → (ℕ → ℕ) → Type 0
  Keeps o matches =
      (k : Kernel) (e : Entry)
      → o ≡ leave k e
      → (t : ℕ) (f : Function) → function_of t ≡ some f
      → Held w.kernel t w.shown w.matches f
      → Held k t w.shown matches f

  wait-Keeps : s.task < 63 → (d : ℕ) → d < 4 → Keeps (event_wait d w.kernel) w.matches
  wait-Keeps busy d lt k e eq t f own (inl a) = inl (
      subst (LeavesAsleep 2 t (dev_of f)) eq
        (event_wait-LeavesAsleep a s.sound.cur s.free busy d lt))
  wait-Keeps busy d lt k e eq t f own (inr le) = inr le

  tick-Keeps : Keeps (timer_irq w.kernel) (matched w)
  tick-Keeps k e eq t f own (inr le) = inr (omega (arith, le))
  tick-Keeps k e eq t f own (inl a) = elim (Bool-cases (is_due w.kernel (dev_of f))) [
    | inl due ↦ inr (rw due (omega (arith, s.pace t f own)))
    | inr early ↦ inl (subst (LeavesAsleep 2 t (dev_of f)) eq (timer_irq-LeavesAsleep a early))
  ]

  later : (d : ℕ) → w.matches d ≤ matched w d
  later d = omega arith

  -- Another task goes on.
  module _ (lr : Resume) (o : Outcome) (caller : Left lr (w.points s.task))
      (m : Moves 2 w.kernel s.task lr o) (urgent : LeavesUrgent o) (matches : ℕ → ℕ) (ticks : ℕ)
      (grown : (d : ℕ) → w.matches d ≤ matches d) (keeps : Keeps o matches)
      (caller_held : (f : Function)
        → function_of s.task ≡ some f
        → HeldAt lr m.after s.task w.shown matches f) where
    all-Left : (t : ℕ) → t < 64 → exists 2 t ≡ true → Left (point m.after t) (w.points t)
    all-Left t lt ex = elim (Bool-cases (s.task == t)) [
      | inl e ↦
          subst (λ x. Left (point m.after x) (w.points x)) ((==_iff s.task t).0 e)
            (subst (λ r. Left r (w.points s.task)) (sym m.caller) caller)
      | inr ne ↦ subst (λ r. Left r (w.points t)) (sym (m.others t ne)) (s.left t lt ex ne)
    ]

    all-HeldAt :
        (t : ℕ) (f : Function)
        → function_of t ≡ some f
        → HeldAt (point m.after t) m.after t w.shown matches f
    all-HeldAt t f own = elim (Bool-cases (s.task == t)) [
      | inl e ↦
          let same = (==_iff s.task t).0 e in
          subst (λ x. HeldAt (point m.after x) m.after x w.shown matches f) same
            (subst (λ r. HeldAt r m.after s.task w.shown matches f) (sym m.caller)
              (caller_held f (ap function_of same ∙ own)))
      | inr ne ↦
          subst (λ r. HeldAt r m.after t w.shown matches f) (sym (m.others t ne))
            (HeldAt-map w.kernel m.after t w.shown w.shown w.matches matches f (point w.kernel t)
              (keeps m.after _ m.result t f own) (s.held t f own ne))
    ]

    abbrev next_point : Point
    next_point = comes_back (entry_at (point m.after m.to)) (w.points m.to)

    awake : (d : ℕ) → ¬ Sleeps 2 m.after m.to d
    awake d a = absurd (cc (not_current a m.sound.cur, self_test m.to))

    grown-InTime :
        (t : ℕ) (f : Function) → function_of t ≡ some f → InTime w.shown matches f (w.points t)
    grown-InTime t f own = omega (arith, s.pace t f own, grown (dev_of f))

    next-InTime :
        (t : ℕ) (f : Function)
        → function_of t ≡ some f
        → InTime w.shown matches f (update w.points m.to next_point t)
    next-InTime t f own = elim (Bool-cases (m.to == t)) [
      | inr ne ↦ rw ne (grown-InTime t f own)
      | inl e ↦
          let own' : function_of m.to ≡ some f = ap function_of ((==_iff m.to t).0 e) ∙ own in
          rw e (
            back-InTime m.after m.to w.shown matches f (point m.after m.to) (w.points m.to)
              (all-Left m.to m.sound.in_use.0 m.sound.in_use.1) (awake (dev_of f))
              (all-HeldAt m.to f own') (grown-InTime m.to f own'))
    ]

    switch-IsSafe : IsSafe (back (record w { matches = matches; ticks = ticks }) o)
    switch-IsSafe =
        let w' : World = record w { matches = matches; ticks = ticks } in
        subst (λ x. IsSafe (back w' x)) (sym m.result)
          (subst (λ p. IsSafe (goes_on w' m.after (entry_at (point m.after m.to)) p))
            (sym m.sound.cur)
            (record {
              task = m.to;
              ghost = m.ghost;
              sound = m.sound;
              free = λ i lt. ap (λ ms. (ms i).locked) m.pool ∙ s.free i lt;
              urgent = subst LeavesUrgent m.result urgent;
              current = rw (self_test m.to) (
                  back-Going (point m.after m.to) (w.points m.to)
                    (all-Left m.to m.sound.in_use.0 m.sound.in_use.1));
              left = λ t lt ex ne. rw ne (all-Left t lt ex);
              pace = next-InTime;
              held = λ t f own ne. all-HeldAt t f own;
            }))

  -- The current function shows its character.
  show-Safe :
      (f : Function)
      → function_of s.task ≡ some f
      → w.points s.task ≡ showing
      → Safe (record w { points = update w.points s.task waiting; shown = str_of f ∷ w.shown })
  show-Safe f own e =
      let before : times (str_of f) w.shown + 1 ≤ 1 + w.matches (dev_of f) =
        subst (λ p. times (str_of f) w.shown + owed p ≤ 1 + w.matches (dev_of f)) e
          (s.pace s.task f own) in
      record {
        task = s.task;
        ghost = s.ghost;
        sound = s.sound;
        free = s.free;
        urgent = s.urgent;
        current = rw (self_test s.task) tt;
        left = λ t lt ex ne. rw ne (s.left t lt ex ne);
        pace = λ t f' own'. elim (Bool-cases (s.task == t)) [
          | inl e' ↦ rw e' (
              subst (λ x. InTime (str_of f ∷ w.shown) w.matches x waiting)
                (function_same s.task own (ap function_of ((==_iff s.task t).0 e') ∙ own'))
                (rw (self_test (str_of f)) (omega (arith, before))))
          | inr ne ↦
              rw (ne, other_str f f' (apart s.task t f f' own own' ne))
                (omega (arith, s.pace t f' own'))
        ];
        held = λ t f' own' ne.
            let same : times (str_of f') (str_of f ∷ w.shown) ≡ times (str_of f') w.shown =
              rw (other_str f f' (apart s.task t f f' own own' ne)) (omega arith) in
            HeldAt-map w.kernel w.kernel t w.shown (str_of f ∷ w.shown) w.matches w.matches f'
              (point w.kernel t)
              (λ h. elim h [ inl a ↦ inl a | inr le ↦ inr (omega (arith, same, le)) ])
              (s.held t f' own' ne);
      }

  -- Each statement of a function.
  statement-IsSafe :
      (f : Function) (p : Point)
      → function_of s.task ≡ some f
      → w.points s.task ≡ p
      → IsSafe (statement f s.task w p)
  statement-IsSafe f showing own e = show-Safe f own e
  statement-IsSafe f waiting own e =
      let free = none_held s.sound s.free in
      let lt = busy s.task f own in
      let m = event_wait-Moves s.sound free lt (dev_of f) (dev-lt f) in
      switch-IsSafe in_dev_wait _ (subst AtWait (sym e) tt) m
        (event_wait-LeavesUrgent s.sound free lt (dev_of f) (dev-lt f)) w.matches w.ticks
        (λ d. omega arith) (wait-Keeps lt (dev_of f) (dev-lt f))
        (λ f' own'. inl (
          subst (LeavesAsleep 2 s.task (dev_of f')) m.result (
            subst (λ x. LeavesAsleep 2 s.task (dev_of x) (event_wait (dev_of f) w.kernel))
              (function_same s.task own own')
              (caller-LeavesAsleep s.sound free lt (dev_of f) (dev-lt f)))))
  statement-IsSafe f panicked own e = absurd (subst Going e s.current)

  runs_as-IsSafe : (o : Option Function) → function_of s.task ≡ o → IsSafe (runs_as o s.task w)
  runs_as-IsSafe none e = s
  runs_as-IsSafe (some f) e = statement-IsSafe f (w.points s.task) e refl

  tick-IsSafe :
      (o : Outcome)
      → Ticks 2 w.kernel s.task o
      → LeavesUrgent o
      → Keeps o (matched w)
      → IsSafe (back (ticked w) o)
  tick-IsSafe o (stays t) urgent keeps =
      let w' : World = ticked w in
      subst (λ x. IsSafe (back w' x)) (sym t.result)
        (subst (λ p. IsSafe (goes_on w' t.after interrupted p)) (sym t.sound.cur)
          (record {
            task = s.task;
            ghost = t.ghost;
            sound = t.sound;
            free = λ i lt. ap (λ ms. (ms i).locked) t.pool ∙ s.free i lt;
            urgent = subst LeavesUrgent t.result urgent;
            current = rw (self_test s.task) s.current;
            left = λ i lt ex ne.
                rw ne (subst (λ r. Left r (w.points i)) (sym (t.others i)) (s.left i lt ex ne));
            pace = λ i f own. elim (Bool-cases (s.task == i)) [
              | inl e ↦
                  let same = (==_iff s.task i).0 e in
                  rw e (
                    subst (λ x. InTime w.shown (matched w) f (w.points x)) (sym same)
                      (omega (arith, s.pace i f own)))
              | inr ne ↦ rw ne (omega (arith, s.pace i f own))
            ];
            held = λ i f own ne.
                subst (λ r. HeldAt r t.after i w.shown (matched w) f) (sym (t.others i))
                  (HeldAt-map w.kernel t.after i w.shown w.shown w.matches (matched w) f
                    (point w.kernel i) (keeps t.after _ t.result i f own) (s.held i f own ne));
          }))
  tick-IsSafe o (moves free m) urgent keeps =
      switch-IsSafe in_dev_update o s.current m urgent (matched w) (w.ticks + 1) later keeps
        (λ f own. tt)

  pub move-IsSafe : (m : Move) → IsSafe (move m w)
  unfolding move
  move-IsSafe run =
      subst (λ p. IsSafe (runs_from w p)) (sym s.sound.cur)
        (runs_as-IsSafe (function_of s.task) refl)
  move-IsSafe tick =
      tick-IsSafe (timer_irq w.kernel) (timer_irq-Ticks s.sound)
        (timer_irq-LeavesUrgent s.sound s.urgent) tick-Keeps

pub Leads-Safe : {start w : World} → Safe start → Leads start w → Safe w
Leads-Safe s here = s
Leads-Safe s (next {w} {w'} l m e) = subst IsSafe e (move-IsSafe w (Leads-Safe s l) m)
