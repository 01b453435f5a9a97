-- ===== src/Programs/Dagger/Period.antt =====
-- The functions of lab4/lab4/tasks/dagger/dagger.c against the clock of the kernel.
use fundamental_of_emb.Common.{
  ℕ, ◌+◌, ◌*◌, ◌^◌, ◌≤◌, ◌<◌, ◌≡◌, refl, sym, subst, ◌∙◌, Option, none, some, arith, add32,
  Bool-cases, inl, inr,
}
use fundamental_of_emb.RunQueue.{Ptr}
use fundamental_of_emb.Kernel.{Kernel, Outcome, leave, stuck, Entry}
use fundamental_of_emb.Device.{dev_freq, event_wait, timer_irq}
use fundamental_of_emb.Protocol.Asleep.{is_due}
use fundamental_of_emb.Protocol.Section.{none_held}
use fundamental_of_emb.Protocol.Clock.{
  Reads, LeavesReads, matched_at, event_wait-LeavesReads, timer_irq-LeavesReads,
}
use fundamental_of_emb.Programs.Dagger.{
  Function, fun1, fun2, str_of, dev_of, Point, showing, waiting, panicked, World, goes_on, back,
  function_of, statement, runs_as, runs_from, Move, run, tick, ticked, matched, move, Leads, here,
  next,
}
use fundamental_of_emb.Programs.Dagger.Pace.{times}
use fundamental_of_emb.Programs.Dagger.Safe.{Safe, busy, dev-lt}
use fundamental_of_emb.Programs.Dagger.System.{Leads-Safe}

abbrev pub period : Function → ℕ
period f = dev_freq (dev_of f)

-- The clock has moved on by ten with each interrupt since it read `t0`; a device has come to its match
-- at most once in each of its periods, and the next match is at most one period ahead.
pub record OnTime (t0 : ℕ) (w : World) : Type 0 where
  pub clock : w.kernel.timer_count ≡ t0 + 10 * w.ticks
  pub due :
      (f : Function)
      → t0 + period f * (w.matches (dev_of f) + 1) ≤ (w.kernel.devices (dev_of f)).next_match
  pub ahead :
      (f : Function) → (w.kernel.devices (dev_of f)).next_match ≤ w.kernel.timer_count + period f

abbrev IsOnTime : ℕ → Option World → Type 0
IsOnTime t0 none = Unit
IsOnTime t0 (some w) = OnTime t0 w

-- The number of the interrupts in a world that a move leads to.
abbrev HasTicks : ℕ → Option World → Type 0
HasTicks n none = Unit
HasTicks n (some w) = w.ticks ≡ n

module _ (w : World) where
  goes_on-HasTicks : (k : Kernel) (e : Entry) (p : Ptr) → HasTicks w.ticks (goes_on w k e p)
  goes_on-HasTicks k e none = tt
  goes_on-HasTicks k e (some c) = refl

  back-HasTicks : (o : Outcome) → HasTicks w.ticks (back w o)
  back-HasTicks stuck = tt
  back-HasTicks (leave k e) = goes_on-HasTicks k e k.cur_tcb

  statement-HasTicks : (f : Function) (c : ℕ) (p : Point) → HasTicks w.ticks (statement f c w p)
  statement-HasTicks f c showing = refl
  statement-HasTicks f c waiting = back-HasTicks (event_wait (dev_of f) w.kernel)
  statement-HasTicks f c panicked = refl

  runs_as-HasTicks : (o : Option Function) (c : ℕ) → HasTicks w.ticks (runs_as o c w)
  runs_as-HasTicks none c = refl
  runs_as-HasTicks (some f) c = statement-HasTicks f c (w.points c)

  run-HasTicks : (p : Ptr) → HasTicks w.ticks (runs_from w p)
  run-HasTicks none = tt
  run-HasTicks (some c) = runs_as-HasTicks (function_of c) c

module _ (t0 : ℕ) (w : World) (now : ℕ) (nexts : ℕ → ℕ) (clock : now ≡ t0 + 10 * w.ticks)
    (due : (f : Function) → t0 + period f * (w.matches (dev_of f) + 1) ≤ nexts (dev_of f))
    (ahead : (f : Function) → nexts (dev_of f) ≤ now + period f) where
  -- A kernel that reads the clock and the next matches so.
  goes_on-IsOnTime :
      (k : Kernel) (e : Entry) (p : Ptr) → Reads now nexts k → IsOnTime t0 (goes_on w k e p)
  goes_on-IsOnTime k e none r = tt
  goes_on-IsOnTime k e (some c) r = record {
    clock = r.0 ∙ clock;
    due = λ f. omega (arith, due f, r.1 (dev_of f) (dev-lt f));
    ahead = λ f. omega (arith, ahead f, r.0, r.1 (dev_of f) (dev-lt f));
  }

  back-IsOnTime : (o : Outcome) → LeavesReads now nexts o → IsOnTime t0 (back w o)
  back-IsOnTime stuck r = tt
  back-IsOnTime (leave k e) r = goes_on-IsOnTime k e k.cur_tcb r

module _ (t0 : ℕ) (w : World) (s : Safe w) (h : OnTime t0 w) where
  statement-IsOnTime :
      (f : Function) (p : Point)
      → function_of s.task ≡ some f
      → IsOnTime t0 (statement f s.task w p)
  statement-IsOnTime f showing own = record { clock = h.clock; due = h.due; ahead = h.ahead }
  statement-IsOnTime f waiting own = back-IsOnTime t0 w _ _ h.clock h.due h.ahead _ (
      event_wait-LeavesReads s.sound (none_held s.sound s.free) (busy s.task f own) (dev_of f)
        (dev-lt f))
  statement-IsOnTime f panicked own = h

  runs_as-IsOnTime :
      (o : Option Function) → function_of s.task ≡ o → IsOnTime t0 (runs_as o s.task w)
  runs_as-IsOnTime none own = h
  runs_as-IsOnTime (some f) own = statement-IsOnTime f (w.points s.task) own

  run-IsOnTime : IsOnTime t0 (runs_from w w.kernel.cur_tcb)
  run-IsOnTime =
      subst (λ p. IsOnTime t0 (runs_from w p)) (sym s.sound.cur)
        (runs_as-IsOnTime (function_of s.task) refl)

  module _ (early : t0 + 10 * (w.ticks + 1) + 500 < 2 ^ 32) where
    now_lem : add32 w.kernel.timer_count 10 ≡ w.kernel.timer_count + 10
    now_lem = omega (arith, early, h.clock)

    tick-due :
        (f : Function)
        → t0 + period f * (matched w (dev_of f) + 1)
          ≤ matched_at (add32 w.kernel.timer_count 10) w.kernel (dev_of f)
    tick-due fun1 = elim (Bool-cases (is_due w.kernel 0)) [
      | inl e ↦ rw e (ground (arith, e, h.due fun1, h.clock, early))
      | inr e ↦ rw e (omega (arith, h.due fun1))
    ]
    tick-due fun2 = elim (Bool-cases (is_due w.kernel 1)) [
      | inl e ↦ rw e (ground (arith, e, h.due fun2, h.clock, early))
      | inr e ↦ rw e (omega (arith, h.due fun2))
    ]

    tick-ahead :
        (f : Function)
        → matched_at (add32 w.kernel.timer_count 10) w.kernel (dev_of f)
          ≤ add32 w.kernel.timer_count 10 + period f
    tick-ahead fun1 = elim (Bool-cases (is_due w.kernel 0)) [
      | inl e ↦ rw e (omega arith)
      | inr e ↦ rw e (omega (arith, h.ahead fun1, now_lem))
    ]
    tick-ahead fun2 = elim (Bool-cases (is_due w.kernel 1)) [
      | inl e ↦ rw e (omega arith)
      | inr e ↦ rw e (omega (arith, h.ahead fun2, now_lem))
    ]

    tick-IsOnTime : IsOnTime t0 (back (ticked w) (timer_irq w.kernel))
    tick-IsOnTime =
        back-IsOnTime t0 (ticked w) (add32 w.kernel.timer_count 10)
          (matched_at (add32 w.kernel.timer_count 10) w.kernel) (omega (arith, now_lem, h.clock))
          tick-due tick-ahead (timer_irq w.kernel) (timer_irq-LeavesReads s.sound)

move-IsOnTime :
    (t0 : ℕ) (w w' : World) (m : Move)
    → Safe w
    → (t0 + 10 * w.ticks + 500 < 2 ^ 32 → OnTime t0 w)
    → move m w ≡ some w'
    → t0 + 10 * w'.ticks + 500 < 2 ^ 32
    → OnTime t0 w'
unfolding move
move-IsOnTime t0 w w' run s h e early =
    let same : w'.ticks ≡ w.ticks = subst (HasTicks w.ticks) e (run-HasTicks w w.kernel.cur_tcb) in
    subst (IsOnTime t0) e (run-IsOnTime t0 w s (h (omega (arith, early, same))))
move-IsOnTime t0 w w' tick s h e early =
    let more : w'.ticks ≡ w.ticks + 1 =
      subst (HasTicks (w.ticks + 1)) e (back-HasTicks (ticked w) (timer_irq w.kernel)) in
    subst (IsOnTime t0) e
      (tick-IsOnTime t0 w s (h (omega (arith, early, more))) (omega (arith, early, more)))

pub Leads-OnTime :
    (t0 : ℕ) {start w : World}
    → Safe start
    → (t0 + 10 * start.ticks + 500 < 2 ^ 32 → OnTime t0 start)
    → Leads start w
    → t0 + 10 * w.ticks + 500 < 2 ^ 32
    → OnTime t0 w
Leads-OnTime t0 s h here early = h early
Leads-OnTime t0 s h (next {w} {w'} l m e) early =
    move-IsOnTime t0 w w' m (Leads-Safe s l) (Leads-OnTime t0 s h l) e early

-- What a function has shown takes at least a period each but for the first.
pub in_period :
    {w : World} (t0 : ℕ) (f : Function)
    → OnTime t0 w
    → times (str_of f) w.shown ≤ 1 + w.matches (dev_of f)
    → period f * times (str_of f) w.shown ≤ period f + 10 * w.ticks
in_period t0 fun1 h le = omega (arith, le, h.due fun1, h.ahead fun1, h.clock)
in_period t0 fun2 h le = omega (arith, le, h.due fun2, h.ahead fun2, h.clock)
