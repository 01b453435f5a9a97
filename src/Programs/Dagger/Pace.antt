-- ===== src/Programs/Dagger/Pace.antt =====
-- Where the functions of lab4/lab4/tasks/dagger/dagger.c are left by the kernel, and how often they
-- show their characters.
use fundamental_of_emb.Common.{
  ℕ, ◌+◌, Option, none, some, refl, ap, ◌∙◌, false, ◌≤◌, ◌≡◌, ◌⊎◌, inl, inr, sym, subst, List, [],
  ◌∷◌, pos, ◌==◌, if◌then◌else◌, arith,
}
use fundamental_of_emb.Kernel.{
  Kernel, Resume, nowhere, launch_task, in_mutex_lock, in_mutex_unlock, in_dev_wait, in_dev_update,
}
use fundamental_of_emb.Protocol.Moves.{entry_at}
use fundamental_of_emb.Protocol.Asleep.{Sleeps}
use fundamental_of_emb.Programs.Dagger.{
  Function, fun1, fun2, function_of, str_of, dev_of, Point, showing, waiting, panicked, result_at,
  comes_back,
}

abbrev pub Going : Point → Type 0
Going showing = Unit
Going waiting = Unit
Going panicked = ⊥

abbrev pub AtWait : Point → Type 0
AtWait waiting = Unit
AtWait _ = ⊥

-- A task that is not current, from the place where the kernel has left it.
abbrev pub Left : Resume → Point → Type 0
Left launch_task p = p ≡ showing
Left in_dev_wait p = AtWait p
Left in_dev_update p = Going p
Left nowhere p = ⊥
Left (in_mutex_lock m q) p = ⊥
Left in_mutex_unlock p = ⊥

result-Going : (p : Point) → AtWait p → Going (result_at p (pos 0))
result-Going showing o = absurd o
result-Going waiting o = tt
result-Going panicked o = absurd o

AtWait-Going : (p : Point) → AtWait p → Going p
AtWait-Going showing o = absurd o
AtWait-Going waiting o = tt
AtWait-Going panicked o = absurd o

-- A task goes on.
pub back-Going : (lr : Resume) (p : Point) → Left lr p → Going (comes_back (entry_at lr) p)
back-Going nowhere p o = absurd o
back-Going launch_task p o = tt
back-Going (in_mutex_lock m q) p o = absurd o
back-Going in_mutex_unlock p o = absurd o
back-Going in_dev_wait p o = result-Going p o
back-Going in_dev_update p o = o

pub Left-Going : (lr : Resume) (p : Point) → Left lr p → Going p
Left-Going nowhere p o = absurd o
Left-Going launch_task p o = subst Going (sym o) tt
Left-Going (in_mutex_lock m q) p o = absurd o
Left-Going in_mutex_unlock p o = absurd o
Left-Going in_dev_wait p o = AtWait-Going p o
Left-Going in_dev_update p o = o

abbrev function_or : Option Function → Function
function_or none = fun1
function_or (some f) = f

-- A task has one function, and a function one task.
pub function_same :
    (c : ℕ) {f f' : Function} → function_of c ≡ some f → function_of c ≡ some f' → f ≡ f'
function_same c own own' = ap function_or (sym own ∙ own')

abbrev pub task_of : Function → ℕ
task_of fun1 = 1
task_of fun2 = 2

task_of_lem : (c : ℕ) (f : Function) → function_of c ≡ some f → c ≡ task_of f
task_of_lem c fun1 own = ground (arith, own)
task_of_lem c fun2 own = ground (arith, own)

pub apart :
    (c c' : ℕ) (f f' : Function)
    → function_of c ≡ some f
    → function_of c' ≡ some f'
    → (c == c') ≡ false
    → (task_of f == task_of f') ≡ false
apart c c' f f' own own' ne = ground (arith, ne, task_of_lem c f own, task_of_lem c' f' own')

pub other_str :
    (f f' : Function) → (task_of f == task_of f') ≡ false → (str_of f == str_of f') ≡ false
other_str fun1 fun1 ne = cc
other_str fun1 fun2 ne = refl
other_str fun2 fun1 ne = refl
other_str fun2 fun2 ne = cc

-- How often a character has been shown.
abbrev pub times : ℕ → List ℕ → ℕ
times c [] = 0
times c (x ∷ xs) = times c xs + (if x == c then 1 else 0)

-- What a function is about to show.
abbrev pub owed : Point → ℕ
owed showing = 1
owed waiting = 0
owed panicked = 0

-- A function shows its character once at first, and once for each match of its device.
abbrev pub InTime : List ℕ → (ℕ → ℕ) → Function → Point → Type 0
InTime shown matches f p = times (str_of f) shown + owed p ≤ 1 + matches (dev_of f)

-- A function that the kernel has left in its wait still sleeps, or may show its character again.
abbrev pub Held : Kernel → ℕ → List ℕ → (ℕ → ℕ) → Function → Type 0
Held k t shown matches f = Sleeps 2 k t (dev_of f) ⊎ (times (str_of f) shown ≤ matches (dev_of f))

abbrev pub HeldAt : Resume → Kernel → ℕ → List ℕ → (ℕ → ℕ) → Function → Type 0
HeldAt in_dev_wait k t shown matches f = Held k t shown matches f
HeldAt _ k t shown matches f = Unit

module _ (k k' : Kernel) (t : ℕ) (shown shown' : List ℕ) (matches matches' : ℕ → ℕ)
    (f : Function) where
  pub HeldAt-map :
      (lr : Resume)
      → (Held k t shown matches f → Held k' t shown' matches' f)
      → HeldAt lr k t shown matches f
      → HeldAt lr k' t shown' matches' f
  HeldAt-map nowhere g h = tt
  HeldAt-map launch_task g h = tt
  HeldAt-map (in_mutex_lock m p) g h = tt
  HeldAt-map in_mutex_unlock g h = tt
  HeldAt-map in_dev_wait g h = g h
  HeldAt-map in_dev_update g h = tt

module _ (k : Kernel) (t : ℕ) (shown : List ℕ) (matches : ℕ → ℕ) (f : Function) where
  result-InTime :
      (p : Point)
      → AtWait p
      → ¬ Sleeps 2 k t (dev_of f)
      → Held k t shown matches f
      → InTime shown matches f (result_at p (pos 0))
  result-InTime showing o awake h = absurd o
  result-InTime waiting o awake (inl s) = absurd (awake s)
  result-InTime waiting o awake (inr le) = omega (arith, le)
  result-InTime panicked o awake h = absurd o

  -- A task that goes on and no longer sleeps.
  pub back-InTime :
      (lr : Resume) (p : Point)
      → Left lr p
      → ¬ Sleeps 2 k t (dev_of f)
      → HeldAt lr k t shown matches f
      → InTime shown matches f p
      → InTime shown matches f (comes_back (entry_at lr) p)
  back-InTime nowhere p o awake h i = absurd o
  back-InTime launch_task p o awake h i = subst (InTime shown matches f) o i
  back-InTime (in_mutex_lock m q) p o awake h i = absurd o
  back-InTime in_mutex_unlock p o awake h i = absurd o
  back-InTime in_dev_wait p o awake h i = result-InTime p o awake h
  back-InTime in_dev_update p o awake h i = i
