-- ===== src/Protocol/Section.antt =====
-- The mutexes before, in and behind a critical section (lab4/lab4/kernel/lock/mutex.c).
use fundamental_of_emb.Common.{ℕ, ◌<◌, ◌≡◌, ◌≢◌, ◌∙◌, true, false, ◌==◌, arith, pos}
use fundamental_of_emb.Kernel.{Kernel, Outcome, leave, returned}
use fundamental_of_emb.Mutex.{mutex_lock, mutex_unlock}
use fundamental_of_emb.Protocol.Defs.{Ghost, Inv}
use fundamental_of_emb.Protocol.Lists.{count-none, count-pos}
use fundamental_of_emb.Protocol.Switch.{clock-Inv}
use fundamental_of_emb.Protocol.Held.{release-Inv}
use fundamental_of_emb.Protocol.Moves.{point}
use fundamental_of_emb.Protocol.Pair.{
  locked_state, unlocked_state, locks_lem, unlocks_lem, between-Inv,
}

-- All mutexes are created.
abbrev pub AllCreated : Kernel → Type 0
AllCreated k = (i : ℕ) → i < 32 → (k.gt_mutex i).available ≡ false

abbrev pub NoneLocked : Kernel → Type 0
NoneLocked k = (i : ℕ) → i < 32 → (k.gt_mutex i).locked ≡ false

abbrev pub OneLocked : ℕ → Kernel → Type 0
OneLocked m k = (i : ℕ) → i < 32 → (k.gt_mutex i).locked ≡ (m == i)

-- A call that returns 0 to its caller, and leaves every task where it was.
pub record Returns (n : ℕ) (k : Kernel) (c : ℕ) (Pool : Kernel → Type 0) (o : Outcome)
    : Type 0 where
  pub after : Kernel
  pub ghost : Ghost
  pub result : o ≡ leave after (returned (pos 0))
  pub sound : Inv n after c ghost
  pub created : AllCreated after
  pub pool : Pool after
  pub others : (t : ℕ) → point after t ≡ point k t

module _ {n : ℕ} {k : Kernel} {c : ℕ} {g : Ghost} (v : Inv n k c g) (m : ℕ) (lt : m < 32)
    (created : AllCreated k) where
  pub lock-Returns : NoneLocked k → Returns n k c (OneLocked m) (mutex_lock m k)
  lock-Returns free = record {
    after = locked_state v m lt (created m lt);
    ghost = g;
    result = locks_lem v m lt (created m lt) (free m lt);
    sound = between-Inv v m lt (created m lt) (free m lt);
    created = λ i l. let a = created i l in ground (arith, a, created m lt);
    pool = λ i l. let f = free i l in ground (arith, f);
    others = λ t. ground arith;
  }

  pub unlock-Returns : OneLocked m k → Returns n k c NoneLocked (mutex_unlock m k)
  unlock-Returns held =
      let self : (m == m) ≡ true = ground arith in
      let now = held m lt ∙ self in
      record {
        after = unlocked_state v m lt (created m lt);
        ghost = g;
        result = unlocks_lem v m lt (created m lt) now;
        sound = clock-Inv true k.timer_count (release-Inv v m lt (created m lt) now);
        created = λ i l. let a = created i l in ground (arith, a, created m lt);
        pool = λ i l. let h = held i l in ground (arith, h);
        others = λ t. ground arith;
      }

-- Without a locked mutex, the current task counts none.
pub none_held :
    {n : ℕ} {k : Kernel} {c : ℕ} {g : Ghost}
    → Inv n k c g
    → NoneLocked k
    → (k.system_tcb c).holds_lock ≡ 0
none_held v free = v.counted ∙ count-none 32 _ free

-- With a locked mutex it counts one at least.
pub some_held :
    {n : ℕ} {k : Kernel} {c : ℕ} {g : Ghost}
    → Inv n k c g
    → (m : ℕ) → m < 32
    → (k.gt_mutex m).locked ≡ true
    → (k.system_tcb c).holds_lock ≢ 0
some_held {k} v m lt held zero_held =
    let p = count-pos 32 (λ i. (k.gt_mutex i).locked) m lt held in
    absurd (omega (arith, p, v.counted, zero_held))
