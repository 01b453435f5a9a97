-- ===== src/Protocol/Pair.antt =====
-- `mutex_lock` and then `mutex_unlock` of the same mutex (lab4/lab4/kernel/lock/mutex.c).
use fundamental_of_emb.Common.{
  ℕ, ◌<◌, ◌≡◌, refl, sym, subst, ◌∙◌, ap, ap₂, true, false, none, some, leb, ◌==◌, ==_iff,
  if◌then◌else◌, arith, Bool-cases, inl, inr, pos,
}
use fundamental_of_emb.Kernel.{Kernel, Mutex, leave, returned}
use fundamental_of_emb.Resume.{acquire}
use fundamental_of_emb.Mutex.{mutex_lock, mutex_unlock}
use fundamental_of_emb.Protocol.Defs.{Ghost, Inv}
use fundamental_of_emb.Protocol.Lists.{count-ext}
use fundamental_of_emb.Protocol.Switch.{clock-Inv}
use fundamental_of_emb.Protocol.Held.{with_lock, locked_now, released_now, acquire-Inv, release-Inv}
use fundamental_of_emb.Protocol.Locks.{range_test, holder_test, release_result}

unlocked_same :
    (x : Mutex)
    → x.locked ≡ false
    → x.holding_tcb ≡ none
    → record x { locked = false; holding_tcb = none } ≡ x
unlocked_same x free nobody =
    ap₂
      (λ l h. record {
        available = x.available;
        holding_tcb = h;
        locked = l;
        sleep_queue = x.sleep_queue;
      })
      (sym free) (sym nobody)

-- Both calls return 0 to the same task. Between them the mutex is held and the task runs at
-- priority 0; afterwards all mutexes, and the task's priority and its count, are as before.
pub record Pair (n : ℕ) (k : Kernel) (c : ℕ) (m : ℕ) : Type 0 where
  pub between : Kernel
  pub after : Kernel
  pub ghost : Ghost
  pub locks : mutex_lock m k ≡ leave between (returned (pos 0))
  pub held : ((between.gt_mutex m).locked ≡ true) × ((between.gt_mutex m).holding_tcb ≡ some c)
  pub ceiling : (between.system_tcb c).cur_prio ≡ 0
  pub unlocks : mutex_unlock m between ≡ leave after (returned (pos 0))
  pub sound : Inv n after c ghost
  pub same_mutexes : (i : ℕ) → after.gt_mutex i ≡ k.gt_mutex i
  pub same_prio : (after.system_tcb c).cur_prio ≡ (k.system_tcb c).cur_prio
  pub same_count : (after.system_tcb c).holds_lock ≡ (k.system_tcb c).holds_lock

module _ {n : ℕ} {k : Kernel} {c : ℕ} {g : Ghost} (v : Inv n k c g) (m : ℕ) (lt : m < 32)
    (created : (k.gt_mutex m).available ≡ false) where
  in_range : leb 32 m ≡ false
  in_range = ground arith

  -- The states behind the two calls.
  abbrev pub locked_state : Kernel
  locked_state = record (with_lock v m lt true (some c) (locked_now v m lt)) { irq = true }

  abbrev pub unlocked_state : Kernel
  unlocked_state = record (with_lock v m lt false none (released_now v m lt)) { irq = true }

  acquires : acquire m (some c) (record k { irq = false }) ≡ leave locked_state (returned (pos 0))
  unfolding acquire
  acquires = refl

  grabs :
      (k.gt_mutex m).locked ≡ false
      → mutex_lock m k ≡ acquire m k.cur_tcb (record k { irq = false })
  unfolding mutex_lock
  grabs free = rw (range_test, in_range, holder_test v m lt, created, free) refl

  pub locks_lem :
      (k.gt_mutex m).locked ≡ false → mutex_lock m k ≡ leave locked_state (returned (pos 0))
  locks_lem free = grabs free ∙ ap (λ p. acquire m p (record k { irq = false })) v.cur ∙ acquires

  pub unlocks_lem :
      (k.gt_mutex m).locked ≡ true → mutex_unlock m k ≡ leave unlocked_state (returned (pos 0))
  unfolding mutex_unlock
  unlocks_lem held =
      rw (range_test, in_range, holder_test v m lt, created, held)
        (rw created at (release_result v m lt))

module _ {n : ℕ} {k : Kernel} {c : ℕ} {g : Ghost} (v : Inv n k c g) (m : ℕ) (lt : m < 32)
    (created : (k.gt_mutex m).available ≡ false) (free : (k.gt_mutex m).locked ≡ false) where
  pub between-Inv : Inv n (locked_state v m lt created) c g
  between-Inv = clock-Inv true k.timer_count (acquire-Inv v m lt created free)

  between_created : ((locked_state v m lt created).gt_mutex m).available ≡ false
  between_created = ground (arith, created)

  between_held : ((locked_state v m lt created).gt_mutex m).locked ≡ true
  between_held = ground arith

  abbrev after_state : Kernel
  after_state = unlocked_state between-Inv m lt between_created

  after-Inv : Inv n after_state c g
  after-Inv =
      clock-Inv true k.timer_count (release-Inv between-Inv m lt between_created between_held)

  same_mutexes : (i : ℕ) → after_state.gt_mutex i ≡ k.gt_mutex i
  same_mutexes i = elim (Bool-cases (m == i)) [
    | inl e ↦
        let at : m ≡ i = (==_iff m i).0 e in
        let self : (m == m) ≡ true = ground arith in
        subst (λ x. after_state.gt_mutex x ≡ k.gt_mutex x) at
          (rw self
            (unlocked_same (k.gt_mutex m) free ((v.mutexes m lt).holder ∙ ground (arith, free))))
    | inr ne ↦ rw ne refl
  ]

  same_count : (after_state.system_tcb c).holds_lock ≡ (k.system_tcb c).holds_lock
  same_count =
      after-Inv.counted
      ∙ count-ext 32 _ _ (λ i l. ap (λ x. x.locked) (same_mutexes i))
      ∙ sym v.counted

  -- In a sound state, `mutex_lock` of a mutex that is created and free returns 0 to the caller, which
  -- then holds it, at priority 0; `mutex_unlock` of the same mutex right behind it returns 0 to the
  -- caller in a sound state in which all mutexes and the caller's priority and count of locks are as
  -- before.
  pub lock_unlock : Pair n k c m
  lock_unlock = record {
    between = locked_state v m lt created;
    after = after_state;
    ghost = g;
    locks = locks_lem v m lt created free;
    held = (between_held, ground arith);
    ceiling = ground arith;
    unlocks = unlocks_lem between-Inv m lt between_created between_held;
    sound = after-Inv;
    same_mutexes = same_mutexes;
    same_prio = after-Inv.ceiling ∙ ap (λ h. if h == 0 then c else 0) same_count ∙ sym v.ceiling;
    same_count = same_count;
  }
