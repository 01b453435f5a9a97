-- ===== src/Protocol/Locks.antt =====
-- `mutex_lock` and `mutex_unlock` in the running system (lab4/lab4/kernel/lock/mutex.c): the ceiling
-- protocol makes a locked mutex one that the caller itself holds.
use fundamental_of_emb.Common.{
  ℕ, ◌<◌, ◌≡◌, refl, ◌∙◌, ap, Bool, true, false, none, some, update, leb, if◌then◌else◌, arith,
  Bool-cases, inl, inr, ◌||◌, is_negative, ℤ, pos, minus, ptr_eq,
}
use fundamental_of_emb.RunQueue.{Ptr}
use fundamental_of_emb.Kernel.{
  Kernel, Outcome, leave, returned, current, store, tcb_at, einval, edeadlock, eperm,
}
use fundamental_of_emb.Resume.{acquire}
use fundamental_of_emb.Mutex.{mutex_lock, mutex_unlock, wake_first, release_tcb}
use fundamental_of_emb.Protocol.Defs.{Ghost, Inv}
use fundamental_of_emb.Protocol.Switch.{clock-Inv}
use fundamental_of_emb.Protocol.Held.{with_lock, locked_now, released_now, acquire-Inv, release-Inv}

-- What `mutex_lock` and `mutex_unlock` return, told from the mutex alone.
abbrev pub lock_code : Kernel → ℕ → ℤ
lock_code k m =
    if leb 32 m
    then minus einval
    else if (k.gt_mutex m).available
    then minus einval
    else if (k.gt_mutex m).locked
    then minus edeadlock
    else pos 0

abbrev pub unlock_code : Kernel → ℕ → ℤ
unlock_code k m =
    if leb 32 m
    then minus einval
    else if (k.gt_mutex m).available
    then minus einval
    else if (k.gt_mutex m).locked
    then pos 0
    else minus eperm

-- The parts of a call: where it ends, and in which state, with every task in its place.
pub record Ends (n : ℕ) (k : Kernel) (c : ℕ) (g : Ghost) (r : ℤ) (o : Outcome) : Type 0 where
  pub after : Kernel
  pub result : o ≡ leave after (returned r)
  pub sound : Inv n after c g

pub range_test : (m : ℕ) → (is_negative m || leb 32 m) ≡ leb 32 m
range_test m = ground arith

self_test : (b : Bool) (c : ℕ) → ptr_eq (if b then some c else none) (some c) ≡ b
self_test b c = ground arith

-- The caller holds a mutex exactly if it is locked.
pub holder_test :
    {n : ℕ} {k : Kernel} {c : ℕ} {g : Ghost}
    → Inv n k c g
    → (m : ℕ) → m < 32
    → ptr_eq (k.gt_mutex m).holding_tcb k.cur_tcb ≡ (k.gt_mutex m).locked
holder_test {k} {c} v m lt =
    ap (ptr_eq (k.gt_mutex m).holding_tcb) v.cur
    ∙ ap (λ p. ptr_eq p (some c)) (v.mutexes m lt).holder
    ∙ self_test (k.gt_mutex m).locked c

stay :
    {n : ℕ} {k : Kernel} {c : ℕ} {g : Ghost}
    → Inv n k c g
    → (r : ℤ) → Ends n k c g r (leave (record k { irq = true }) (returned r))
stay {k} {g} v r = record {
  after = record k { irq = true };
  result = refl;
  sound = clock-Inv true k.timer_count v;
}

acquire_lem :
    {n : ℕ} {k : Kernel} {c : ℕ} {g : Ghost}
    → Inv n k c g
    → (m : ℕ) → m < 32
    → (k.gt_mutex m).available ≡ false
    → (k.gt_mutex m).locked ≡ false
    → Ends n k c g (pos 0) (acquire m k.cur_tcb (record k { irq = false }))
unfolding acquire
acquire_lem {n} {k} {c} {g} v m lt a free = record {
  after = record (with_lock v m lt true (some c) (locked_now v m lt)) { irq = true };
  result = ap (λ p. acquire m p (record k { irq = false })) v.cur;
  sound = clock-Inv true k.timer_count (acquire-Inv v m lt a free);
}

-- While the system is sound, `mutex_lock` never sleeps and never gets stuck. It refuses a number
-- out of range, a mutex not yet created and a locked one, which the caller then holds itself;
-- otherwise it takes the mutex. The caller stays the current task, and every task in its place.
pub mutex_lock_lem :
    {n : ℕ} {k : Kernel} {c : ℕ} {g : Ghost}
    → Inv n k c g
    → (m : ℕ) → Ends n k c g (lock_code k m) (mutex_lock m k)
unfolding mutex_lock
mutex_lock_lem {n} {k} {c} {g} v m = elim (Bool-cases (leb 32 m)) [
  | inl bad ↦ rw (range_test, bad) (stay v _)
  | inr good ↦
      let lt : m < 32 = ground arith in
      rw (range_test, good, holder_test v m lt)
        (elim (Bool-cases (k.gt_mutex m).available) [
          | inl a ↦ rw a (stay v _)
          | inr a ↦ elim (Bool-cases (k.gt_mutex m).locked) [
            | inl held ↦ rw (a, held) (stay v _)
            | inr free ↦ rw (a, free) (acquire_lem v m lt a free)
          ]
        ])
]

module _ {n : ℕ} {k : Kernel} {c : ℕ} {g : Ghost} (v : Inv n k c g) (m : ℕ) (lt : m < 32) where
  freed : Ptr → Kernel
  freed p = record k {
    gt_mutex = update k.gt_mutex m (record (k.gt_mutex m) { locked = false; holding_tcb = none });
    system_tcb = store k.system_tcb p (release_tcb (tcb_at k.system_tcb p));
    irq = false;
  }

  -- The end of `mutex_unlock`, if the mutex has no sleepers.
  pub release_result :
      wake_first m
        (record k {
          gt_mutex =
              update k.gt_mutex m (record (k.gt_mutex m) { locked = false; holding_tcb = none });
          system_tcb = store k.system_tcb k.cur_tcb (release_tcb (current k));
          irq = false;
        })
        (k.gt_mutex m).sleep_queue
      ≡ leave
          (record (with_lock v m lt false none (released_now v m lt)) { irq = true })
          (returned (pos 0))
  unfolding freed
  release_result =
      ap (λ q. wake_first m (freed k.cur_tcb) q) (v.mutexes m lt).no_sleepers
      ∙ ap (λ p. wake_first m (freed p) none) v.cur

-- A mutex without sleepers: `mutex_unlock` wakes nobody.
release_lem :
    {n : ℕ} {k : Kernel} {c : ℕ} {g : Ghost}
    → Inv n k c g
    → (m : ℕ) → m < 32
    → (k.gt_mutex m).available ≡ false
    → (k.gt_mutex m).locked ≡ true
    → Ends n k c g (pos 0) (
        wake_first m
          (record k {
            gt_mutex =
                update k.gt_mutex m (record (k.gt_mutex m) { locked = false; holding_tcb = none });
            system_tcb = store k.system_tcb k.cur_tcb (release_tcb (current k));
            irq = false;
          })
          (k.gt_mutex m).sleep_queue)
release_lem {n} {k} {c} {g} v m lt a held = record {
  after = record (with_lock v m lt false none (released_now v m lt)) { irq = true };
  result = release_result v m lt;
  sound = clock-Inv true k.timer_count (release-Inv v m lt a held);
}

-- While the system is sound, `mutex_unlock` refuses a number out of range, a mutex not yet created
-- and one that is not locked; otherwise it unlocks the mutex, and wakes nobody. The caller stays
-- the current task, and every task in its place.
pub mutex_unlock_lem :
    {n : ℕ} {k : Kernel} {c : ℕ} {g : Ghost}
    → Inv n k c g
    → (m : ℕ) → Ends n k c g (unlock_code k m) (mutex_unlock m k)
unfolding mutex_unlock
mutex_unlock_lem {n} {k} {c} {g} v m = elim (Bool-cases (leb 32 m)) [
  | inl bad ↦ rw (range_test, bad) (stay v _)
  | inr good ↦
      let lt : m < 32 = ground arith in
      rw (range_test, good, holder_test v m lt)
        (elim (Bool-cases (k.gt_mutex m).available) [
          | inl a ↦ rw a (stay v _)
          | inr a ↦ elim (Bool-cases (k.gt_mutex m).locked) [
            | inl held ↦ rw (a, held) (rw a at (release_lem v m lt a held))
            | inr free ↦ rw (a, free) (stay v _)
          ]
        ])
]
