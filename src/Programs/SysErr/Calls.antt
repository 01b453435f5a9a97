-- ===== src/Programs/SysErr/Calls.antt =====
-- The calls of lab4/lab4/tasks/sys_err/sys_err.c, one by one, with timer interrupts before them.
use fundamental_of_emb.Common.{
  add32, ℕ, suc, ◌<◌, ◌≡◌, refl, ap, sym, subst, ◌∙◌, true, false, not, none, some, ltb, update,
  ◌==◌, arith, pos, minus, Bool-cases, inl, inr,
}
use fundamental_of_emb.Kernel.{Kernel, Mutex, leave, returned, disable_interrupts}
use fundamental_of_emb.Mutex.{fresh_mutex, release_tcb, mutex_create, mutex_lock, mutex_unlock}
use fundamental_of_emb.Resume.{acquire}
use fundamental_of_emb.Device.{event_wait}
use fundamental_of_emb.Protocol.Reach.{create_outcome}
use fundamental_of_emb.Programs.Quiet.{NobodyWaits}
use fundamental_of_emb.Programs.Steps.{Kept, Handles}
use fundamental_of_emb.Programs.Pool.{
  Created, mutex_create-next, mutex_create-full, mutex_create-devices,
}

-- The task `c` is current, the mutexes are those of the table, and no task waits for a device.
pub record At (table : ℕ → Mutex) (c : ℕ) (k : Kernel) : Type 0 where
  pub current : k.cur_tcb ≡ some c
  pub mutexes : (i : ℕ) → i < 32 → k.gt_mutex i ≡ table i
  pub nobody : NobodyWaits k

-- The first `n` mutexes are created.
abbrev pub created : ℕ → ℕ → Mutex
created n i = record fresh_mutex { available = not (ltb i n) }

-- All are created, and `c` holds the mutex 4.
abbrev pub four_held : ℕ → ℕ → Mutex
four_held c =
    update (created 32) 4
      (record { available = false; holding_tcb = some c; locked = true; sleep_queue = none })

pub At-Kept : (table : ℕ → Mutex) (c : ℕ) → Kept (At table c)
At-Kept table c = record {
  stays = λ l a. record {
    current = l.current ∙ a.current;
    mutexes = λ i lt. ap (λ ms. ms i) l.mutexes ∙ a.mutexes i lt;
    nobody = l.nobody;
  };
  quiet = λ a. a.nobody;
}

module _ (c : ℕ) where
  pub create-next :
      (n : ℕ)
      → n < 32
      → Handles
          (λ k. create_outcome (mutex_create k))
          (At (created n) c)
          (pos n)
          (At (created (suc n)) c)
  create-next n lt k a =
      let p : Created n (some c) k = record { mutexes = a.mutexes; current = a.current } in
      let m = mutex_create-next p lt in
      record {
        after = (mutex_create k).0;
        result = rw m.1 refl;
        holds = record {
          current = m.0.current;
          mutexes = m.0.mutexes;
          nobody =
              subst (λ d. (i : ℕ) → i < 4 → (d i).sleep_queue ≡ none) (sym (mutex_create-devices k))
                a.nobody;
        };
      }

  pub create-full :
      Handles
        (λ k. create_outcome (mutex_create k))
        (At (created 32) c)
        (minus 12)
        (At (created 32) c)
  create-full k a =
      let p : Created 32 (some c) k = record { mutexes = a.mutexes; current = a.current } in
      record {
        after = record k { irq = true };
        result = rw (mutex_create-full p) refl;
        holds = record { current = a.current; mutexes = a.mutexes; nobody = a.nobody };
      }

  pub unlock_165 : Handles (mutex_unlock 165) (At (created 32) c) (minus 22) (At (created 32) c)
  unfolding mutex_unlock
  unlock_165 k a = record {
    after = record k { irq = true };
    result = refl;
    holds = record { current = a.current; mutexes = a.mutexes; nobody = a.nobody };
  }

  pub unlock_23 : Handles (mutex_unlock 23) (At (created 32) c) (minus 1) (At (created 32) c)
  unfolding mutex_unlock
  unlock_23 k a = record {
    after = record k { irq = true };
    result = rw (a.mutexes 23 (omega arith), a.current) refl;
    holds = record { current = a.current; mutexes = a.mutexes; nobody = a.nobody };
  }

  pub lock_124 : Handles (mutex_lock 124) (At (created 32) c) (minus 22) (At (created 32) c)
  unfolding mutex_lock
  lock_124 k a = record {
    after = record k { irq = true };
    result = refl;
    holds = record { current = a.current; mutexes = a.mutexes; nobody = a.nobody };
  }

  abbrev lock_free : Kernel → Kernel
  lock_free k =
      let t = k.system_tcb c in
      record k {
        gt_mutex =
            update k.gt_mutex 4 (record (k.gt_mutex 4) { locked = true; holding_tcb = some c });
        system_tcb =
            update k.system_tcb c (record t { holds_lock = add32 t.holds_lock 1; cur_prio = 0 });
        irq = true;
      }

  acquire_lem : (k : Kernel) → acquire 4 (some c) k ≡ leave (lock_free k) (returned (pos 0))
  unfolding acquire
  acquire_lem k = refl

  pub lock_4 : Handles (mutex_lock 4) (At (created 32) c) (pos 0) (At (four_held c) c)
  unfolding mutex_lock
  lock_4 k a = record {
    after = lock_free k;
    result =
        let k' = disable_interrupts k in
        let taken : mutex_lock 4 k ≡ acquire 4 k.cur_tcb k' =
          rw (a.mutexes 4 (omega arith), a.current) refl in
        taken ∙ ap (λ p. acquire 4 p k') a.current ∙ acquire_lem k';
    holds = record {
      current = a.current;
      mutexes = λ i lt. elim (Bool-cases (4 == i)) [
        | inl e ↦ rw (e, a.mutexes 4 (omega arith)) refl
        | inr ne ↦ rw ne (a.mutexes i lt)
      ];
      nobody = a.nobody;
    };
  }

  pub lock_again : Handles (mutex_lock 4) (At (four_held c) c) (minus 58) (At (four_held c) c)
  unfolding mutex_lock
  lock_again k a =
      let self : (c == c) ≡ true = ground arith in
      record {
        after = record k { irq = true };
        result = rw (a.mutexes 4 (omega arith), a.current, self) refl;
        holds = record { current = a.current; mutexes = a.mutexes; nobody = a.nobody };
      }

  abbrev unlocked : Kernel → Kernel
  unlocked k = record k {
    gt_mutex = update k.gt_mutex 4 (record (k.gt_mutex 4) { locked = false; holding_tcb = none });
    system_tcb = update k.system_tcb c (release_tcb (k.system_tcb c));
    irq = true;
  }

  pub unlock_4 : Handles (mutex_unlock 4) (At (four_held c) c) (pos 0) (At (created 32) c)
  unfolding mutex_unlock
  unlock_4 k a =
      let self : (c == c) ≡ true = ground arith in
      record {
        after = unlocked k;
        result = rw (a.mutexes 4 (omega arith), a.current, self) refl;
        holds = record {
          current = a.current;
          mutexes = λ i lt. elim (Bool-cases (4 == i)) [
            | inl e ↦
                let free : ltb i 32 ≡ true = ground arith in
                rw (e, a.mutexes 4 (omega arith), free) refl
            | inr ne ↦
                let other : four_held c i ≡ created 32 i = rw ne refl in
                rw ne (a.mutexes i lt ∙ other)
          ];
          nobody = a.nobody;
        };
      }

  pub wait_10000 : Handles (event_wait 10000) (At (created 32) c) (minus 22) (At (created 32) c)
  unfolding event_wait
  wait_10000 k a = record { after = k; result = refl; holds = a }
