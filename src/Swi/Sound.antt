-- ===== src/Swi/Sound.antt =====
-- A system call of lab 4 (lab4/lab4/kernel/arm/C_SWI_handler.c) in the running system.
use fundamental_of_emb.Common.{
  ℕ, ◌<◌, ◌≡◌, ◌≢◌, ◌⊎◌, inl, inr, true, false, none, List, ◌==◌, ==_iff, Bool-cases, subst, sym,
}
use fundamental_of_emb.Mutex.{mutex_create}
use fundamental_of_emb.Io.{Call, blocked, returns, read_syscall}
use fundamental_of_emb.Schedule.{Floats, assign_schedule}
use fundamental_of_emb.Task.{sort_tasks}
use fundamental_of_emb.Boot.{task_create, argument_error}
use fundamental_of_emb.Boot.Sound.{task_create-Starts}
use fundamental_of_emb.Protocol.Defs.{Ghost, Inv, MutexFine}
use fundamental_of_emb.Protocol.Switch.{IsFine, clock-Inv}
use fundamental_of_emb.Protocol.Locks.{mutex_lock_lem, mutex_unlock_lem}
use fundamental_of_emb.Protocol.Reach.{
  event_wait-IsFine, mutex_create-IsFine, Ends-IsFine, create_outcome,
}
use fundamental_of_emb.Swi.{
  Regs, Machine, SwiEnd, ends, waits, sleeps, exits, read_call, mutex_call, create_call,
  swi_handler, read_swi, write_swi, time_swi, sleep_swi, create_swi, mutex_create_swi,
  mutex_lock_swi, mutex_unlock_swi, event_wait_swi,
}
use fundamental_of_emb.Swi.Layout.{load_tasks}

-- The call ends in a sound state, with some number of tasks, or the kernel's state is the old one.
abbrev pub EndsWell : SwiEnd → Type 0
EndsWell (ends o io) = (n : ℕ) × IsFine n o
EndsWell waits = Unit
EndsWell (sleeps end_time) = Unit
EndsWell (exits status io) = ⊥

-- What `task_create` needs in order to start a sound system, if its arguments pass the checks.
pub record CanCreate (f : Floats) (regs : Regs) (m : Machine) : Type 0 where
  pub schedulable :
      assign_schedule f (sort_tasks regs.r1 (load_tasks regs.r0 m.io.memory)) regs.r1 ≡ true
  pub unlocked :
      (i : ℕ)
      → i < 32
      → MutexFine none (m.kernel.gt_mutex i) × ((m.kernel.gt_mutex i).locked ≡ false)

module _ (f : Floats) (idle : ℕ) {n : ℕ} {c : ℕ} {g : Ghost} (m : Machine)
    (v : Inv n m.kernel c g) where
  read-EndsWell : (call : Call) → EndsWell (read_call m.kernel call)
  read-EndsWell blocked = tt
  read-EndsWell (returns r io rest) = (n, (c, g, v))

  create-EndsWell :
      (regs : Regs)
      → (argument_error regs.r0 (load_tasks regs.r0 m.io.memory) regs.r1 ≢ 0) ⊎ CanCreate f regs m
      → EndsWell (
          create_call regs.r0 regs.r1 m.io
            (task_create f idle regs.r0 (load_tasks regs.r0 m.io.memory) regs.r1 m.kernel))
  unfolding task_create
  create-EndsWell regs h =
      elim (Bool-cases (argument_error regs.r0 (load_tasks regs.r0 m.io.memory) regs.r1 == 0)) [
        | inl ok ↦ elim h [
          | inl bad ↦ absurd (bad ((==_iff _ _).0 ok))
          | inr can ↦
              let s =
                (task_create-Starts f idle regs.r0 (load_tasks regs.r0 m.io.memory) regs.r1 m.kernel
                  ((==_iff _ _).0 ok) can.schedulable can.unlocked).1 in
              (regs.r1, subst (IsFine regs.r1) (sym s.result) (1, s.ghost, s.sound))
        ]
        | inr bad ↦ rw bad (n, (c, g, clock-Inv false m.kernel.timer_count v))
      ]

  mutex_create-EndsWell :
      IsFine n (create_outcome (mutex_create m.kernel))
      → EndsWell (mutex_call m.io (mutex_create m.kernel))
  mutex_create-EndsWell h = (n, h)

  -- A system call of a task other than the idle one in a sound state, whatever its number and its
  -- arguments, ends in a sound state or waits in the kernel; excepted are `event_wait` on device 4,
  -- and `task_create` with arguments that pass the checks, but with tasks that fail the
  -- schedulability test or while a mutex is locked.
  pub swi_handler-EndsWell :
      c < 63
      → (swi_num : ℕ) (regs : Regs) (input : List ℕ) → (swi_num ≡ event_wait_swi → regs.r0 ≢ 4)
      → (swi_num ≡ create_swi
          → (argument_error regs.r0 (load_tasks regs.r0 m.io.memory) regs.r1 ≢ 0)
            ⊎ CanCreate f regs m)
      → EndsWell (swi_handler f idle swi_num regs input m)
  unfolding swi_handler
  swi_handler-EndsWell busy swi_num regs input not4 can = elim (Bool-cases (swi_num == read_swi)) [
    | inl e ↦ rw e (read-EndsWell (read_syscall regs.r0 regs.r1 regs.r2 input m.io))
    | inr n1 ↦ elim (Bool-cases (swi_num == write_swi)) [
      | inl e ↦ rw (n1, e) (n, (c, g, v))
      | inr n2 ↦ elim (Bool-cases (swi_num == time_swi)) [
        | inl e ↦ rw (n1, n2, e) (n, (c, g, v))
        | inr n3 ↦ elim (Bool-cases (swi_num == sleep_swi)) [
          | inl e ↦ rw (n1, n2, n3, e) tt
          | inr n4 ↦ elim (Bool-cases (swi_num == create_swi)) [
            | inl e ↦ rw (n1, n2, n3, n4, e) (create-EndsWell regs (can ((==_iff _ _).0 e)))
            | inr n5 ↦ elim (Bool-cases (swi_num == mutex_create_swi)) [
              | inl e ↦ rw (n1, n2, n3, n4, n5, e) (mutex_create-EndsWell (mutex_create-IsFine v))
              | inr n6 ↦ elim (Bool-cases (swi_num == mutex_lock_swi)) [
                | inl e ↦ rw (n1, n2, n3, n4, n5, n6, e) (n, Ends-IsFine (mutex_lock_lem v regs.r0))
                | inr n7 ↦ elim (Bool-cases (swi_num == mutex_unlock_swi)) [
                  | inl e ↦
                      rw (n1, n2, n3, n4, n5, n6, n7, e)
                        (n, Ends-IsFine (mutex_unlock_lem v regs.r0))
                  | inr n8 ↦ elim (Bool-cases (swi_num == event_wait_swi)) [
                    | inl e ↦
                        rw (n1, n2, n3, n4, n5, n6, n7, n8, e)
                          (n, event_wait-IsFine v busy regs.r0 (not4 ((==_iff _ _).0 e)))
                    | inr n9 ↦ rw (n1, n2, n3, n4, n5, n6, n7, n8, n9) (n, (c, g, v))
                  ]
                ]
              ]
            ]
          ]
        ]
      ]
    ]
  ]
