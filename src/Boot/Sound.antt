-- ===== src/Boot/Sound.antt =====
-- task_create (lab4/lab4/kernel/syscall/proc.c) starts a sound system.
use fundamental_of_emb.Common.{
  ℕ, ◌+◌, ◌-◌, ◌<◌, ◌≡◌, refl, sym, ◌∙◌, ap, subst, true, false, ◌&&◌, ◌||◌, none, [], ltb, leb,
  ◌==◌, if◌then◌else◌, arith, Bool-cases, inl, inr, ==_iff, add32, fill_lem,
}
use fundamental_of_emb.RunQueue.{runqueue_init, runqueue_add}
use fundamental_of_emb.RunQueue.Inv.{is_runnable, runqueue_init-IsValid, runqueue_add-IsValid}
use fundamental_of_emb.RunQueue.Highest.{highest_prio-least}
use fundamental_of_emb.Kernel.{
  Kernel, Mutex, current, tcb_at, enable_interrupts, disable_interrupts, Outcome, leave, launched,
  launch_task,
}
use fundamental_of_emb.Dispatch.{dispatch_init, dispatch_nosave, take_highest}
use fundamental_of_emb.Resume.{resume, resume_at}
use fundamental_of_emb.Device.{dev_init, dev_freq}
use fundamental_of_emb.Task.{Task, sort_tasks}
use fundamental_of_emb.Schedule.{Floats, assign_schedule}
use fundamental_of_emb.Boot.{
  os_avail_tasks, fresh_tcb, sched_init, allocate_rounds, allocate_tasks, argument_error,
  task_create, create_sorted,
}
use fundamental_of_emb.Protocol.Defs.{
  absent, ready, Ghost, MutexFine, AtRest, is_calm, Queued, Placed, Parked, Inv, exists,
}
use fundamental_of_emb.Protocol.Lists.{count-none}
use fundamental_of_emb.Protocol.Take.{Placed-same, chosen, chosen_exists, next, take-Inv}
use fundamental_of_emb.Boot.Rounds.{Allocated, allocate_rounds-Allocated}

module _ (f : Floats) (idle : ℕ) (tasks : ℕ → Task) (num : ℕ) (k : Kernel) (bound : num < 63) where
  -- The state behind `dev_init`, and the one before the first dispatch.
  abbrev cleared : Kernel
  cleared = dev_init (record k { run_queue = runqueue_init k.run_queue })

  abbrev filled : Kernel
  filled = sched_init idle (allocate_tasks tasks num cleared)

  abbrev first_ghost : Ghost
  first_ghost = record {
    place = λ t. if ltb 0 t && leb t num then ready else absent;
    queue = λ d. [];
  }

  filled_rounds : Allocated tasks cleared num (allocate_rounds tasks num cleared)
  unfolding dev_init
  filled_rounds =
      let i = runqueue_init-IsValid k.run_queue in
      allocate_rounds-Allocated tasks cleared num bound i.0 i.1

  same_pool : (m : ℕ) → (take_highest (enable_interrupts filled)).gt_mutex m ≡ k.gt_mutex m
  unfolding take_highest dev_init sched_init allocate_tasks dispatch_init
  same_pool m = filled_rounds.mutexes m

  filled_devices : (d : ℕ) → d < 4 → (filled.devices d).sleep_queue ≡ none
  unfolding dev_init sched_init allocate_tasks dispatch_init
  filled_devices d lt =
      ap (λ v. v.sleep_queue) (filled_rounds.devices d)
      ∙ ap (λ v. v.sleep_queue)
          (fill_lem 4
            (λ i. record { next_match = add32 k.timer_count (dev_freq i); sleep_queue = none })
            k.devices d)
      ∙ ground arith

  -- The first match of a device is one period ahead.
  filled_matches :
      (d : ℕ) → d < 4 → (filled.devices d).next_match ≡ add32 filled.timer_count (dev_freq d)
  unfolding dev_init sched_init allocate_tasks dispatch_init
  filled_matches d lt =
      ap (λ v. v.next_match) (filled_rounds.devices d)
      ∙ ap (λ v. v.next_match)
          (fill_lem 4
            (λ i. record { next_match = add32 k.timer_count (dev_freq i); sleep_queue = none })
            k.devices d)
      ∙ ground arith
      ∙ ap (λ c. add32 c (dev_freq d)) (sym filled_rounds.clock)

  task_rests : (t : ℕ) → t < num → AtRest num (t + 1) (filled.system_tcb (t + 1))
  unfolding sched_init allocate_tasks dispatch_init
  task_rests t lt =
      let e = filled_rounds.blocks t lt in
      record {
        native = ground (arith, ap (λ b. b.native_prio) e);
        prio = ground (arith, ap (λ b. b.cur_prio) e);
        no_lock = ground (arith, ap (λ b. b.holds_lock) e);
        calm = ground (arith, ap (λ b. is_calm b.context.lr) e);
      }

  filled_rests : (t : ℕ) → t < 64 → exists num t ≡ true → AtRest num t (filled.system_tcb t)
  unfolding sched_init allocate_tasks dispatch_init
  filled_rests t lt e = elim (Bool-cases (t == 63)) [
    | inl i ↦
        rw ((==_iff t 63).0 i) (record { native = refl; prio = refl; no_lock = refl; calm = refl })
    | inr i ↦
        let s : t - 1 + 1 ≡ t = ground arith in
        subst (λ x. AtRest num x (filled.system_tcb x)) s (task_rests (t - 1) (ground arith))
  ]

  filled_points :
      (t : ℕ) → t < 64 → exists num t ≡ true → (filled.system_tcb t).context.lr ≡ launch_task
  unfolding sched_init allocate_tasks dispatch_init
  filled_points t lt e = elim (Bool-cases (t == 63)) [
    | inl i ↦ rw ((==_iff t 63).0 i) refl
    | inr i ↦
        let s : t - 1 + 1 ≡ t = ground arith in
        let at : (filled.system_tcb (t - 1 + 1)).context.lr ≡ launch_task =
          ground (arith, ap (λ b. b.context.lr) (filled_rounds.blocks (t - 1) (ground arith))) in
        subst (λ x. (filled.system_tcb x).context.lr ≡ launch_task) s at
  ]

  filled-Queued : Queued filled first_ghost
  unfolding sched_init allocate_tasks dispatch_init runqueue_add
  filled-Queued =
      let a = filled_rounds in
      record {
        valid = runqueue_add-IsValid a.valid 63 63 (omega arith);
        listed = λ t lt. ground (arith, a.listed t);
        idle = ground arith;
      }

  filled-Placed : Placed num filled first_ghost
  unfolding sched_init allocate_tasks dispatch_init
  filled-Placed =
      let a = filled_rounds in
      record {
        present = λ t lt. ground arith;
        chained = λ d lt. rw (filled_devices d lt) tt;
        distinct = λ d lt. tt;
        members = λ d lt. tt;
        complete = λ t d lt w. absurd (ground arith);
        sizes = λ d lt. sym (count-none 63 _ (λ t l. ground arith));
      }

  module _
      (free : (m : ℕ)
        → m < 32
        → MutexFine none (k.gt_mutex m) × ((k.gt_mutex m).locked ≡ false)) where
    filled-Parked : Parked num filled first_ghost
    unfolding sched_init allocate_tasks dispatch_init dev_init
    filled-Parked =
        let a = filled_rounds in
        record {
          queued = filled-Queued;
          placed = filled-Placed;
          nobody = λ t lt. ground arith;
          resting = filled_rests;
          unlocked = λ m lt. rw (a.mutexes m) (free m lt);
        }

    -- The interrupt flag does not matter.
    started-Parked : Parked num (enable_interrupts filled) first_ghost
    started-Parked =
        let h = filled-Parked in
        record {
          queued = record {
            valid = h.queued.valid;
            listed = h.queued.listed;
            idle = h.queued.idle;
          };
          placed = Placed-same h.placed (λ t. refl) (λ d. refl);
          nobody = h.nobody;
          resting = h.resting;
          unlocked = h.unlocked;
        }

    first_runnable : 0 < num → is_runnable filled.run_queue 1 ≡ true
    first_runnable pos_num =
        filled-Queued.valid.listed 1 (omega arith)
        ∙ ground (arith, filled-Queued.listed 1 (omega arith))

    first_chosen : 0 < num → chosen started-Parked ≡ 1
    first_chosen pos_num = ground (
      arith,
      chosen_exists started-Parked,
      (highest_prio-least filled-Queued.valid 1 (omega arith) (first_runnable pos_num)).2,
    )

    started-Inv : 0 < num → (g : Ghost) × Inv num (take_highest (enable_interrupts filled)) 1 g
    started-Inv pos_num =
        subst (λ c. (g : Ghost) × Inv num (take_highest (enable_interrupts filled)) c g)
          (first_chosen pos_num) (next started-Parked, take-Inv started-Parked)

    first_block :
        0 < num
        → current (take_highest (enable_interrupts filled))
          ≡ fresh_tcb 1 (tasks 0).lambda (tasks 0).argument (tasks 0).stack_pos
    unfolding take_highest sched_init allocate_tasks dispatch_init
    first_block pos_num =
        ap (λ p. tcb_at (take_highest (enable_interrupts filled)).system_tcb p)
          (started-Inv pos_num).1.cur
        ∙ filled_rounds.blocks 0 pos_num

-- `task_create` comes back in user mode, in `launch_task` of the first of the sorted tasks, with
-- its three registers, the state is sound, the mutexes are those of `pool`, no task waits for a
-- device, and every task is where it starts.
pub record Starts (num : ℕ) (first : Task) (pool : ℕ → Mutex) (o : Outcome) : Type 0 where
  pub state : Kernel
  pub ghost : Ghost
  pub result : o ≡ leave state launched
  pub sound : Inv num state 1 ghost
  pub entry : (current state).context.r4 ≡ first.lambda
  pub argument : (current state).context.r5 ≡ first.argument
  pub stack : (current state).context.r6 ≡ first.stack_pos
  pub same_mutexes : (m : ℕ) → state.gt_mutex m ≡ pool m
  pub nobody_waits : (d : ℕ) → d < 4 → (state.devices d).sleep_queue ≡ none
  pub first_matches :
      (d : ℕ) → d < 4 → (state.devices d).next_match ≡ add32 state.timer_count (dev_freq d)
  pub unstarted :
      (t : ℕ) → t < 64 → exists num t ≡ true → (state.system_tcb t).context.lr ≡ launch_task

module _ (f : Floats) (idle : ℕ) (tasks : ℕ → Task) (num : ℕ) (k : Kernel) where
  created-Starts :
      num < 63
      → 0 < num
      → ((m : ℕ) → m < 32 → MutexFine none (k.gt_mutex m) × ((k.gt_mutex m).locked ≡ false))
      → assign_schedule f tasks num ≡ true
      → Starts num (tasks 0) k.gt_mutex (create_sorted f idle tasks num k)
  unfolding dispatch_nosave resume resume_at take_highest
  created-Starts lt pos_num free ok =
      let b = first_block f idle tasks num k lt free pos_num in
      let v = started-Inv f idle tasks num k lt free pos_num in
      record {
        state = take_highest (enable_interrupts (filled f idle tasks num k lt));
        ghost = v.0;
        result = rw ok (
            ap
              (λ t.
                resume_at t.context.lr
                  (take_highest (enable_interrupts (filled f idle tasks num k lt))))
              b);
        sound = v.1;
        entry = ap (λ t. t.context.r4) b;
        argument = ap (λ t. t.context.r5) b;
        stack = ap (λ t. t.context.r6) b;
        same_mutexes = same_pool f idle tasks num k lt;
        nobody_waits = filled_devices f idle tasks num k lt;
        first_matches = filled_matches f idle tasks num k lt;
        unstarted = filled_points f idle tasks num k lt;
      }

-- An argument that passes the checks has between 1 and 62 tasks.
argument_bounds :
    (addr : ℕ) (tasks : ℕ → Task) (num : ℕ)
    → argument_error addr tasks num ≡ 0
    → (0 < num) × (num < 63)
argument_bounds addr tasks num e = elim (Bool-cases (leb os_avail_tasks num || num == 0)) [
  | inl bad ↦ absurd (ground arith)
  | inr good ↦ (ground arith, ground arith)
]

-- If the arguments pass the checks, the sorted tasks pass the schedulability test and no mutex is
-- locked, `task_create` sorts the array and goes to user mode in the first task of the sorted array,
-- with its three registers, in a sound state of `num` tasks, and the
-- mutexes are as before.
pub task_create-Starts :
    (f : Floats) (idle addr : ℕ) (tasks : ℕ → Task) (num : ℕ) (k : Kernel)
    → argument_error addr tasks num ≡ 0
    → assign_schedule f (sort_tasks num tasks) num ≡ true
    → ((m : ℕ) → m < 32 → MutexFine none (k.gt_mutex m) × ((k.gt_mutex m).locked ≡ false))
    → ((task_create f idle addr tasks num k).0 ≡ sort_tasks num tasks)
      × Starts num (sort_tasks num tasks 0) k.gt_mutex (task_create f idle addr tasks num k).1
unfolding task_create
task_create-Starts f idle addr tasks num k e ok free =
    let b = argument_bounds addr tasks num e in
    rw e (
      refl,
      created-Starts f idle (sort_tasks num tasks) num (disable_interrupts k) b.1 b.0 free ok,
    )
