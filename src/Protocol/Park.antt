-- ===== src/Protocol/Park.antt =====
-- The current task gives up the processor: it becomes ready, or waits for a device.
use fundamental_of_emb.Common.{
  ℕ, ◌<◌, ◌≡◌, refl, true, false, none, some, update, ◌==◌, arith, subst, Bool-cases, inl, inr,
  ==_iff,
}
use fundamental_of_emb.RunQueue.{runqueue_add}
use fundamental_of_emb.RunQueue.Inv.{runqueue_add-IsValid}
use fundamental_of_emb.Kernel.{Kernel}
use fundamental_of_emb.Protocol.Defs.{ready, Ghost, is_calm, AtRest, Queued, Parked, Inv, MutexFine}
use fundamental_of_emb.Protocol.Lists.{count-pos}
use fundamental_of_emb.Protocol.Take.{Placed-move, MutexFine-free}

module _ {n : ℕ} {k : Kernel} {c : ℕ} {g : Ghost} (v : Inv n k c g)
    (free : (k.system_tcb c).holds_lock ≡ 0) where
  -- Without a lock, the current task is like the others, but for its context.
  pub current_rest : is_calm (k.system_tcb c).context.lr ≡ true → AtRest n c (k.system_tcb c)
  current_rest e = record {
    native = v.native;
    prio = ground (arith, v.ceiling);
    no_lock = free;
    calm = e;
  }

  -- No mutex is locked.
  pub none_locked : (m : ℕ) → m < 32 → (k.gt_mutex m).locked ≡ false
  none_locked m lt = elim (Bool-cases (k.gt_mutex m).locked) [
    | inl e ↦ absurd (omega (arith, v.counted, count-pos 32 (λ i. (k.gt_mutex i).locked) m lt e))
    | inr e ↦ e
  ]

  pub all_free : (m : ℕ) → m < 32 → MutexFine none (k.gt_mutex m) × ((k.gt_mutex m).locked ≡ false)
  all_free m lt = (MutexFine-free (v.mutexes m lt) (none_locked m lt), none_locked m lt)

  abbrev as_ready : Ghost
  as_ready = record g { place = update g.place c ready }

  abbrev add_current : Kernel
  add_current = record k { run_queue = runqueue_add k.run_queue (some c) c }

  add-Queued : Queued add_current as_ready
  unfolding runqueue_add
  add-Queued = record {
    valid = runqueue_add-IsValid v.queued.valid c c v.in_use.0;
    listed = λ t lt. ground (arith, v.queued.listed t lt);
    idle = ground (arith, v.queued.idle);
  }

  -- The current task goes back to the run queue.
  pub park_ready : is_calm (k.system_tcb c).context.lr ≡ true → Parked n add_current as_ready
  park_ready calm = record {
    queued = add-Queued;
    placed =
        Placed-move c ready add_current v.placed (λ lt. ground (arith, v.only c lt)) refl
          (λ t. refl) (λ d. refl);
    nobody = λ t lt. ground (arith, v.only t lt);
    resting = λ t lt e. elim (Bool-cases (c == t)) [
      | inl s ↦ subst (λ i. AtRest n i (k.system_tcb i)) ((==_iff c t).0 s) (current_rest calm)
      | inr s ↦ v.resting t lt e (λ q. ground arith)
    ];
    unlocked = all_free;
  }
