-- ===== src/Protocol/Take.antt =====
-- The dispatcher picks the next task (lab4/lab4/kernel/sched/ctx_switch.c).
use fundamental_of_emb.Common.{
  ℕ, ◌<◌, ◌≡◌, refl, sym, ◌∙◌, ap, Bool, true, false, some, update, is_some, ◌==◌, arith,
  Bool-cases, inl, inr, ==_iff,
}
use fundamental_of_emb.RunQueue.{Ptr, runqueue_remove, highest_prio}
use fundamental_of_emb.RunQueue.Inv.{is_runnable, runqueue_remove-IsValid}
use fundamental_of_emb.RunQueue.Highest.{highest_prio-least}
use fundamental_of_emb.Kernel.{Kernel, Mutex}
use fundamental_of_emb.Dispatch.{take_highest}
use fundamental_of_emb.Protocol.Defs.{
  Place, running, ready, slot, Ghost, exists, Queued, Placed, Parked, Inv, MutexFine,
}
use fundamental_of_emb.Protocol.Lists.{All-map, Chain-frame, count-ext, count-none}

abbrev pub is_awake : Place → Bool
is_awake running = true
is_awake ready = true
is_awake _ = false

-- A task that does not wait goes from the run queue to the processor, or back.
pub Placed-move :
    {n : ℕ} {k : Kernel} {g : Ghost} (x : ℕ) (p : Place) (k' : Kernel)
    → Placed n k g
    → (x < 63 → is_awake (g.place x) ≡ true)
    → is_awake p ≡ true
    → ((t : ℕ) → (k'.system_tcb t).sleep_queue ≡ (k.system_tcb t).sleep_queue)
    → ((d : ℕ) → k'.devices d ≡ k.devices d)
    → Placed n k' (record g { place = update g.place x p })
Placed-move {k} {g} x p k' h a b e d = record {
  present = λ t lt. ground (arith, h.present t lt);
  chained = λ i lt. rw (d i) (
      Chain-frame k.system_tcb k'.system_tcb (k.devices i).sleep_queue (g.queue i)
        (All-map (λ t m. e t) (g.queue i) (h.members i lt)) (h.chained i lt));
  distinct = h.distinct;
  members = λ i lt. All-map (λ t m. (m.0, ground (arith, m.0, m.1))) (g.queue i) (h.members i lt);
  complete = λ t i lt w. ground (arith, h.complete t i lt);
  sizes = λ i lt. h.sizes i lt ∙ count-ext 63 _ _ (λ t l. ground arith);
}

pub Placed-same :
    {n : ℕ} {k k' : Kernel} {g : Ghost}
    → Placed n k g
    → ((t : ℕ) → (k'.system_tcb t).sleep_queue ≡ (k.system_tcb t).sleep_queue)
    → ((d : ℕ) → k'.devices d ≡ k.devices d)
    → Placed n k' g
Placed-same {k} {k'} {g} h e d = record {
  present = h.present;
  chained = λ i lt. rw (d i) (
      Chain-frame k.system_tcb k'.system_tcb (k.devices i).sleep_queue (g.queue i)
        (All-map (λ t m. e t) (g.queue i) (h.members i lt)) (h.chained i lt));
  distinct = h.distinct;
  members = h.members;
  complete = h.complete;
  sizes = h.sizes;
}

some_slot : (p : Place) (t : ℕ) → is_some (slot p t) ≡ true → p ≡ ready
some_slot p t e = ground arith

pub MutexFine-free : {m : Mutex} {c d : Ptr} → MutexFine c m → m.locked ≡ false → MutexFine d m
MutexFine-free f e = record {
  holder = f.holder ∙ rw e;
  no_sleepers = f.no_sleepers;
  allocated = f.allocated;
}

module _ {n : ℕ} {k : Kernel} {g : Ghost} (h : Parked n k g) where
  abbrev pub chosen : ℕ
  chosen = highest_prio k.run_queue

  idle_runnable : is_runnable k.run_queue 63 ≡ true
  idle_runnable = h.queued.valid.listed 63 (omega arith) ∙ ap is_some h.queued.idle

  pub chosen-lt : chosen < 64
  chosen-lt = (highest_prio-least h.queued.valid 63 (omega arith) idle_runnable).0

  chosen_some : is_some (k.run_queue.run_list chosen) ≡ true
  chosen_some =
      sym (h.queued.valid.listed chosen chosen-lt)
      ∙ (highest_prio-least h.queued.valid 63 (omega arith) idle_runnable).1

  pub chosen_ready : chosen < 63 → g.place chosen ≡ ready
  chosen_ready lt =
      some_slot (g.place chosen) chosen (sym (ap is_some (h.queued.listed chosen lt)) ∙ chosen_some)

  chosen_self : k.run_queue.run_list chosen ≡ some chosen
  chosen_self = elim (Bool-cases (chosen == 63)) [
    | inl e ↦ let e' : chosen ≡ 63 = (==_iff chosen 63).0 e in rw e' h.queued.idle
    | inr e ↦
        let lt : chosen < 63 = ground (arith, chosen-lt) in
        h.queued.listed chosen lt ∙ rw (chosen_ready lt)
  ]

  pub chosen_exists : exists n chosen ≡ true
  chosen_exists = elim (Bool-cases (chosen == 63)) [
    | inl e ↦ rw e
    | inr e ↦
        let lt : chosen < 63 = ground (arith, chosen-lt) in
        ground (arith, chosen_ready lt, h.placed.present chosen lt)
  ]

  abbrev pub next : Ghost
  next = record g { place = update g.place chosen running }

  take-Queued : Queued (take_highest k) next
  unfolding take_highest runqueue_remove
  take-Queued = record {
    valid = runqueue_remove-IsValid h.queued.valid chosen chosen-lt;
    listed = λ t lt. ground (arith, h.queued.listed t lt);
    idle = ground (arith, h.queued.idle);
  }

  pub remove_self : (runqueue_remove k.run_queue chosen).0 ≡ some chosen
  unfolding runqueue_remove
  remove_self = ground (arith, chosen_self)

  -- The chosen task becomes the current one.
  pub take-Inv : Inv n (take_highest k) chosen next
  unfolding take_highest
  take-Inv = record {
    queued = take-Queued;
    placed =
        Placed-move chosen running (take_highest k) h.placed (λ lt. ground (arith, chosen_ready lt))
          refl (λ t. refl) (λ d. refl);
    cur = remove_self;
    in_use = (chosen-lt, chosen_exists);
    only = λ t lt. ground (arith, h.nobody t lt);
    resting = λ t lt e ne. h.resting t lt e;
    native = (h.resting chosen chosen-lt chosen_exists).native;
    ceiling = let r = h.resting chosen chosen-lt chosen_exists in ground (arith, r.prio, r.no_lock);
    counted =
        (h.resting chosen chosen-lt chosen_exists).no_lock
        ∙ sym (count-none 32 _ (λ m lt. (h.unlocked m lt).1));
    mutexes = λ m lt. MutexFine-free (h.unlocked m lt).0 (h.unlocked m lt).1;
  }
