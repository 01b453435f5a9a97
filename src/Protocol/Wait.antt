-- ===== src/Protocol/Wait.antt =====
-- `event_wait` and `dev_wait` keep the invariant (lab4/lab4/kernel/device.c).
use fundamental_of_emb.Common.{
  ℕ, suc, ◌<◌, ◌≡◌, ◌≢◌, refl, sym, ◌∙◌, ap, true, false, some, List, [], ◌∷◌, ◌++◌, update, length,
  ◌==◌, arith, subst, Bool-cases, inl, inr, ==_iff,
}
use fundamental_of_emb.Kernel.{Outcome, Kernel, Tcb, in_dev_wait}
use fundamental_of_emb.Sleep.{append_sleeper}
use fundamental_of_emb.Dispatch.{save_context, take_highest}
use fundamental_of_emb.Resume.{resume}
use fundamental_of_emb.Device.{dev_wait, wait_on}
use fundamental_of_emb.Protocol.Defs.{
  waiting, is_waiting, Ghost, count, contains, Chain, All, Distinct, AtRest, Placed, Parked, Inv,
}
use fundamental_of_emb.Protocol.Lists.{
  All-map, All-append, Distinct-append, contains-append, length-append, count-ext, count-add,
  count-le, Chain-frame, contains-All,
}
use fundamental_of_emb.Protocol.Take.{Placed-same}
use fundamental_of_emb.Protocol.Switch.{IsFine, clock-Inv, switch-IsFine, dispatch_sleep_lem}
use fundamental_of_emb.Protocol.Park.{all_free}
use fundamental_of_emb.Protocol.Append.{Appended, append_sleeper_lem}

module _ {n : ℕ} {k : Kernel} {c : ℕ} {g : Ghost} (v : Inv n k c g)
    (free : (k.system_tcb c).holds_lock ≡ 0) (busy : c < 63) (d : ℕ) (hd : d < 4) where
  abbrev old_queue : List ℕ
  old_queue = g.queue d

  -- No waiting task is the current one.
  not_me : All (λ t. t ≢ c) old_queue
  not_me = All-map (λ t m e. ground (arith, m.1, v.only c busy)) old_queue (v.placed.members d hd)

  not_me-contains : contains c old_queue ≡ false
  not_me-contains = elim (Bool-cases (contains c old_queue)) [
    | inl e ↦ absurd (contains-All (λ t. t ≢ c) c old_queue not_me e refl)
    | inr e ↦ e
  ]

  pub sleeper :
      Appended k.system_tcb c old_queue
        (append_sleeper k.system_tcb (k.devices d).sleep_queue (some c))
  sleeper =
      append_sleeper_lem k.system_tcb (k.devices d).sleep_queue old_queue c
        (omega (arith, v.placed.sizes d hd, count-le 63 (λ t. is_waiting d (g.place t))))
        (v.placed.chained d hd) (v.placed.distinct d hd) not_me

  abbrev pub asleep : Kernel
  asleep = record k {
    devices = update k.devices d (record (k.devices d) { sleep_queue = sleeper.head });
    system_tcb = sleeper.blocks;
  }

  abbrev pub as_waiting : Ghost
  as_waiting = record {
    place = update g.place c (waiting d);
    queue = update g.queue d (old_queue ++ c ∷ []);
  }

  not_cur : (t e : ℕ) → t < 63 → g.place t ≡ waiting e → c ≢ t
  not_cur t e lt w q = ground (arith, v.only t lt)

  elsewhere :
      (t e : ℕ) → t < 63 → g.place t ≡ waiting e → (d == e) ≡ false → contains t old_queue ≡ false
  elsewhere t e lt w ne = elim (Bool-cases (contains t old_queue)) [
    | inl q ↦
        let m =
          contains-All (λ i. (i < 63) × (g.place i ≡ waiting d)) t old_queue (v.placed.members d hd)
            q in
        absurd (ground (arith, m.1))
    | inr q ↦ q
  ]

  -- The other queues have other members.
  frame :
      (e : ℕ)
      → e < 4
      → (d == e) ≡ false
      → All (λ t. (sleeper.blocks t).sleep_queue ≡ (k.system_tcb t).sleep_queue) (g.queue e)
  frame e he ne =
      All-map (λ t m. sleeper.others t (not_cur t e m.0 m.1) (elsewhere t e m.0 m.1 ne)) (g.queue e)
        (v.placed.members e he)

  wait-chained :
      (e : ℕ) → e < 4 → Chain asleep.system_tcb (asleep.devices e).sleep_queue (as_waiting.queue e)
  wait-chained e he = elim (Bool-cases (d == e)) [
    | inl s ↦ rw s sleeper.chain
    | inr s ↦ rw s (
        Chain-frame k.system_tcb sleeper.blocks (k.devices e).sleep_queue (g.queue e) (frame e he s)
          (v.placed.chained e he))
  ]

  wait-Distinct : (e : ℕ) → e < 4 → Distinct (as_waiting.queue e)
  wait-Distinct e he = elim (Bool-cases (d == e)) [
    | inl s ↦ rw s (Distinct-append old_queue c (v.placed.distinct d hd) not_me)
    | inr s ↦ rw s (v.placed.distinct e he)
  ]

  abbrev InPlace : ℕ → ℕ → Type 0
  InPlace e t = (t < 63) × (as_waiting.place t ≡ waiting e)

  kept : (e t : ℕ) → (t < 63) × (g.place t ≡ waiting e) → InPlace e t
  kept e t m = (m.0, ground (arith, m.1, not_cur t e m.0 m.1))

  wait-members : (e : ℕ) → e < 4 → All (InPlace e) (as_waiting.queue e)
  wait-members e he = elim (Bool-cases (d == e)) [
    | inl s ↦
        subst (λ i. All (InPlace i) (as_waiting.queue i)) ((==_iff d e).0 s)
          (rw here (
            All-append (InPlace d) old_queue c (All-map (kept d) old_queue (v.placed.members d hd))
              (busy, ground arith)))
    | inr s ↦ rw s (All-map (kept e) (g.queue e) (v.placed.members e he))
  ]
    where
      here : (d == d) ≡ true
      here = ground arith

  wait_complete :
      (t e : ℕ)
      → t < 63
      → as_waiting.place t ≡ waiting e
      → (e < 4) × (contains t (as_waiting.queue e) ≡ true)
  wait_complete t e lt w = ground (arith, contains-append t old_queue c, v.placed.complete t e lt)

  abbrev HasSize : ℕ → Type 0
  HasSize e = length (as_waiting.queue e) ≡ count 63 (λ t. is_waiting e (as_waiting.place t))

  grown : HasSize d
  grown = rw here (
      length-append old_queue c
      ∙ ap suc (v.placed.sizes d hd)
      ∙ sym (
          count-add 63 (λ t. is_waiting d (g.place t)) (λ t. is_waiting d (as_waiting.place t)) c
            busy (ground (arith, v.only c busy)) (ground arith)
            (λ t lt ne. ground (arith, v.only t lt))))
    where
      here : (d == d) ≡ true
      here = ground arith

  wait-sizes :
      (e : ℕ)
      → e < 4
      → length (as_waiting.queue e) ≡ count 63 (λ t. is_waiting e (as_waiting.place t))
  wait-sizes e he = elim (Bool-cases (d == e)) [
    | inl s ↦ subst HasSize ((==_iff d e).0 s) grown
    | inr s ↦ rw s (v.placed.sizes e he ∙ count-ext 63 _ _ (λ t l. ground (arith, v.only t l)))
  ]

  wait-Placed : Placed n asleep as_waiting
  wait-Placed = record {
    present = λ t lt. ground (arith, v.placed.present t lt, v.only t lt);
    chained = wait-chained;
    distinct = wait-Distinct;
    members = wait-members;
    complete = wait_complete;
    sizes = wait-sizes;
  }

  native_kept : (t : ℕ) → (sleeper.blocks t).native_prio ≡ (k.system_tcb t).native_prio
  native_kept t = ap (λ (b : Tcb). b.native_prio) (sleeper.fields t)

  prio_kept : (t : ℕ) → (sleeper.blocks t).cur_prio ≡ (k.system_tcb t).cur_prio
  prio_kept t = ap (λ (b : Tcb). b.cur_prio) (sleeper.fields t)

  holds_kept : (t : ℕ) → (sleeper.blocks t).holds_lock ≡ (k.system_tcb t).holds_lock
  holds_kept t = ap (λ (b : Tcb). b.holds_lock) (sleeper.fields t)

  calm_kept : (t : ℕ) → (sleeper.blocks t).context.lr ≡ (k.system_tcb t).context.lr
  calm_kept t = ap (λ (b : Tcb). b.context.lr) (sleeper.fields t)

  saved : ℕ → Tcb
  saved = (save_context (some c) in_dev_wait asleep).system_tcb

  saved_caller : (saved c).context.lr ≡ in_dev_wait
  unfolding saved
  saved_caller = ground arith

  saved_others : (t : ℕ) → (c == t) ≡ false → (saved t).context.lr ≡ (k.system_tcb t).context.lr
  unfolding saved
  saved_others t s = rw s (calm_kept t)

  cur_rest : AtRest n c (saved c)
  unfolding saved
  cur_rest = record {
    native = ground (arith, native_kept c, v.native);
    prio = ground (arith, prio_kept c, v.ceiling, free);
    no_lock = ground (arith, holds_kept c, free);
    calm = ground arith;
  }

  other_rest : (t : ℕ) → (c == t) ≡ false → AtRest n t (k.system_tcb t) → AtRest n t (saved t)
  unfolding saved
  other_rest t s r = record {
    native = ground (arith, native_kept t, r.native);
    prio = ground (arith, prio_kept t, r.prio);
    no_lock = ground (arith, holds_kept t, r.no_lock);
    calm = ground (arith, calm_kept t, r.calm);
  }

  wait-Parked : Parked n (save_context (some c) in_dev_wait asleep) as_waiting
  unfolding saved
  wait-Parked = record {
    queued = record {
      valid = v.queued.valid;
      listed = λ t lt. ground (arith, v.queued.listed t lt, v.only t lt);
      idle = v.queued.idle;
    };
    placed = Placed-same wait-Placed (λ t. ground arith) (λ i. refl);
    nobody = λ t lt. ground (arith, v.only t lt);
    resting = λ t lt e. elim (Bool-cases (c == t)) [
      | inl s ↦ subst (λ i. AtRest n i (saved i)) ((==_iff c t).0 s) cur_rest
      | inr s ↦ other_rest t s (v.resting t lt e (λ q. ground arith))
    ];
    unlocked = all_free v free;
  }

-- A call of task `c` that switches from a state in which every task is parked: the caller at its wait,
-- the others where they were, the waiting ones still waiting, with the mutexes as they were.
pub record Switches (n : ℕ) (k : Kernel) (c : ℕ) (g : Ghost) (d : ℕ) (o : Outcome) : Type 0 where
  pub before : Kernel
  pub ghost : Ghost
  pub parked : Parked n before ghost
  pub result : o ≡ resume (take_highest before)
  pub pool : before.gt_mutex ≡ k.gt_mutex
  pub caller : (before.system_tcb c).context.lr ≡ in_dev_wait
  pub others :
      (t : ℕ) → (c == t) ≡ false → (before.system_tcb t).context.lr ≡ (k.system_tcb t).context.lr
  pub waits : ghost.place c ≡ waiting d
  pub line : ghost.queue d ≡ g.queue d ++ c ∷ []
  pub clock : before.timer_count ≡ k.timer_count
  pub matches : (e : ℕ) → (before.devices e).next_match ≡ (k.devices e).next_match
  pub still : (t e : ℕ) → t < 63 → g.place t ≡ waiting e → ghost.place t ≡ waiting e

pub dev_wait-Switches :
    {n : ℕ} {k : Kernel} {c : ℕ} {g : Ghost}
    → Inv n k c g
    → (k.system_tcb c).holds_lock ≡ 0
    → c < 63
    → (d : ℕ) → d < 4
    → Switches n k c g d (dev_wait d k)
unfolding dev_wait saved
dev_wait-Switches {n} {k} {c} {g} v free busy d hd = record {
  before = save_context (some c) in_dev_wait (asleep v' free busy d hd);
  ghost = as_waiting v' free busy d hd;
  parked = wait-Parked v' free busy d hd;
  result =
      ap (λ p. wait_on d k' (append_sleeper k.system_tcb (k.devices d).sleep_queue p)) v.cur
      ∙ ap (wait_on d k') (sleeper v' free busy d hd).result
      ∙ ap resume (dispatch_sleep_lem (asleep v' free busy d hd) in_dev_wait v.cur);
  pool = refl;
  caller = saved_caller v' free busy d hd;
  others = saved_others v' free busy d hd;
  waits = ground arith;
  line = ground arith;
  clock = refl;
  matches = λ e. ground arith;
  still = λ t e lt w. (kept v' free busy d hd e t (lt, w)).1;
}
  where
    v' : Inv n (record k { irq = false; timer_count = k.timer_count }) c g
    v' = clock-Inv false k.timer_count v

    k' : Kernel
    k' = record k { irq = false }

-- `dev_wait` on one of the four devices, called by a task without a lock, comes back to user mode
-- in a sound state: the traversal of the sleep queue ends, and there is a task to switch to.
pub dev_wait-IsFine :
    {n : ℕ} {k : Kernel} {c : ℕ} {g : Ghost}
    → Inv n k c g
    → (k.system_tcb c).holds_lock ≡ 0
    → c < 63
    → (d : ℕ) → d < 4
    → IsFine n (dev_wait d k)
dev_wait-IsFine {n} v free busy d hd =
    let s = dev_wait-Switches v free busy d hd in
    subst (IsFine n) (sym s.result) (switch-IsFine s.parked)
