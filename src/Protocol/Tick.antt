-- ===== src/Protocol/Tick.antt =====
-- `dev_update` keeps the invariant (lab4/lab4/kernel/device.c).
use fundamental_of_emb.Common.{
  ℕ, ◌<◌, ◌≡◌, ◌≢◌, sym, ◌∙◌, ap, false, none, List, [], update, length, ◌==◌, if◌then◌else◌, arith,
  Bool-cases, inl, inr,
}
use fundamental_of_emb.Kernel.{Kernel, Tcb, Dev}
use fundamental_of_emb.Sleep.{queue_fuel}
use fundamental_of_emb.Device.{wake_all}
use fundamental_of_emb.Protocol.Defs.{
  ready, waiting, is_waiting, Ghost, count, contains, Chain, All, Distinct, is_calm, AtRest, Queued,
  Placed, Inv,
}
use fundamental_of_emb.Protocol.Lists.{
  All-map, count-ext, count-le, count-none, Chain-frame, contains-All,
}
use fundamental_of_emb.Protocol.Wake.{add_all, add_all-IsValid, add_all_lem, Woken, wake_all_lem}

module _ {n : ℕ} {k : Kernel} {c : ℕ} {g : Ghost} (v : Inv n k c g) (d : ℕ) (hd : d < 4) (d' : Dev)
    (clear : d'.sleep_queue ≡ none) where
  abbrev sleepers : List ℕ
  sleepers = g.queue d

  -- A waiting task is not the current one, and is at rest.
  resting_sleeper :
      (t e : ℕ) → t < 63 → g.place t ≡ waiting e → (c ≢ t) × AtRest n t (k.system_tcb t)
  resting_sleeper t e lt w =
      let ne : c ≢ t = λ q. ground (arith, v.only t lt) in
      (ne, v.resting t (omega arith) (ground (arith, v.placed.present t lt)) ne)

  pub woken_up :
      Woken k.system_tcb sleepers k.run_queue
        (wake_all queue_fuel (k.devices d).sleep_queue k.run_queue k.system_tcb)
  woken_up =
      wake_all_lem queue_fuel k.system_tcb (k.devices d).sleep_queue sleepers k.run_queue
        (omega (arith, v.placed.sizes d hd, count-le 63 (λ t. is_waiting d (g.place t))))
        (v.placed.chained d hd) (v.placed.distinct d hd)
        (All-map (λ t m. (resting_sleeper t d m.0 m.1).1.prio) sleepers (v.placed.members d hd))

  abbrev pub after : Kernel
  after = record k {
    devices = update k.devices d d';
    run_queue = add_all k.run_queue sleepers;
    system_tcb = woken_up.blocks;
  }

  abbrev pub as_woken : Ghost
  as_woken = record {
    place = λ t. if is_waiting d (g.place t) then ready else g.place t;
    queue = update g.queue d [];
  }

  -- Being in the queue and waiting for the device are the same.
  member_lem : (t : ℕ) → t < 63 → contains t sleepers ≡ is_waiting d (g.place t)
  member_lem t lt = elim (Bool-cases (contains t sleepers)) [
    | inl q ↦
        let m =
          contains-All (λ i. (i < 63) × (g.place i ≡ waiting d)) t sleepers (v.placed.members d hd)
            q in
        ground (arith, m.1, q)
    | inr q ↦ ground (arith, q, v.placed.complete t d lt)
  ]

  idle_awake : contains 63 sleepers ≡ false
  idle_awake = elim (Bool-cases (contains 63 sleepers)) [
    | inl q ↦
        let m =
          contains-All (λ i. (i < 63) × (g.place i ≡ waiting d)) 63 sleepers (v.placed.members d hd)
            q in
        absurd (omega arith)
    | inr q ↦ q
  ]

  wake-Queued : Queued after as_woken
  wake-Queued = record {
    valid =
        add_all-IsValid k.run_queue sleepers v.queued.valid
          (All-map (λ t m. omega arith) sleepers (v.placed.members d hd));
    listed = λ t lt.
        add_all_lem k.run_queue sleepers t ∙ ground (arith, member_lem t lt, v.queued.listed t lt);
    idle = add_all_lem k.run_queue sleepers 63 ∙ ground (arith, idle_awake, v.queued.idle);
  }

  wake-chained :
      (e : ℕ) → e < 4 → Chain after.system_tcb (after.devices e).sleep_queue (as_woken.queue e)
  wake-chained e he = elim (Bool-cases (d == e)) [
    | inl s ↦ rw (s, clear) tt
    | inr s ↦ rw s (
        Chain-frame k.system_tcb woken_up.blocks (k.devices e).sleep_queue (g.queue e)
          (All-map (λ t m. woken_up.others t (member_lem t m.0 ∙ ground (arith, m.1))) (g.queue e)
            (v.placed.members e he))
          (v.placed.chained e he))
  ]

  abbrev InPlace : ℕ → ℕ → Type 0
  InPlace e t = (t < 63) × (as_woken.place t ≡ waiting e)

  wake-members : (e : ℕ) → e < 4 → All (InPlace e) (as_woken.queue e)
  wake-members e he = elim (Bool-cases (d == e)) [
    | inl s ↦ rw s tt
    | inr s ↦ rw s (All-map (λ t m. (m.0, ground (arith, m.1))) (g.queue e) (v.placed.members e he))
  ]

  wake-Distinct : (e : ℕ) → e < 4 → Distinct (as_woken.queue e)
  wake-Distinct e he = elim (Bool-cases (d == e)) [
    | inl s ↦ rw s tt
    | inr s ↦ rw s (v.placed.distinct e he)
  ]

  wake-sizes :
      (e : ℕ) → e < 4 → length (as_woken.queue e) ≡ count 63 (λ t. is_waiting e (as_woken.place t))
  wake-sizes e he = elim (Bool-cases (d == e)) [
    | inl s ↦ rw s (sym (count-none 63 _ (λ t l. ground arith)))
    | inr s ↦ rw s (v.placed.sizes e he ∙ count-ext 63 _ _ (λ t l. ground arith))
  ]

  wake-Placed : Placed n after as_woken
  wake-Placed = record {
    present = λ t lt. ground (arith, v.placed.present t lt);
    chained = wake-chained;
    distinct = wake-Distinct;
    members = wake-members;
    complete = λ t e lt w. ground (arith, v.placed.complete t e lt);
    sizes = wake-sizes;
  }

  abbrev SameButLink : ℕ → Type 0
  SameButLink t =
      ◌≡◌ {A = Tcb} (woken_up.blocks t)
        (record (k.system_tcb t) { sleep_queue = (woken_up.blocks t).sleep_queue })

  rest_kept : (t : ℕ) → AtRest n t (k.system_tcb t) → AtRest n t (woken_up.blocks t)
  rest_kept t r =
      let same : SameButLink t = woken_up.fields t in
      record {
        native = ap (λ (b : Tcb). b.native_prio) same ∙ r.native;
        prio = ap (λ (b : Tcb). b.cur_prio) same ∙ r.prio;
        no_lock = ap (λ (b : Tcb). b.holds_lock) same ∙ r.no_lock;
        calm = ap (λ (b : Tcb). is_calm b.context.lr) same ∙ r.calm;
      }

  pub holds_same : (woken_up.blocks c).holds_lock ≡ (k.system_tcb c).holds_lock
  holds_same = ap (λ (b : Tcb). b.holds_lock) (woken_up.fields c)

  -- The tasks that wait for device `d` become ready.
  pub wake-Inv : Inv n after c as_woken
  wake-Inv = record {
    queued = wake-Queued;
    placed = wake-Placed;
    cur = v.cur;
    in_use = v.in_use;
    only = λ t lt. ground (arith, v.only t lt);
    resting = λ t lt e ne. rest_kept t (v.resting t lt e ne);
    native = ap (λ (b : Tcb). b.native_prio) (woken_up.fields c) ∙ v.native;
    ceiling =
        ap (λ (b : Tcb). b.cur_prio) (woken_up.fields c)
        ∙ v.ceiling
        ∙ ap (λ h. if h == 0 then c else 0) (sym holds_same);
    counted = holds_same ∙ v.counted;
    mutexes = v.mutexes;
  }
