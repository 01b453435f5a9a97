-- ===== src/Protocol/Pulse.antt =====
-- A timer interrupt, from the clock to the tasks it wakes (lab4/lab4/kernel/device.c and
-- lab4/lab4/kernel/arm/C_IRQ_handler.c).
use fundamental_of_emb.Common.{
  ℕ, ◌<◌, ◌≡◌, refl, sym, subst, ◌∙◌, ap, Bool, true, false, none, some, List, [], ◌∷◌, ltb, leb,
  ◌==◌, ==_iff, arith, Bool-cases, inl, inr, add32,
}
use fundamental_of_emb.RunQueue.{highest_prio}
use fundamental_of_emb.Kernel.{
  Kernel, Outcome, leave, Entry, interrupted, in_dev_update, current, tcb_at, Tcb, Dev,
}
use fundamental_of_emb.Dispatch.{dispatch_save, take_highest}
use fundamental_of_emb.Resume.{resume_if}
use fundamental_of_emb.Device.{dev_update, timer_irq, update_end}
use fundamental_of_emb.Protocol.Defs.{Ghost, Inv, Chain, waiting, contains}
use fundamental_of_emb.Protocol.Switch.{
  chosen_calm, clock-Inv, resume-calm, dispatch_save_lem, dispatch_save_stay, save-Inv,
}
use fundamental_of_emb.Protocol.Park.{park_ready}
use fundamental_of_emb.Protocol.Take.{take-Inv, is_awake, chosen, chosen_ready, next}
use fundamental_of_emb.Protocol.Update.{update_devs-Scanned}
use fundamental_of_emb.Protocol.Turn.{turned, Turned, update_devs-Turned}

-- A sound state behind the handler, with the devices, the clock and the mutexes of `k`; tasks that are
-- awake in `g` are awake, and those that wait are at their places.
record Goes (n : ℕ) (k : Kernel) (g : Ghost) (o : Outcome) : Type 0 where
  after : Kernel
  entry : Entry
  to : ℕ
  ghost : Ghost
  result : o ≡ leave after entry
  sound : Inv n after to ghost
  devices : after.devices ≡ k.devices
  clock : after.timer_count ≡ k.timer_count
  pool : after.gt_mutex ≡ k.gt_mutex
  awake : (t : ℕ) → t < 63 → is_awake (g.place t) ≡ true → is_awake (ghost.place t) ≡ true
  still : (t d : ℕ) → t < 63 → g.place t ≡ waiting d → ghost.place t ≡ waiting d

module _ {n : ℕ} {k : Kernel} {c : ℕ} {g : Ghost} (v : Inv n k c g) where
  stay-Goes : Goes n k g (leave (record k { irq = true }) interrupted)
  stay-Goes = record {
    after = record k { irq = true };
    entry = interrupted;
    to = c;
    ghost = g;
    result = refl;
    sound = clock-Inv true k.timer_count v;
    devices = refl;
    clock = refl;
    pool = refl;
    awake = λ t lt a. a;
    still = λ t d lt w. w;
  }

  switch-Goes :
      highest_prio k.run_queue < (k.system_tcb c).cur_prio
      → Goes n k g (resume_if in_dev_update (dispatch_save in_dev_update k))
  unfolding resume_if take_highest
  switch-Goes less =
      let free : (k.system_tcb c).holds_lock ≡ 0 = ground (arith, v.ceiling) in
      let prio : (k.system_tcb c).cur_prio ≡ c = ground (arith, v.ceiling) in
      let h = park_ready (save-Inv c in_dev_update refl v) (ground (arith, free)) (ground arith) in
      let w = take-Inv h in
      let back = resume-calm w (chosen_calm h) in
      record {
        after = _;
        entry = back.0;
        to = chosen h;
        ghost = next h;
        result =
            ap (resume_if in_dev_update)
              (dispatch_save_lem k in_dev_update v.cur prio (ground (arith, less, prio)))
            ∙ back.1;
        sound = clock-Inv true k.timer_count w;
        devices = refl;
        clock = refl;
        pool = refl;
        awake = λ t lt a. ground (arith, a);
        still = λ t d lt e.
            let mine : (c == t) ≡ false = ground (arith, v.only t lt, e) in
            elim (Bool-cases (chosen h == t)) [
              | inl q ↦
                  let same : chosen h ≡ t = (==_iff (chosen h) t).0 q in
                  absurd (ground (arith, chosen_ready h (omega (arith, same, lt)), same, e, mine))
              | inr ne ↦ ground (arith, ne, mine, e)
            ];
      }

  dispatch-Goes : Goes n k g (resume_if in_dev_update (dispatch_save in_dev_update k))
  unfolding resume_if
  dispatch-Goes =
      let prio_now : (current k).cur_prio ≡ (k.system_tcb c).cur_prio =
        ap (λ p. (tcb_at k.system_tcb p).cur_prio) v.cur in
      elim (Bool-cases (ltb (highest_prio k.run_queue) (k.system_tcb c).cur_prio)) [
        | inl less ↦ switch-Goes (ground arith)
        | inr stay ↦
            subst (λ p. Goes n k g (resume_if in_dev_update p))
              (sym (dispatch_save_stay k in_dev_update (ground (arith, prio_now)))) stay-Goes
      ]

  update_end-Goes : (flag : Bool) → Goes n k g (update_end (some (k, flag)))
  update_end-Goes true = dispatch-Goes
  update_end-Goes false = stay-Goes

-- The clock has moved on by ten. A device whose next match the clock has come to matches its period
-- later, has an empty sleep queue, and the tasks that waited for it are awake, which is to say current
-- or in the run queue; the other devices, the tasks that wait for them, and the mutexes are unchanged.
pub record Ticked (n : ℕ) (k : Kernel) (g : Ghost) (o : Outcome) : Type 0 where
  pub after : Kernel
  pub entry : Entry
  pub to : ℕ
  pub ghost : Ghost
  pub result : o ≡ leave after entry
  pub sound : Inv n after to ghost
  pub clock : after.timer_count ≡ add32 k.timer_count 10
  pub devices : (d : ℕ) → d < 4 → after.devices d ≡ turned (add32 k.timer_count 10) k d
  pub pool : after.gt_mutex ≡ k.gt_mutex
  pub wakes :
      (t d : ℕ)
      → t < 63
      → g.place t ≡ waiting d
      → leb (k.devices d).next_match (add32 k.timer_count 10) ≡ true
      → is_awake (ghost.place t) ≡ true
  pub still :
      (t d : ℕ)
      → t < 63
      → g.place t ≡ waiting d
      → leb (k.devices d).next_match (add32 k.timer_count 10) ≡ false
      → ghost.place t ≡ waiting d

-- The queue behind a null pointer.
no_member : (s : ℕ → Tcb) (xs : List ℕ) (t : ℕ) → Chain s none xs → contains t xs ≡ true → ⊥
unfolding contains
no_member s [] t c e = cc
no_member s (x ∷ xs) t c e = c

pub timer_irq-Ticked :
    {n : ℕ} {k : Kernel} {c : ℕ} {g : Ghost} → Inv n k c g → Ticked n k g (timer_irq k)
unfolding timer_irq dev_update
timer_irq-Ticked {n} {k} {c} {g} v =
    let now = add32 k.timer_count 10 in
    let start : Kernel = record k { timer_count = now; irq = false } in
    let s = update_devs-Scanned now 4 (clock-Inv false now v) (omega arith) in
    let t : Turned now 4 start (some (s.kern, s.flag)) =
      subst (Turned now 4 start) s.result (update_devs-Turned now start 4) in
    let e = update_end-Goes s.sound s.flag in
    record {
      after = e.after;
      entry = e.entry;
      to = e.to;
      ghost = e.ghost;
      result = ap update_end s.result ∙ e.result;
      sound = e.sound;
      clock = e.clock ∙ t.0;
      devices = λ d lt. ap (λ f. f d) e.devices ∙ t.1 d lt;
      pool = e.pool ∙ s.pool;
      wakes = λ x d lt w due. e.awake x lt (elim (s.rise x) [
        | inl same ↦
            let left : s.ghost.place x ≡ waiting d = same ∙ w in
            let in_queue = s.sound.placed.complete x d lt left in
            let cleared : (s.kern.devices d).sleep_queue ≡ none =
              ap (λ (i : Dev). i.sleep_queue) (t.1 d in_queue.0) ∙ rw due refl in
            absurd (
              no_member s.kern.system_tcb (s.ghost.queue d) x
                (subst (λ p. Chain s.kern.system_tcb p (s.ghost.queue d)) cleared
                  (s.sound.placed.chained d in_queue.0))
                in_queue.1)
        | inr a ↦ a
      ]);
      still = λ x d lt w early. e.still x d lt (s.still x d early w);
    }
