-- ===== src/Protocol/Update.antt =====
-- `dev_update` and the timer interrupt (lab4/lab4/kernel/device.c, lab4/lab4/kernel/arm).
use fundamental_of_emb.Common.{
  ℕ, zero, suc, ◌≤◌, ◌<◌, ◌≡◌, refl, sym, ◌∙◌, ap, Bool, true, false, none, some, update, ltb, leb,
  arith, subst, ◌⊎◌, Bool-cases, inl, inr, ◌||◌, is_some, add32,
}
use fundamental_of_emb.RunQueue.{highest_prio}
use fundamental_of_emb.Kernel.{Kernel, Tcb, Dev, in_dev_update, current, tcb_at}
use fundamental_of_emb.Dispatch.{dispatch_save}
use fundamental_of_emb.Resume.{resume_if}
use fundamental_of_emb.Device.{
  dev_freq, update_dev, update_next, update_devs, update_end, woken, dev_update, timer_irq, Scan,
}
use fundamental_of_emb.Protocol.Defs.{Ghost, Inv, Place, waiting, is_waiting}
use fundamental_of_emb.Protocol.Take.{is_awake}
use fundamental_of_emb.Protocol.Switch.{
  IsFine, clock-Inv, save-Inv, switch-IsFine, dispatch_save_lem, dispatch_save_stay,
}
use fundamental_of_emb.Protocol.Park.{park_ready}
use fundamental_of_emb.Protocol.Tick.{after, as_woken, wake-Inv, woken_up, holds_same}

-- A part of the scan ends in a state that is sound for the same current task and its locks, with the
-- same mutexes, and with every task's context where it was. The tasks of a device whose next match is
-- still to come wait on, and every task is at its place or awake.
pub record Scanned (n : ℕ) (k : Kernel) (c : ℕ) (g : Ghost) (millis : ℕ) (o : Scan) : Type 0 where
  pub kern : Kernel
  pub flag : Bool
  pub ghost : Ghost
  pub result : o ≡ some (kern, flag)
  pub sound : Inv n kern c ghost
  pub holds : (kern.system_tcb c).holds_lock ≡ (k.system_tcb c).holds_lock
  pub pool : kern.gt_mutex ≡ k.gt_mutex
  pub points : (t : ℕ) → (kern.system_tcb t).context.lr ≡ (k.system_tcb t).context.lr
  pub early :
      (d : ℕ)
      → leb (k.devices d).next_match millis ≡ false
      → (kern.devices d).next_match ≡ (k.devices d).next_match
  pub rise : (t : ℕ) → (ghost.place t ≡ g.place t) ⊎ (is_awake (ghost.place t) ≡ true)
  pub still :
      (t d : ℕ)
      → leb (k.devices d).next_match millis ≡ false
      → g.place t ≡ waiting d
      → ghost.place t ≡ waiting d

update_dev-Scanned :
    {n : ℕ} {k : Kernel} {c : ℕ} {g : Ghost} (millis i : ℕ) (flag : Bool)
    → Inv n k c g
    → i < 4
    → Scanned n k c g millis (update_dev millis i k flag)
unfolding update_dev
update_dev-Scanned {n} {k} {c} {g} millis i flag v lt =
    elim (Bool-cases (leb (k.devices i).next_match millis)) [
      | inl due ↦ record {
        kern = after v i lt d' refl;
        flag = flag || is_some (k.devices i).sleep_queue;
        ghost = as_woken v i lt d' refl;
        result = rw due (
            ap
              (woken (record k { devices = update k.devices i d' })
                (flag || is_some (k.devices i).sleep_queue))
              (woken_up v i lt d' refl).result);
        sound = wake-Inv v i lt d' refl;
        holds = holds_same v i lt d' refl;
        pool = refl;
        points = λ t. ap (λ (b : Tcb). b.context.lr) ((woken_up v i lt d' refl).fields t);
        early = λ d e. ground (arith, due, e);
        rise = λ t. elim (Bool-cases (is_waiting i (g.place t))) [
          | inl e ↦ inr (rw e refl)
          | inr e ↦ inl (rw e refl)
        ];
        still = λ t d e w. ground (arith, due, e, w);
      }
      | inr not_due ↦ record {
        kern = k;
        flag = flag;
        ghost = g;
        result = rw not_due;
        sound = v;
        holds = refl;
        pool = refl;
        points = λ t. refl;
        early = λ d e. refl;
        rise = λ t. inl refl;
        still = λ t d e w. w;
      }
    ]
  where
    d' : Dev
    d' = record { next_match = add32 millis (dev_freq i); sleep_queue = none }

rise_again :
    {p q r : Place}
    → (q ≡ p) ⊎ (is_awake q ≡ true)
    → (r ≡ q) ⊎ (is_awake r ≡ true)
    → (r ≡ p) ⊎ (is_awake r ≡ true)
rise_again first (inr a) = inr a
rise_again (inl e) (inl e') = inl (e' ∙ e)
rise_again (inr a) (inl e') = inr (ap is_awake e' ∙ a)

update_next-Scanned :
    {n : ℕ} {k : Kernel} {c : ℕ} {g : Ghost} (millis i : ℕ) (o : Scan)
    → i < 4
    → Scanned n k c g millis o
    → Scanned n k c g millis (update_next millis i o)
update_next-Scanned millis i o lt s =
    let r = update_dev-Scanned millis i s.flag s.sound lt in
    record {
      kern = r.kern;
      flag = r.flag;
      ghost = r.ghost;
      result = rw s.result r.result;
      sound = r.sound;
      holds = r.holds ∙ s.holds;
      pool = r.pool ∙ s.pool;
      points = λ t. r.points t ∙ s.points t;
      early = λ d e. r.early d (ap (λ m. leb m millis) (s.early d e) ∙ e) ∙ s.early d e;
      rise = λ t. rise_again (s.rise t) (r.rise t);
      still = λ t d e w. r.still t d (ap (λ m. leb m millis) (s.early d e) ∙ e) (s.still t d e w);
    }

pub update_devs-Scanned :
    {n : ℕ} {k : Kernel} {c : ℕ} {g : Ghost} (millis i : ℕ)
    → Inv n k c g
    → i ≤ 4
    → Scanned n k c g millis (update_devs millis i k)
unfolding update_devs
update_devs-Scanned {n} {k} {c} {g} millis zero v le = record {
  kern = k;
  flag = false;
  ghost = g;
  result = refl;
  sound = v;
  holds = refl;
  pool = refl;
  points = λ t. refl;
  early = λ d e. refl;
  rise = λ t. inl refl;
  still = λ t d e w. w;
}
update_devs-Scanned millis (suc i) v le =
    update_next-Scanned millis i _ (omega arith) (update_devs-Scanned millis i v (omega arith))

cur_prio_lem :
    {n : ℕ} {k : Kernel} {c : ℕ} {g : Ghost}
    → Inv n k c g
    → (current k).cur_prio ≡ (k.system_tcb c).cur_prio
cur_prio_lem {k} v = ap (λ q. (tcb_at k.system_tcb q).cur_prio) v.cur

-- `dispatch_save` from the interrupt handler: it switches to a sound state, or stays.
pub dispatch-IsFine :
    {n : ℕ} {k : Kernel} {c : ℕ} {g : Ghost}
    → Inv n k c g
    → IsFine n (resume_if in_dev_update (dispatch_save in_dev_update k))
unfolding resume_if
dispatch-IsFine {n} {k} {c} {g} v =
    elim (Bool-cases (ltb (highest_prio k.run_queue) (k.system_tcb c).cur_prio)) [
      | inl less ↦
          let free : (k.system_tcb c).holds_lock ≡ 0 = ground (arith, v.ceiling) in
          let prio : (k.system_tcb c).cur_prio ≡ c = ground (arith, v.ceiling) in
          subst (λ p. IsFine n (resume_if in_dev_update p))
            (sym (dispatch_save_lem k in_dev_update v.cur prio (ground arith)))
            (switch-IsFine
              (park_ready (save-Inv c in_dev_update refl v) (ground (arith, free)) (ground arith)))
      | inr stay ↦
          subst (λ p. IsFine n (resume_if in_dev_update p))
            (sym (dispatch_save_stay k in_dev_update (ground (arith, cur_prio_lem v))))
            (c, g, clock-Inv true k.timer_count v)
    ]

update_end-IsFine :
    {n : ℕ} {k : Kernel} {c : ℕ} {g : Ghost} (flag : Bool)
    → Inv n k c g
    → IsFine n (update_end (some (k, flag)))
update_end-IsFine true v = dispatch-IsFine v
update_end-IsFine {k} {c} {g} false v = (c, g, clock-Inv true k.timer_count v)

-- `dev_update` ends, wakes tasks and perhaps switches, and comes back in a sound state.
pub dev_update-IsFine :
    {n : ℕ} {k : Kernel} {c : ℕ} {g : Ghost} (millis : ℕ)
    → Inv n k c g
    → IsFine n (dev_update millis k)
unfolding dev_update
dev_update-IsFine {n} millis v =
    let s = update_devs-Scanned millis 4 v (omega arith) in
    subst (λ o. IsFine n (update_end o)) (sym s.result) (update_end-IsFine s.flag s.sound)

-- A timer interrupt ends in a sound state.
pub timer_irq-IsFine :
    {n : ℕ} {k : Kernel} {c : ℕ} {g : Ghost} → Inv n k c g → IsFine n (timer_irq k)
unfolding timer_irq
timer_irq-IsFine {k} v =
    dev_update-IsFine (add32 k.timer_count 10) (clock-Inv false (add32 k.timer_count 10) v)
