-- ===== src/Programs/Quiet.antt =====
-- Timer interrupts while no task waits for a device (lab4/lab4/kernel/device.c).
use fundamental_of_emb.Common.{
  ℕ, zero, suc, ◌<◌, ◌≤◌, ◌≡◌, refl, ap, ◌∙◌, Bool, true, false, none, some, update, leb, ◌==◌,
  add32, ptr_eq, arith, Bool-cases, inl, inr, Option, List, [], ◌∷◌,
}
use fundamental_of_emb.RunQueue.{Ptr}
use fundamental_of_emb.Kernel.{Kernel, Dev, Outcome, leave, interrupted}
use fundamental_of_emb.Device.{update_dev, update_devs, dev_update, timer_irq, wake_all}
use fundamental_of_emb.Programs.{Client, irqs, arrive, interrupted_by}

abbrev pub NobodyWaits : Kernel → Type 0
NobodyWaits k = (d : ℕ) → d < 4 → (k.devices d).sleep_queue ≡ none

-- The devices after a round, where nobody waits.
record Scanned (k : Kernel) (o : Option (Kernel × Bool)) : Type 0 where
  devices : ℕ → Dev
  result : o ≡ some (record k { devices = devices }, false)
  nobody : (d : ℕ) → d < 4 → (devices d).sleep_queue ≡ none

update_dev-Scanned :
    (millis i : ℕ) (k : Kernel) → i < 4 → NobodyWaits k → Scanned k (update_dev millis i k false)
unfolding update_dev wake_all
update_dev-Scanned millis i k lt quiet = elim (Bool-cases (leb (k.devices i).next_match millis)) [
  | inl due ↦
      rw (due, quiet i lt)
        (record {
          devices = update k.devices i _;
          result = refl;
          nobody =
              λ d l. elim (Bool-cases (i == d)) [ inl e ↦ rw e refl | inr ne ↦ rw ne (quiet d l) ];
        })
  | inr early ↦ rw early (record { devices = k.devices; result = refl; nobody = quiet })
]

update_devs-Scanned :
    (millis i : ℕ) (k : Kernel) → i ≤ 4 → NobodyWaits k → Scanned k (update_devs millis i k)
unfolding update_devs
update_devs-Scanned millis zero k le quiet = record {
  devices = k.devices;
  result = refl;
  nobody = quiet;
}
update_devs-Scanned millis (suc i) k le quiet =
    let s = update_devs-Scanned millis i k (omega (arith, le)) quiet in
    let r =
      update_dev-Scanned millis i (record k { devices = s.devices }) (omega (arith, le)) s.nobody in
    record { devices = r.devices; result = rw s.result r.result; nobody = r.nobody }

-- What the interrupts before a call leave.
pub record Later (k k' : Kernel) : Type 0 where
  pub mutexes : k'.gt_mutex ≡ k.gt_mutex
  pub current : k'.cur_tcb ≡ k.cur_tcb
  pub nobody : NobodyWaits k'

record Ticked (k : Kernel) (o : Outcome) : Type 0 where
  after : Kernel
  result : o ≡ leave after interrupted
  later : Later k after

timer_irq-Ticked : (k : Kernel) → NobodyWaits k → Ticked k (timer_irq k)
unfolding timer_irq dev_update
timer_irq-Ticked k quiet =
    let s =
      update_devs-Scanned (add32 k.timer_count 10) 4
        (record k { timer_count = add32 k.timer_count 10; irq = false }) (omega arith) quiet in
    record {
      after = record k { devices = s.devices; timer_count = add32 k.timer_count 10; irq = true };
      result = rw s.result refl;
      later = record { mutexes = refl; current = refl; nobody = s.nobody };
    }

self_test : (p : Ptr) → ptr_eq p p ≡ true
self_test none = refl
self_test (some c) = ground arith

pub record Interrupted (k : Kernel) (o : Option Kernel) : Type 0 where
  pub after : Kernel
  pub result : o ≡ some after
  pub later : Later k after

pub irqs-Interrupted : (n : ℕ) (k : Kernel) → NobodyWaits k → Interrupted k (irqs n k)
unfolding irqs
irqs-Interrupted zero k quiet = record {
  after = k;
  result = refl;
  later = record { mutexes = refl; current = refl; nobody = quiet };
}
irqs-Interrupted (suc n) k quiet =
    let before = irqs-Interrupted n k quiet in
    let t = timer_irq-Ticked before.after before.later.nobody in
    let same : ptr_eq t.after.cur_tcb before.after.cur_tcb ≡ true =
      ap (λ p. ptr_eq p before.after.cur_tcb) t.later.current ∙ self_test before.after.cur_tcb in
    record {
      after = t.after;
      result = rw (before.result, t.result, same) refl;
      later = record {
        mutexes = t.later.mutexes ∙ before.later.mutexes;
        current = t.later.current ∙ before.later.current;
        nobody = t.later.nobody;
      };
    }

-- A program that has come to its next call.
pub record Arrives (u : Client) (o : Option Client) : Type 0 where
  pub kernel : Kernel
  pub pending : List ℕ
  pub result : o ≡ some (record u { kernel = kernel; pending = pending })
  pub later : Later u.kernel kernel

interrupted_by-Arrives :
    (u : Client) (waiting : List ℕ)
    → NobodyWaits u.kernel
    → Arrives u (interrupted_by (record u { pending = waiting }) waiting)
interrupted_by-Arrives u [] quiet = record {
  kernel = u.kernel;
  pending = [];
  result = refl;
  later = record { mutexes = refl; current = refl; nobody = quiet };
}
interrupted_by-Arrives u (n ∷ rest) quiet =
    let i = irqs-Interrupted n u.kernel quiet in
    record { kernel = i.after; pending = rest; result = rw i.result refl; later = i.later }

-- While nobody waits for a device, the interrupts before a call change no mutex and come back to
-- the caller, which then makes the call.
pub arrive-Arrives : (u : Client) → NobodyWaits u.kernel → Arrives u (arrive u)
arrive-Arrives u quiet = interrupted_by-Arrives u u.pending quiet
