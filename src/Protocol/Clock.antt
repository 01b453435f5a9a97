-- ===== src/Protocol/Clock.antt =====
-- The clock and the next matches of the devices (lab4/lab4/kernel/device.c).
use fundamental_of_emb.Common.{
  ℕ, ◌<◌, ◌≡◌, refl, sym, subst, ◌∙◌, ap, false, ltb, leb, arith, Bool-cases, inl, inr, add32,
  if◌then◌else◌,
}
use fundamental_of_emb.Kernel.{Kernel, Outcome, leave, stuck, current, tcb_at, Dev}
use fundamental_of_emb.Dispatch.{take_highest}
use fundamental_of_emb.Resume.{resume}
use fundamental_of_emb.Device.{dev_freq, event_wait, timer_irq}
use fundamental_of_emb.Protocol.Defs.{Ghost, Inv, Parked}
use fundamental_of_emb.Protocol.Switch.{chosen_calm, resume-calm}
use fundamental_of_emb.Protocol.Take.{take-Inv}
use fundamental_of_emb.Protocol.Pulse.{timer_irq-Ticked}
use fundamental_of_emb.Protocol.Wait.{dev_wait-Switches}

-- The clock and the next matches.
abbrev pub Reads : ℕ → (ℕ → ℕ) → Kernel → Type 0
Reads now next k = (k.timer_count ≡ now) × ((d : ℕ) → d < 4 → (k.devices d).next_match ≡ next d)

abbrev pub LeavesReads : ℕ → (ℕ → ℕ) → Outcome → Type 0
LeavesReads now next (leave k e) = Reads now next k
LeavesReads now next stuck = Unit

module _ {now : ℕ} {next : ℕ → ℕ} where
  switch-LeavesReads :
      {n : ℕ} {k : Kernel} {g : Ghost}
      → Parked n k g
      → Reads now next k
      → LeavesReads now next (resume (take_highest k))
  unfolding take_highest
  switch-LeavesReads h r =
      subst (LeavesReads now next) (sym (resume-calm (take-Inv h) (chosen_calm h)).1) r

-- A wait changes neither.
pub event_wait-LeavesReads :
    {n : ℕ} {k : Kernel} {c : ℕ} {g : Ghost}
    → Inv n k c g
    → (k.system_tcb c).holds_lock ≡ 0
    → c < 63
    → (d : ℕ) → d < 4
    → LeavesReads k.timer_count (λ e. (k.devices e).next_match) (event_wait d k)
unfolding event_wait
event_wait-LeavesReads {k} v free busy d lt =
    let s = dev_wait-Switches v free busy d lt in
    let known : ltb 4 d ≡ false = ground arith in
    let none_held : (current k).holds_lock ≡ 0 =
      ap (λ p. (tcb_at k.system_tcb p).holds_lock) v.cur ∙ free in
    rw (known, none_held)
      (subst (LeavesReads k.timer_count (λ e. (k.devices e).next_match)) (sym s.result)
        (switch-LeavesReads s.parked (s.clock, λ e l. s.matches e)))

-- The next match of a device behind its turn in the scan.
abbrev pub matched_at : ℕ → Kernel → ℕ → ℕ
matched_at millis k d =
    if leb (k.devices d).next_match millis
    then add32 millis (dev_freq d)
    else (k.devices d).next_match

-- A timer interrupt moves the clock on by ten, and the next match of a device by its period behind
-- the clock if the clock has come to it.
pub timer_irq-LeavesReads :
    {n : ℕ} {k : Kernel} {c : ℕ} {g : Ghost}
    → Inv n k c g
    → LeavesReads (add32 k.timer_count 10) (matched_at (add32 k.timer_count 10) k) (timer_irq k)
timer_irq-LeavesReads {k} v =
    let now = add32 k.timer_count 10 in
    let t = timer_irq-Ticked v in
    subst (LeavesReads now (matched_at now k)) (sym t.result) (
      t.clock,
      (λ d lt. elim (Bool-cases (leb (k.devices d).next_match now)) [
        | inl e ↦ ap (λ (x : Dev). x.next_match) (t.devices d lt) ∙ rw e refl
        | inr e ↦ ap (λ (x : Dev). x.next_match) (t.devices d lt) ∙ rw e refl
      ]),
    )
