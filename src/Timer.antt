-- ===== src/Timer.antt =====
-- The OS timer and the interrupt controller: set_timer and restore_timer of
-- lab4/lab4/kernel/helper_functions.c, C_IRQ_handler of lab4/lab4/kernel/arm/C_IRQ_handler.c and the
-- register access of lab4/lab4/kernel/include/arm/reg.h.
use fundamental_of_emb.Common.{
  ℕ, zero, suc, ◌+◌, ◌-◌, ◌*◌, ◌^◌, ◌≡◌, refl, update, ◌==◌, if◌then◌else◌, bit_and, bit_or, add32,
  u32, arith, Bool, true, false, Bool-cases, inl, inr,
}
use fundamental_of_emb.Kernel.{Kernel, Outcome, leave, interrupted}
use fundamental_of_emb.Device.{timer_irq}
use fundamental_of_emb.Protocol.Defs.{Inv, Ghost}
use fundamental_of_emb.Protocol.Pulse.{Ticked, timer_irq-Ticked}

-- A register keeps the last word written to it. What the hardware itself does to the counter, the
-- status and the pending bits is outside the model.
abbrev pub Regs : Type 0
Regs = ℕ → ℕ

abbrev pub osmr0_addr : ℕ
osmr0_addr = 0x00a0_0000

abbrev pub oscr_addr : ℕ
oscr_addr = 0x00a0_0010

abbrev pub ossr_addr : ℕ
ossr_addr = 0x00a0_0014

abbrev pub oier_addr : ℕ
oier_addr = 0x00a0_001c

abbrev pub icmr_addr : ℕ
icmr_addr = 0x00d0_0004

abbrev pub iclr_addr : ℕ
iclr_addr = 0x00d0_0008

abbrev pub icpr_addr : ℕ
icpr_addr = 0x00d0_0010

-- `1 << INT_OSTMR_0`
abbrev pub mask_timer : ℕ
mask_timer = 2 ^ 26

abbrev pub ten_millis : ℕ
ten_millis = 32500

abbrev pub reg_set : ℕ → ℕ → Regs → Regs
reg_set addr flags regs = update regs addr (bit_or (regs addr) flags)

abbrev pub reg_clear : ℕ → ℕ → Regs → Regs
reg_clear addr flags regs = update regs addr (bit_and (regs addr) (2 ^ 32 - 1 - flags))

-- The variables of the file in which the registers are saved.
pub record Saved : Type 0 where
  pub osmr0 : ℕ
  pub oier : ℕ
  pub iclr : ℕ
  pub icmr : ℕ

-- The variable ICMR gets the register ICLR, and the variable ICLR the register ICMR.
unfoldable pub set_timer : Regs → Saved × Regs
set_timer regs =
    let r1 = update regs oscr_addr 0 in
    let r2 = update r1 osmr0_addr ten_millis in
    let r3 = reg_set ossr_addr 1 (reg_set oier_addr 1 r2) in
    (
      record {
        osmr0 = r1 osmr0_addr;
        oier = r2 oier_addr;
        iclr = r3 icmr_addr;
        icmr = r3 iclr_addr;
      },
      reg_set icmr_addr mask_timer (reg_clear iclr_addr mask_timer r3),
    )

unfoldable pub restore_timer : Saved → Regs → Regs
restore_timer saved regs =
    update
      (update (update (update regs osmr0_addr saved.osmr0) oier_addr saved.oier) iclr_addr
        saved.iclr)
      icmr_addr saved.icmr

-- The registers after a timer interrupt.
unfoldable pub tick_regs : Regs → Regs
tick_regs regs =
    let r = reg_set ossr_addr 1 regs in update r osmr0_addr (add32 (r osmr0_addr) ten_millis)

-- `C_IRQ_handler`: nothing happens unless the timer's interrupt is pending.
unfoldable pub irq_handler : Regs → Kernel → Regs × Outcome
irq_handler regs k =
    if bit_and (regs icpr_addr) mask_timer == 0
    then (regs, leave k interrupted)
    else (tick_regs regs, timer_irq k)

-- The registers after `n` interrupts.
unfoldable pub ticks : ℕ → Regs → Regs
ticks zero regs = regs
ticks (suc n) regs = tick_regs (ticks n regs)

-- After `set_timer` and `n` timer interrupts the match register is the (n + 1)-th multiple of 32500,
-- modulo 2^32: the matches are ten milliseconds apart.
pub match_lem :
    (regs : Regs) (n : ℕ) → ticks n (set_timer regs).1 osmr0_addr ≡ u32 (ten_millis * (n + 1))
unfolding ticks set_timer tick_regs
match_lem regs zero = refl
match_lem regs (suc n) = omega (arith, match_lem regs n)

-- `restore_timer` with what `set_timer` saved gives OSMR0 and OIER their old contents, but gives
-- ICLR the old content of ICMR and ICMR that of ICLR, whatever happened to the registers between.
pub restore_timer_lem :
    (old now : Regs)
    → let back = restore_timer (set_timer old).0 now in
      (back osmr0_addr ≡ old osmr0_addr)
      × (back oier_addr ≡ old oier_addr)
      × (back iclr_addr ≡ old icmr_addr)
      × (back icmr_addr ≡ old iclr_addr)
unfolding restore_timer set_timer
restore_timer_lem old now = (refl, refl, refl, refl)

abbrev pub is_pending : Regs → Bool
is_pending regs = if bit_and (regs icpr_addr) mask_timer == 0 then false else true

-- A pending interrupt moves OSMR0 on by ten milliseconds, sets the bit of OSSR, and the clock ticks.
-- Otherwise nothing happens.
abbrev pub Handled : Bool → (n : ℕ) → Kernel → Ghost → Regs → Regs × Outcome → Type 0
Handled false n k g regs end = end ≡ (regs, leave k interrupted)
Handled true n k g regs end =
    ((a : ℕ)
      → end.0 a ≡ (
          if osmr0_addr == a
          then add32 (regs osmr0_addr) ten_millis
          else if ossr_addr == a
          then bit_or (regs ossr_addr) 1
          else regs a))
    × Ticked n k g end.1

-- `C_IRQ_handler` in a sound state. When the timer's interrupt is not pending, it changes nothing. When
-- it is pending, OSMR0 gets 32500 more (modulo 2^32), bit 0 of OSSR is set and the other registers keep
-- their words; the handler comes back to user mode in a sound state, the clock has gone on by ten
-- (modulo 2^32), and for each of the four devices: if the clock has come to its next match, this is the
-- clock plus its period (modulo 2^32), its sleep queue is empty, and every task that waited for it is
-- current or in the run queue; if not, the device is as it was, and the tasks that wait for it wait on.
-- The mutexes are unchanged.
pub irq_handler-Handled :
    {n : ℕ} {k : Kernel} {c : ℕ} {g : Ghost} (regs : Regs)
    → Inv n k c g
    → Handled (is_pending regs) n k g regs (irq_handler regs k)
unfolding irq_handler tick_regs
irq_handler-Handled {k} regs v = elim (Bool-cases (bit_and (regs icpr_addr) mask_timer == 0)) [
  | inl e ↦ rw e refl
  | inr e ↦ rw e ((λ a. refl), timer_irq-Ticked v)
]
