-- ===== src/Kmain/Earlier.antt =====
-- The start of the earlier kernels: `main` of Lab2/Solution/lab2/part2/kernel/kernel.c, and `kmain`
-- and `C_IRQ_handler` of Lab 3/lab3-support/kernel/main.c.
use fundamental_of_emb.Common.{
  ℕ, zero, suc, ◌+◌, ◌≡◌, refl, ◌||◌, ◌==◌, ltb, if◌then◌else◌, u32, sub32, add32, bit_and, update,
  arith, Bool-cases, inl, inr,
}
use fundamental_of_emb.Hijack.{
  Vectors, Kept, keep, put_jump, hijacking, bad_code, mask_check_ldr, negative_offset,
  positive_offset, offset_mask,
}
use fundamental_of_emb.Timer.{Regs, Saved, set_timer, reg_set, oscr_addr, ossr_addr, osmr0_addr}
use fundamental_of_emb.Kmain.{swi_vector, irq_vector}

-- Lab 2: the memory and the variables that keep the SWI handler.
pub record Lab2Board : Type 0 where
  pub memory : ℕ → ℕ
  pub kept : Kept

-- The program returns a code, or enters user mode.
pub data Lab2Start : Type 0 where
  quits : (code : ℕ) → Lab2Board → Lab2Start
  user : Lab2Board → Lab2Start

-- The replacement of the handler whose address stands at `temp`.
abbrev pub lab2_replace : ℕ → ℕ → Lab2Board → Lab2Start
lab2_replace swihandler temp b =
    let inst = b.memory temp in
    user (record { memory = put_jump inst swihandler b.memory; kept = keep inst b.memory })

unfoldable pub lab2_main : ℕ → Lab2Board → Lab2Start
lab2_main swihandler b =
    let word = b.memory swi_vector in
    let offset = bit_and word offset_mask in
    let error_check = bit_and word mask_check_ldr in
    if error_check == negative_offset || error_check == positive_offset
    then if error_check == negative_offset
      then if ltb (swi_vector + swi_vector) offset
        then lab2_replace swihandler (sub32 (swi_vector + swi_vector) offset) b
        else quits 0 b
      else lab2_replace swihandler (u32 (swi_vector + swi_vector + offset)) b
    else quits bad_code b

-- Lab 2's `main` with the `hijacking` of the later labs in it: its code 1 is user mode.
abbrev pub with_hijacking : Kept → ℕ × Vectors → Lab2Start
with_hijacking irq (code, v) =
    let b : Lab2Board = record { memory = v.memory; kept = v.swi } in
    if code == 1 then user b else quits code b

-- Whatever the memory holds, `main` of lab 2 does what `hijacking` does for the SWI vector with
-- mode 1: where `hijacking` returns 1 it enters user mode, with the same memory and the same
-- instructions kept, and otherwise it returns the code of `hijacking` and changes nothing.
pub lab2_main_lem :
    (swihandler irqhandler : ℕ) (irq : Kept) (b : Lab2Board)
    → lab2_main swihandler b
      ≡ with_hijacking irq (
          hijacking swihandler irqhandler swi_vector 1
            (record { memory = b.memory; swi = b.kept; irq = irq }))
unfolding lab2_main hijacking
lab2_main_lem swihandler irqhandler irq b =
    let check = bit_and (b.memory swi_vector) mask_check_ldr in
    elim (Bool-cases (check == negative_offset || check == positive_offset)) [
      | inr bad ↦ rw bad refl
      | inl good ↦ elim (Bool-cases (check == negative_offset)) [
        | inr positive ↦ rw (good, positive) refl
        | inl neg ↦ elim (Bool-cases (ltb 16 (bit_and (b.memory swi_vector) offset_mask))) [
          | inl up ↦ rw (good, neg, up) refl
          | inr down ↦ rw (good, neg, down) refl
        ]
      ]
    ]

-- Lab 3: the vectors, the registers and the clock.
pub record Lab3Board : Type 0 where
  pub vectors : Vectors
  pub regs : Regs
  pub timer_count : ℕ

pub data Lab3Start : Type 0 where
  lab3_fails : Lab3Board → Lab3Start
  lab3_user : Lab3Board → Saved → Lab3Start

abbrev pub lab3_enter : Lab3Board → Lab3Start
lab3_enter b = let t = set_timer b.regs in lab3_user (record b { regs = t.1 }) t.0

module _ (swihandler irqhandler : ℕ) where
  abbrev pub lab3_hijack_irq : Lab3Board → Lab3Start
  lab3_hijack_irq b =
      let i = hijacking swihandler irqhandler irq_vector 2 b.vectors in
      if i.0 == bad_code
      then lab3_fails (record b { vectors = i.1 })
      else lab3_enter (record b { vectors = i.1 })

  unfoldable pub lab3_kmain : Lab3Board → Lab3Start
  lab3_kmain b =
      let s = hijacking swihandler irqhandler swi_vector 1 b.vectors in
      if s.0 == bad_code
      then lab3_fails (record b { vectors = s.1 })
      else lab3_hijack_irq (record b { vectors = s.1 })

-- The counter starts again at every interrupt.
unfoldable pub lab3_irq_handler : Lab3Board → Lab3Board
lab3_irq_handler b = record b {
  timer_count = add32 b.timer_count 1;
  regs = update (reg_set ossr_addr 1 b.regs) oscr_addr 0;
}

unfoldable pub lab3_irqs : ℕ → Lab3Board → Lab3Board
lab3_irqs zero b = b
lab3_irqs (suc n) b = lab3_irq_handler (lab3_irqs n b)

-- After `n` timer interrupts of lab 3 from any state, the clock has gone on by `n`, modulo 2^32, and
-- the match register is as before; after the last of them, which sets the counter to 0, the counter
-- is as far from the match as after `set_timer`.
pub lab3_irqs_lem :
    (b : Lab3Board) (n : ℕ)
    → ((lab3_irqs (suc n) b).timer_count ≡ u32 (b.timer_count + suc n))
      × ((lab3_irqs (suc n) b).regs osmr0_addr ≡ b.regs osmr0_addr)
      × ((lab3_irqs (suc n) b).regs oscr_addr ≡ 0)
unfolding lab3_irqs lab3_irq_handler
lab3_irqs_lem b zero = (refl, refl, refl)
lab3_irqs_lem b (suc n) = let h = lab3_irqs_lem b n in (omega (arith, h.0), h.1, refl)
