-- ===== src/Hijack/Jump.antt =====
-- What `hijacking` of lab4/lab4/kernel/helper_functions.c leaves behind: a jump to the kernel's
-- handler, and what is needed to take it back.
use fundamental_of_emb.Common.{
  ℕ, ◌+◌, ◌≡◌, ◌≢◌, refl, ap, not, ◌||◌, ltb, ◌==◌, u32, bit_and, add32, arith, Bool-cases, inl,
  inr, ==_iff,
}
use fundamental_of_emb.Hijack.{
  Vectors, Kept, hijacking, replace, keep, put_jump, put_back, new_instruction, mask_check_ldr,
  negative_offset, positive_offset, offset_mask, bad_code,
}

put_back_lem :
    (inst handler : ℕ) (mem : ℕ → ℕ) (a : ℕ)
    → put_back (keep inst mem) (put_jump inst handler mem) a ≡ mem a
put_back_lem inst handler mem a = elim (Bool-cases (add32 inst 4 == a)) [
  | inl e ↦ rw e (ap mem ((==_iff (add32 inst 4) a).0 e))
  | inr e ↦
      rw e (elim (Bool-cases (inst == a)) [
        | inl f ↦ rw f (ap mem ((==_iff inst a).0 f))
        | inr f ↦ rw f
      ])
]

-- The memory has the jump where the kept instructions were, and gets back its old content when
-- they are written back.
pub record Hijacked (handler : ℕ) (old : ℕ → ℕ) (kept : Kept) (new : ℕ → ℕ) : Type 0 where
  pub jump : new kept.address ≡ new_instruction
  pub target : new (add32 kept.address 4) ≡ handler
  pub restored : (a : ℕ) → put_back kept new a ≡ old a

put_jump-Hijacked :
    (inst handler : ℕ) (mem : ℕ → ℕ)
    → Hijacked handler mem (keep inst mem) (put_jump inst handler mem)
put_jump-Hijacked inst handler mem = record {
  jump = ground arith;
  target = ground arith;
  restored = put_back_lem inst handler mem;
}

module _ (swihandler irq_wrapper base mode : ℕ) (v : Vectors) where
  -- A call changes nothing and says so, or replaces a handler.
  data Ended : ℕ × Vectors → Type 0 where
    refused : (code : ℕ) → code ≢ 1 → Ended (code, v)
    replaced : (temp : ℕ) → Ended (1, replace swihandler irq_wrapper temp mode v)

  hijacking-Ended : Ended (hijacking swihandler irq_wrapper base mode v)
  unfolding hijacking
  hijacking-Ended =
      let check = bit_and (v.memory base) mask_check_ldr in
      elim (Bool-cases (not (check == negative_offset || check == positive_offset))) [
        | inl bad ↦ rw bad (refused bad_code (λ e. absurd (omega arith)))
        | inr good ↦ elim (Bool-cases (check == negative_offset)) [
          | inl neg ↦
              elim (Bool-cases (ltb (u32 (base + base)) (bit_and (v.memory base) offset_mask))) [
                | inl up ↦ rw (good, neg, up) (replaced _)
                | inr down ↦ rw (good, neg, down) (refused 0 (λ e. absurd (omega arith)))
              ]
          | inr positive ↦ rw (good, positive) (replaced _)
        ]
      ]

-- How a call for the SWI handler can end: refused, with everything as before, or with the jump in
-- place and the variables for the other handler as before.
pub data SwiEnd (handler : ℕ) (v : Vectors) : ℕ × Vectors → Type 0 where
  unchanged : (code : ℕ) → code ≢ 1 → SwiEnd handler v (code, v)
  jumps :
      (w : Vectors)
      → Hijacked handler v.memory w.swi w.memory
      → w.irq ≡ v.irq
      → SwiEnd handler v (1, w)

pub data IrqEnd (handler : ℕ) (v : Vectors) : ℕ × Vectors → Type 0 where
  unchanged : (code : ℕ) → code ≢ 1 → IrqEnd handler v (code, v)
  jumps :
      (w : Vectors)
      → Hijacked handler v.memory w.irq w.memory
      → w.swi ≡ v.swi
      → IrqEnd handler v (1, w)

Ended-SwiEnd :
    (swihandler irq_wrapper base : ℕ) (v : Vectors) (r : ℕ × Vectors)
    → Ended swihandler irq_wrapper base 1 v r
    → SwiEnd swihandler v r
Ended-SwiEnd swihandler irq_wrapper base v r (refused code ne) = unchanged code ne
Ended-SwiEnd swihandler irq_wrapper base v r (replaced temp) =
    jumps _ (put_jump-Hijacked (v.memory temp) swihandler v.memory) refl

Ended-IrqEnd :
    (swihandler irq_wrapper base : ℕ) (v : Vectors) (r : ℕ × Vectors)
    → Ended swihandler irq_wrapper base 2 v r
    → IrqEnd irq_wrapper v r
Ended-IrqEnd swihandler irq_wrapper base v r (refused code ne) = unchanged code ne
Ended-IrqEnd swihandler irq_wrapper base v r (replaced temp) =
    jumps _ (put_jump-Hijacked (v.memory temp) irq_wrapper v.memory) refl

-- `hijacking` with mode 1 leaves everything as it was and returns a code other than 1, or returns 1
-- with the two words of a jump to `swihandler` where the kept instructions were; writing these back
-- restores the memory. The variables for the IRQ handler do not change.
pub hijacking-SwiEnd :
    (swihandler irq_wrapper base : ℕ) (v : Vectors)
    → SwiEnd swihandler v (hijacking swihandler irq_wrapper base 1 v)
hijacking-SwiEnd swihandler irq_wrapper base v =
    Ended-SwiEnd swihandler irq_wrapper base v _ (hijacking-Ended swihandler irq_wrapper base 1 v)

-- `hijacking` with mode 2 leaves everything as it was and returns a code other than 1, or returns 1
-- with the two words of a jump to `irq_wrapper` where the kept instructions were; writing these back
-- restores the memory. The variables for the SWI handler do not change.
pub hijacking-IrqEnd :
    (swihandler irq_wrapper base : ℕ) (v : Vectors)
    → IrqEnd irq_wrapper v (hijacking swihandler irq_wrapper base 2 v)
hijacking-IrqEnd swihandler irq_wrapper base v =
    Ended-IrqEnd swihandler irq_wrapper base v _ (hijacking-Ended swihandler irq_wrapper base 2 v)
