-- ===== src/Hijack.antt =====
-- `hijacking` of lab4/lab4/kernel/helper_functions.c, which puts the kernel's handlers in place of
-- the boot loader's, and its calls in kmain of lab4/lab4/kernel/main.c.
pub mod Jump
use fundamental_of_emb.Common.{
  ℕ, ◌+◌, ◌-◌, ◌^◌, ◌≡◌, ◌≢◌, refl, ap, ◌∙◌, Bool, true, false, not, ◌||◌, update, ltb, ◌==◌,
  if◌then◌else◌, bit_and, u32, sub32, add32, arith, Bool-cases, inl, inr, ==_iff,
}

abbrev pub mask_check_ldr : ℕ
mask_check_ldr = 0xff7f_f000

abbrev pub positive_offset : ℕ
positive_offset = 0xe51f_f000

abbrev pub negative_offset : ℕ
negative_offset = 0xe59f_f000

abbrev pub offset_mask : ℕ
offset_mask = 0xfff

abbrev pub pc_offset : ℕ
pc_offset = 8

-- `ldr pc, [pc, #-4]`
abbrev pub new_instruction : ℕ
new_instruction = 0xe51f_f004

abbrev pub bad_code : ℕ
bad_code = 0xbadc0de

-- The three variables in which a handler's place and its first two instructions are kept.
pub record Kept : Type 0 where
  pub address : ℕ
  pub instruction1 : ℕ
  pub instruction2 : ℕ

-- The words of the memory by their byte addresses, and the variables for the two handlers.
pub record Vectors : Type 0 where
  pub memory : ℕ → ℕ
  pub swi : Kept
  pub irq : Kept

-- What is kept of the handler at `inst`.
abbrev pub keep : ℕ → (ℕ → ℕ) → Kept
keep inst mem = record {
  address = inst;
  instruction1 = mem inst;
  instruction2 = mem (add32 inst 4);
}

-- The two words of the jump to a handler.
abbrev pub put_jump : ℕ → ℕ → (ℕ → ℕ) → ℕ → ℕ
put_jump inst handler mem = update (update mem inst new_instruction) (add32 inst 4) handler

-- The addresses of `swihandler` and `irq_wrapper` are given by the linker.
module _ (swihandler irq_wrapper : ℕ) where
  -- The replacement, for the handler whose address stands at `temp`: first for mode 1, then for
  -- mode 2.
  abbrev pub replace : ℕ → ℕ → Vectors → Vectors
  replace temp mode v =
      let inst = v.memory temp in
      if mode == 1
      then record v { swi = keep inst v.memory; memory = put_jump inst swihandler v.memory }
      else if mode == 2
      then record v { irq = keep inst v.memory; memory = put_jump inst irq_wrapper v.memory }
      else v

  -- The result is the code returned and the new state.
  unfoldable pub hijacking : ℕ → ℕ → Vectors → ℕ × Vectors
  hijacking base_vector mode v =
      let word = v.memory base_vector in
      let offset = bit_and word offset_mask in
      let error_check = bit_and word mask_check_ldr in
      if not (error_check == negative_offset || error_check == positive_offset)
      then (bad_code, v)
      else if error_check == negative_offset
      then if ltb (u32 (base_vector + base_vector)) offset
        then (1, replace (sub32 (u32 (base_vector + pc_offset)) offset) mode v)
        else (0, v)
      else (1, replace (u32 (base_vector + pc_offset + offset)) mode v)

-- The kept instructions written back.
abbrev pub put_back : Kept → (ℕ → ℕ) → ℕ → ℕ
put_back k mem = update (update mem k.address k.instruction1) (add32 k.address 4) k.instruction2
