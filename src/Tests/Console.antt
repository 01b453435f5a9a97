-- ===== src/Tests/Console.antt =====
-- The console, time and timer calls of lab4/lab4/kernel/syscall/io.c,
-- lab4/lab4/kernel/syscall/time.c and lab4/lab4/kernel/helper_functions.c, and oddball of
-- Lab1/Solution/lab1-part2-sdhandha/part2c.c, on concrete inputs.
use fundamental_of_emb.Common.{
  ℕ, ◌+◌, ◌*◌, ◌/◌, ◌≡◌, refl, some, List, [], ◌∷◌, pos, arith, ◌==◌, if◌then◌else◌, ◌%◌,
  Bool-cases, inl, inr,
}
use fundamental_of_emb.Io.{Io, Call, returns, read_from, read_syscall, write_syscall}
use fundamental_of_emb.Io.Line.{edit, Answers, read_syscall-Answers}
use fundamental_of_emb.Io.Echo.{write_syscall_lem}
use fundamental_of_emb.Io.Earlier.{lab3_write, lab2_write, lab3_write_lem, lab2_write_lem}
use fundamental_of_emb.Timer.{
  Regs, set_timer, restore_timer, osmr0_addr, oier_addr, iclr_addr, icmr_addr, restore_timer_lem,
}
use fundamental_of_emb.Time.{sleep_syscall, EndsAt, sleep_syscall-EndsAt}
use fundamental_of_emb.Hijack.{Vectors, hijacking}
use fundamental_of_emb.Hijack.Jump.{SwiEnd, hijacking-SwiEnd}
use fundamental_of_emb.Oddball.{oddball, oddball_optimize1, IsOdd, oddball_lem}

abbrev clean : Io
clean = record { memory = λ a. 0; output = [] }

-- "ab", DELETE, "c", CARRAIGE_RETURN, and a character that stays unread.
abbrev keys : List ℕ
keys = 97 ∷ 98 ∷ 127 ∷ 99 ∷ 13 ∷ 120 ∷ []

-- The line, the last character first.
keys_line : edit 10 keys [] ≡ some (10 ∷ 99 ∷ 97 ∷ [])
unfolding edit
keys_line = refl

read_syscall-Answers_example :
    Answers 0xa000_0000 10 clean.memory (edit 10 keys []) (read_syscall 0 0xa000_0000 10 keys clean)
read_syscall-Answers_example =
    read_syscall-Answers 0xa000_0000 10 keys clean (omega arith) (omega arith)

-- A line that fills a buffer of two bytes puts a 0 into the byte behind it.
abbrev full : Io
full = record { memory = λ a. 255; output = [] }

abbrev memory_of : Call → ℕ → ℕ
memory_of (returns r io rest) = io.memory
memory_of _ = full.memory

full_line : memory_of (read_syscall 0 0xa000_0000 2 (97 ∷ 10 ∷ []) full) 0xa000_0002 ≡ 0
unfolding read_syscall read_from
full_line = refl

abbrev stored : Io
stored = record { memory = λ a. if a == 0xa000_0000 then 104 else 105; output = 62 ∷ [] }

write_syscall_lem_example :
    write_syscall 1 0xa000_0000 2 stored
    ≡ (pos 2, record { memory = stored.memory; output = 62 ∷ 104 ∷ 105 ∷ [] })
write_syscall_lem_example =
    write_syscall_lem 0xa000_0000 (105 ∷ 104 ∷ []) stored (omega arith) (omega arith) (omega arith)
      (refl, (refl, tt))

lab3_write_lem_example :
    lab3_write 1 0xa000_0000 2 stored
    ≡ (pos 2, record { memory = stored.memory; output = 62 ∷ 104 ∷ 105 ∷ [] })
lab3_write_lem_example =
    lab3_write_lem 0xa000_0000 (105 ∷ 104 ∷ []) stored (omega arith) (refl, (refl, tt))

lab2_write_lem_example :
    lab2_write 1 0xa000_0000 2 stored
    ≡ (pos 3, record { memory = stored.memory; output = 62 ∷ 104 ∷ 105 ∷ 105 ∷ [] })
lab2_write_lem_example =
    lab2_write_lem 0xa000_0000 (105 ∷ 104 ∷ []) stored (omega arith) (omega arith)
      (refl, (refl, tt))

abbrev boot_regs : Regs
boot_regs a = a % 1000

restore_timer_lem_example :
    let back = restore_timer (set_timer boot_regs).0 (set_timer boot_regs).1 in
    (back osmr0_addr ≡ boot_regs osmr0_addr)
    × (back oier_addr ≡ boot_regs oier_addr)
    × (back iclr_addr ≡ boot_regs icmr_addr)
    × (back icmr_addr ≡ boot_regs iclr_addr)
restore_timer_lem_example = restore_timer_lem boot_regs (set_timer boot_regs).1

-- A clock that moves on by ten with every second reading.
abbrev clock : ℕ → ℕ
clock i = 500 + i / 2 * 10

sleep_syscall-EndsAt_example : EndsAt clock (500 + 35) 9 (sleep_syscall 20 500 clock 35)
sleep_syscall-EndsAt_example =
    sleep_syscall-EndsAt 20 500 clock 35 9 (omega arith) (omega arith) (omega arith)

abbrev pairs : ℕ → ℕ
pairs i = if i == 1 then 7 else 4

pairs-IsOdd : IsOdd pairs 3 1
pairs-IsOdd = record {
  inside = omega arith;
  alone = λ j lt ne e. ground arith;
  partner = λ i lt ne. elim (Bool-cases (i == 0)) [
    | inl e ↦ (2, omega arith, (λ q. ground arith), ground arith)
    | inr e ↦ (0, omega arith, (λ q. ground arith), ground arith)
  ];
}

oddball_lem_example : (oddball pairs 3 ≡ pairs 1) × (oddball_optimize1 pairs 3 ≡ pairs 1)
oddball_lem_example = oddball_lem pairs 3 1 pairs-IsOdd

-- The instruction `ldr pc, [pc, #0x18]` at 8, the handler's address at 40, and its first
-- instructions.
abbrev vectors : Vectors
vectors = record {
  memory = λ a. if a == 8 then 0xe59f_f018 else if a == 40 then 0xa000_0100 else a;
  swi = record { address = 0; instruction1 = 0; instruction2 = 0 };
  irq = record { address = 0; instruction1 = 0; instruction2 = 0 };
}

hijacking-SwiEnd_example : SwiEnd 0xa200 vectors (hijacking 0xa200 0xa300 8 1 vectors)
hijacking-SwiEnd_example = hijacking-SwiEnd 0xa200 0xa300 8 vectors

swi_replaced : (hijacking 0xa200 0xa300 8 1 vectors).0 ≡ 1
unfolding hijacking
swi_replaced = refl
