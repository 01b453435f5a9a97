-- ===== src/Swi.antt =====
-- `C_SWI_handler` of lab4/lab4/kernel/arm/C_SWI_handler.c, the switch on the number of a system
-- call, and those of Lab 3/lab3-support/kernel/C_SWI_handler.c and
-- Lab2/Solution/lab2/part2/kernel/C_SWI_handler.c.
pub mod Layout
pub mod Sound
use fundamental_of_emb.Common.{
  ℕ, zero, suc, ◌+◌, List, [], ◌∷◌, ◌++◌, ℤ, int_of, add32, ◌==◌, ◌/◌, if◌then◌else◌,
}
use fundamental_of_emb.Kernel.{Kernel, Outcome, leave, returned}
use fundamental_of_emb.Mutex.{mutex_create, mutex_lock, mutex_unlock}
use fundamental_of_emb.Device.{event_wait}
use fundamental_of_emb.Io.{Io, Call, blocked, returns, read_syscall, write_syscall}
use fundamental_of_emb.Io.Earlier.{read, lab3_write, lab2_write}
use fundamental_of_emb.Time.{time_syscall}
use fundamental_of_emb.Schedule.{Floats}
use fundamental_of_emb.Task.{Task}
use fundamental_of_emb.Boot.{task_create, argument_error}
use fundamental_of_emb.Swi.Layout.{load_tasks, store_tasks}

-- The numbers of bits/swi.h.
abbrev pub swi_base : ℕ
swi_base = 0x900000

abbrev pub exit_swi : ℕ
exit_swi = swi_base + 1

abbrev pub read_swi : ℕ
read_swi = swi_base + 3

abbrev pub write_swi : ℕ
write_swi = swi_base + 4

abbrev pub time_swi : ℕ
time_swi = swi_base + 6

abbrev pub sleep_swi : ℕ
sleep_swi = swi_base + 7

abbrev pub create_swi : ℕ
create_swi = swi_base + 10

abbrev pub mutex_create_swi : ℕ
mutex_create_swi = swi_base + 15

abbrev pub mutex_lock_swi : ℕ
mutex_lock_swi = swi_base + 16

abbrev pub mutex_unlock_swi : ℕ
mutex_unlock_swi = swi_base + 17

abbrev pub event_wait_swi : ℕ
event_wait_swi = swi_base + 20

-- The three registers in which a call has its arguments; `r0` also takes the result.
pub record Regs : Type 0 where
  pub r0 : ℕ
  pub r1 : ℕ
  pub r2 : ℕ

pub record Machine : Type 0 where
  pub kernel : Kernel
  pub io : Io

-- How a call ends: `ends` goes back to user mode, perhaps in another task, `waits` is in `getc`,
-- `sleeps` is in the loop of `sleep_syscall` until the clock shows `end_time`, with interrupts on,
-- and `exits` leaves the kernel. A value returned is the content of `r0`.
pub data SwiEnd : Type 0 where
  ends : Outcome → Io → SwiEnd
  waits : SwiEnd
  sleeps : (end_time : ℕ) → SwiEnd
  exits : (status : ℕ) → Io → SwiEnd

abbrev pub read_call : Kernel → Call → SwiEnd
read_call k blocked = waits
read_call k (returns r io rest) = ends (leave k (returned r)) io

abbrev pub write_call : Kernel → ℤ × Io → SwiEnd
write_call k (r, io) = ends (leave k (returned r)) io

abbrev pub mutex_call : Io → Kernel × ℤ → SwiEnd
mutex_call io (k, r) = ends (leave k (returned r)) io

-- The array goes back into memory if the checks have passed, since it is sorted in place.
abbrev pub create_call : ℕ → ℕ → Io → (ℕ → Task) × Outcome → SwiEnd
create_call base num io (tasks, o) = ends o (
    if argument_error base (load_tasks base io.memory) num == 0
    then record io { memory = store_tasks base num tasks io.memory }
    else io)

-- `puts("Invalid Instruction!! Exiting!")`
abbrev pub complaint : List ℕ
complaint =
    b'I' ∷ b'n' ∷ b'v' ∷ b'a' ∷ b'l' ∷ b'i' ∷ b'd' ∷ b' ' ∷ b'I' ∷ b'n' ∷ b's' ∷ b't' ∷ b'r' ∷ b'u'
    ∷ b'c' ∷ b't' ∷ b'i' ∷ b'o' ∷ b'n' ∷ b'!' ∷ b'!' ∷ b' ' ∷ b'E' ∷ b'x' ∷ b'i' ∷ b't' ∷ b'i'
    ∷ b'n' ∷ b'g' ∷ b'!' ∷ []

abbrev pub complain : Io → Io
complain io = record io { output = io.output ++ complaint }

-- Lab 4: `input` is what `getc` will give. An unknown number leaves the registers alone.
unfoldable pub swi_handler : Floats → ℕ → ℕ → Regs → List ℕ → Machine → SwiEnd
swi_handler f idle swi_num regs input m =
    let k = m.kernel in
    if swi_num == read_swi
    then read_call k (read_syscall regs.r0 regs.r1 regs.r2 input m.io)
    else if swi_num == write_swi
    then write_call k (write_syscall regs.r0 regs.r1 regs.r2 m.io)
    else if swi_num == time_swi
    then ends (leave k (returned (int_of (time_syscall k)))) m.io
    else if swi_num == sleep_swi
    then sleeps (add32 k.timer_count regs.r0)
    else if swi_num == create_swi
    then create_call regs.r0 regs.r1 m.io
        (task_create f idle regs.r0 (load_tasks regs.r0 m.io.memory) regs.r1 k)
    else if swi_num == mutex_create_swi
    then mutex_call m.io (mutex_create k)
    else if swi_num == mutex_lock_swi
    then ends (mutex_lock regs.r0 k) m.io
    else if swi_num == mutex_unlock_swi
    then ends (mutex_unlock regs.r0 k) m.io
    else if swi_num == event_wait_swi
    then ends (event_wait regs.r0 k) m.io
    else ends (leave k (returned (int_of regs.r0))) (complain m.io)

-- Lab 3, where `exit_handler`, which is assembly, leaves the kernel. Of the kernel's state only the
-- clock is used.
unfoldable pub lab3_swi_handler : ℕ → Regs → List ℕ → Machine → SwiEnd
lab3_swi_handler swi_num regs input m =
    let k = m.kernel in
    if swi_num == read_swi
    then read_call k (read regs.r0 regs.r1 regs.r2 input m.io)
    else if swi_num == write_swi
    then write_call k (lab3_write regs.r0 regs.r1 regs.r2 m.io)
    else if swi_num == exit_swi
    then exits regs.r0 m.io
    else if swi_num == time_swi
    then ends (leave k (returned (int_of k.timer_count))) m.io
    else if swi_num == sleep_swi
    then sleeps (add32 k.timer_count (regs.r0 / 10))
    else exits 0xbadc0de (complain m.io)

unfoldable pub lab2_swi_handler : ℕ → Regs → List ℕ → Machine → SwiEnd
lab2_swi_handler swi_num regs input m =
    let k = m.kernel in
    if swi_num == read_swi
    then read_call k (read regs.r0 regs.r1 regs.r2 input m.io)
    else if swi_num == write_swi
    then write_call k (lab2_write regs.r0 regs.r1 regs.r2 m.io)
    else if swi_num == exit_swi
    then exits regs.r0 m.io
    else exits 0xbadc0de (complain m.io)
