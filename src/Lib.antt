-- ===== src/Lib.antt =====
-- The labs of 18-342, Fundamentals of Embedded Systems, above all the kernel of lab 4: a preemptive
-- fixed-priority kernel for a gumstix board, with mutexes under the highest-locker protocol, periodic
-- devices on which tasks wait, and a schedulability test.
--
-- Which file models which part, with paths from the repository's root:
-- - RunQueue, RunQueue/: lab4/lab4/kernel/sched/run_queue.c. The table run_list, the bytes run_bits
--   and group_run_bits, and prio_unmap_table. Ready is the table without the bitmaps.
-- - Kernel: the globals and the structures of lab4/lab4/kernel/include/task.h and include/lock.h.
--   A pointer to a task control block is NULL or an index of system_tcb.
-- - Dispatch, Resume: lab4/lab4/kernel/sched/ctx_switch.c. The assembly that switches stacks is
--   modelled by the resume point in the context of a task, one for each place where C code can be
--   suspended; Resume holds the C code that runs from there up to the return to user mode.
-- - Sleep, Mutex: lab4/lab4/kernel/lock/mutex.c.
-- - Device: lab4/lab4/kernel/device.c, with event_wait of syscall/proc.c and the clock of
--   arm/C_IRQ_handler.c.
-- - Task, Schedule, Memcheck, Boot: task_create of lab4/lab4/kernel/syscall/proc.c with its sort,
--   sched/ub_test.c, memcheck.c and sched/sched.c.
-- - Protocol/: the invariant of the running system. Defs states it, with a ghost state that says
--   where each task is; the other files show that each kernel entry keeps it, Moves which task it comes
--   back to, Section what a lock and an unlock leave of the mutexes, Urgent and Preempt which priority
--   the current task has behind a dispatch, Parks what a wait does to its caller, Asleep and Await which
--   tasks go on waiting, Turn and Pulse what a timer interrupt does to the clock, the devices and the
--   waiting tasks, and Clock when the devices come to their next matches.
-- - Swi, Swi/: C_SWI_handler of lab4/lab4/kernel/arm/C_SWI_handler.c, and of the C_SWI_handler.c files
--   of labs 2 and 3. Swi.Layout has the task descriptors in the user's memory, byte by byte.
-- - Kmain, Kmain/: kmain of lab4/lab4/kernel/main.c; Kmain.Earlier has main of
--   Lab2/Solution/lab2/part2/kernel/kernel.c and kmain of Lab 3/lab3-support/kernel/main.c.
-- - Io, Io/: read_syscall and write_syscall of lab4/lab4/kernel/syscall/io.c. Io.Line has the line
--   editor as a function on lists; Io.Earlier has READ and WRITE of the C_SWI_handler.c files in
--   Lab2/Solution/lab2/part2/kernel and Lab 3/lab3-support/kernel.
-- - Timer: set_timer and restore_timer of lab4/lab4/kernel/helper_functions.c, and C_IRQ_handler of
--   arm/C_IRQ_handler.c with its writes to the registers.
-- - Hijack, Hijack/: hijacking of lab4/lab4/kernel/helper_functions.c, over the words of the memory.
-- - Time: lab4/lab4/kernel/syscall/time.c, and SLEEP of Lab 3/lab3-support/kernel/C_SWI_handler.c.
-- - Ilog2, Ilog2/: lab4/lab4/kernel/math.c. Ctype: lab4/lab4/kernel/include/ctype.h. Memmove:
--   lab4/lab4/tasks/libc/string/memmove.c.
-- - Programs, Programs/: programs of lab4/lab4/tasks as clients of the kernel. SysErr is sys_err.c,
--   Chaser and Chaser/ mutex_chaser.c, Dagger and Dagger/ dagger.c, Cyclone cyclone.c, Mains the task
--   arrays of dagger.c, simple_mutex.c, cyclone.c and stress.c; Pool says which mutexes have been
--   created, Quiet what timer interrupts leave while no task waits for a device, and Steps what a call
--   leaves with such interrupts before it.
-- - Calc, Calc/: calc.c and math.c in Lab1/Solution/lab1-part1-sdhandha/lab1/calc, on 32-bit patterns;
--   what / and % give where C leaves them undefined is a parameter.
-- - RandGenerator, RandGenerator/: randGenerator of Lab1/Solution/lab1-part2-sdhandha/part2c.c, with
--   the numbers of rand as a sequence.
-- - Rot13, Rot13/: the two programs Lab2/Solution/lab2/part1/rot13/rot13.c and
--   Lab 3/lab3-support/tasks/rot13/rot13.c, each on the calls of its lab's kernel. Dialogue has the
--   endless loop, with the rounds as fuel, and Main the output of the arguments before it;
--   Shown says what of it the console shows.
-- - Oddball: two versions of oddball in Lab1/Solution/lab1-part2-sdhandha/part2c.c.
-- - Tests/: runs on concrete inputs, among them a system of two tasks from its start.
--
-- A handler's result is an Outcome: the state and the value with which control comes back to user
-- mode, perhaps in another task, or stuck. Interrupts are off inside the handlers, so that a step is
-- one system call or one timer interrupt. The traversals of a sleep queue have fuel 65, more than the
-- 64 entries of system_tcb; the invariant says that a sleep queue has no cycle, so the fuel is
-- enough, and the theorems about the steps exclude stuck. The busy loop of a sleep takes its fuel as an
-- argument; one more than the test at which the clock is far enough suffices. The loop of the debug
-- version of ilog2 has fuel 32, the digits of a word. An entry of randGenerator takes at most fuel
-- calls of rand, enough if each number turns up within so many calls. The activations of cyclone.c have
-- fuel 31, one more than the source's ITE. The rounds of rot13.c have the number of the characters in
-- the input and one more, and the loop of lab 3's version that writes a line again has fuel too, of
-- which one unit is enough, since the first attempt succeeds. Words of 32 bits wrap.
--
-- The program sys_err.c makes its calls one after the other, with any number of timer interrupts before
-- each of them, as long as these come back to it; a call or an interrupt that switches to another task
-- ends the run of the program in the model. In user mode interrupts are on, since the entry in
-- lab4/lab4/kernel/arm/swihandler.S restores the caller's status; the field irq of Kernel is what the C
-- code of the kernel has set last. Chaser.World has all four tasks of mutex_chaser.c in one kernel: a
-- move is one statement of the current task (a call, or the load or the store of a mutex's number) or a
-- timer interrupt, and control comes back to the task that the kernel has switched to, wherever that
-- was left. Chaser.Tally keeps the order of the operations on each mutex;
-- Chaser.Order is about the numbers alone, for rounds that come in order. Programs.Dagger has the two
-- tasks of dagger.c in the same way: a move is a putchar, an event_wait or a timer interrupt, and the
-- world counts the interrupts, and those at which the next match of a device has come.
--
-- Not modelled: the assembly, the double arithmetic of the compiler (a parameter of Schedule), what the
-- timer's hardware does to its registers, the debug output of the kernel (hexdump.c, assert.c, raise.c),
-- and the C library of the tasks, which is a third party's. The tasks splat, twister, typo, test and
-- hello of lab 3 do their work through printf, strlen, memset and atol of that library. The functions of
-- simple_mutex.c wait for a device with a lock held, which this kernel refuses, so that they stop in
-- panic, as the file's own note on part 2 says; those of stress.c wait for devices that do not exist,
-- one of them behind the end of the array of the devices. A read through NULL gives zeros and a write
-- through NULL is dropped; the invariant excludes both.
pub mod Common
pub mod Ready
pub mod RunQueue
pub mod Kernel
pub mod Dispatch
pub mod Sleep
pub mod Resume
pub mod Mutex
pub mod Device
pub mod Memcheck
pub mod Task
pub mod Schedule
pub mod Boot
pub mod Io
pub mod Timer
pub mod Hijack
pub mod Kmain
pub mod Time
pub mod Swi
pub mod Programs
pub mod Ilog2
pub mod Memmove
pub mod Ctype
pub mod Calc
pub mod Rot13
pub mod Oddball
pub mod RandGenerator
pub mod Protocol
pub mod Tests
