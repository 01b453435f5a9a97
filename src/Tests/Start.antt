-- ===== src/Tests/Start.antt =====
-- The kernels' starts, system calls and the programs mutex_chaser and sys_err on a concrete board.
use fundamental_of_emb.Common.{
  ℕ, zero, suc, ◌<◌, ◌≤◌, ◌≡◌, refl, ap, ◌∙◌, true, false, none, some, [], ◌∷◌, ◌==◌, if◌then◌else◌,
  arith,
}
use fundamental_of_emb.Hijack.{hijacking}
use fundamental_of_emb.Timer.{Saved}
use fundamental_of_emb.Kernel.{zero_tcb}
use fundamental_of_emb.Schedule.{assign_schedule, bound}
use fundamental_of_emb.Memcheck.{valid_addr}
use fundamental_of_emb.Task.{sort_tasks}
use fundamental_of_emb.Boot.{task_create, argument_error, stacks_valid}
use fundamental_of_emb.Boot.Sound.{Starts}
use fundamental_of_emb.Mutex.{mutex_init, mutex_create, create_from}
use fundamental_of_emb.Protocol.Pair.{Pair, lock_unlock}
use fundamental_of_emb.Swi.{Machine, swi_handler, mutex_lock_swi}
use fundamental_of_emb.Swi.Sound.{EndsWell, swi_handler-EndsWell}
use fundamental_of_emb.Kmain.{Board, Start, fails, user_mode, kmain}
use fundamental_of_emb.Kmain.Fresh.{KmainEnd, kmain_lem, creates, first_create}
use fundamental_of_emb.Kmain.Earlier.{Lab2Board, lab2_main, with_hijacking, lab2_main_lem}
use fundamental_of_emb.Programs.Chaser.{
  Chaser, fun1, fun2, fun3, fun4, Chase, start, chase, report, init_val, result_val,
}
use fundamental_of_emb.Programs.Chaser.Order.{Chases, starts, goes, all_but_first, report_after}
use fundamental_of_emb.Programs.SysErr.{sys_err_tasks}
use fundamental_of_emb.Programs.Quiet.{NobodyWaits}
use fundamental_of_emb.Programs.SysErr.Main.{Runs, sys_err-Runs}
use fundamental_of_emb.Tests.Queue.{noise}
use fundamental_of_emb.Tests.Tasks.{fixed, two_tasks, sorted_accepted}

-- Both vectors are `ldr pc, [pc, #0x18]`.
abbrev pub board : Board
board = record {
  vectors = record {
    memory = λ a.
        if a == 8
        then 0xe59f_f018
        else if a == 24
        then 0xe59f_f018
        else if a == 40
        then 0xa000_0100
        else if a == 56
        then 0xa000_0200
        else a;
    swi = record { address = 0; instruction1 = 0; instruction2 = 0 };
    irq = record { address = 0; instruction1 = 0; instruction2 = 0 };
  };
  regs = λ a. 7;
  kernel = record {
    run_queue = noise;
    system_tcb = λ t. zero_tcb;
    cur_tcb = none;
    gt_mutex =
        λ m. record { available = false; holding_tcb = some 9; locked = true; sleep_queue = none };
    devices = λ d. record { sleep_queue = none; next_match = 7 };
    timer_count = 120;
    irq = true;
  };
}

kmain_lem_example : KmainEnd 0xa200 0xa300 board (kmain 0xa200 0xa300 board)
kmain_lem_example = kmain_lem 0xa200 0xa300 board

abbrev board_of : Start → Board
board_of (fails b) = b
board_of (user_mode b s) = b

abbrev saved_of : Start → Saved
saved_of (fails b) = record { osmr0 = 0; oier = 0; iclr = 0; icmr = 0 }
saved_of (user_mode b s) = s

abbrev pub after : Board
after = board_of (kmain 0xa200 0xa300 board)

abbrev pub saved : Saved
saved = saved_of (kmain 0xa200 0xa300 board)

pub enters : kmain 0xa200 0xa300 board ≡ user_mode after saved
unfolding kmain hijacking
enters = refl

arguments_pass : argument_error 0xa000_0000 two_tasks 2 ≡ 0
unfolding valid_addr stacks_valid
arguments_pass = refl

first_create_example :
    Starts 2
      (sort_tasks 2 two_tasks 0)
      (creates 1 after.kernel).gt_mutex
      (task_create fixed 0xa000_3000 0xa000_0000 two_tasks 2 (creates 1 after.kernel)).1
first_create_example =
    first_create 0xa200 0xa300 board fixed 0xa000_3000 0xa000_0000 two_tasks 2 1 after saved enters
      arguments_pass sorted_accepted

-- The running system, with one mutex created.
abbrev begun :
    Starts 2
      (sort_tasks 2 two_tasks 0)
      (creates 1 after.kernel).gt_mutex
      (task_create fixed 0xa000_3000 0xa000_0000 two_tasks 2 (creates 1 after.kernel)).1
begun =
    first_create 0xa200 0xa300 board fixed 0xa000_3000 0xa000_0000 two_tasks 2 1 after saved enters
      arguments_pass sorted_accepted

one_created :
    (creates 1 after.kernel).gt_mutex 0
    ≡ record { available = false; holding_tcb = none; locked = false; sleep_queue = none }
unfolding creates mutex_create create_from kmain hijacking mutex_init
one_created = refl

created : (begun.state.gt_mutex 0).available ≡ false
created = ap (λ x. x.available) (begun.same_mutexes 0 ∙ one_created)

free : (begun.state.gt_mutex 0).locked ≡ false
free = ap (λ x. x.locked) (begun.same_mutexes 0 ∙ one_created)

lock_unlock_example : Pair 2 begun.state 1 0
lock_unlock_example = lock_unlock begun.sound 0 (omega arith) created free

abbrev machine : Machine
machine = record { kernel = begun.state; io = record { memory = λ a. 0; output = [] } }

swi_handler-EndsWell_example :
    EndsWell
      (swi_handler fixed 0xa000_3000 mutex_lock_swi (record { r0 = 0; r1 = 0; r2 = 0 }) [] machine)
swi_handler-EndsWell_example =
    swi_handler-EndsWell fixed 0xa000_3000 machine begun.sound (omega arith) mutex_lock_swi
      (record { r0 = 0; r1 = 0; r2 = 0 }) [] (λ e. absurd (omega (arith, e)))
      (λ e. absurd (omega (arith, e)))

-- Each of the four functions does its round for the next mutex, `n` times.
abbrev rounds : ℕ → Chase
rounds zero = start (λ m. 0)
rounds (suc n) = chase fun4 (chase fun3 (chase fun2 (chase fun1 (rounds n))))

rounds_cur : (n : ℕ) (t : Chaser) → (rounds n).cur_mutex t ≡ suc n
unfolding chase start
rounds_cur zero t = refl
rounds_cur (suc n) fun1 = ap suc (rounds_cur n fun1)
rounds_cur (suc n) fun2 = ap suc (rounds_cur n fun2)
rounds_cur (suc n) fun3 = ap suc (rounds_cur n fun3)
rounds_cur (suc n) fun4 = ap suc (rounds_cur n fun4)

rounds-Chases : (n : ℕ) → n ≤ 31 → Chases (λ m. 0) (rounds n)
unfolding chase
rounds-Chases zero le = starts
rounds-Chases (suc n) le =
    let c1 = rounds_cur n fun1 in
    let c2 = rounds_cur n fun2 in
    let c3 = rounds_cur n fun3 in
    let c4 = rounds_cur n fun4 in
    goes
      (goes
        (goes (goes (rounds-Chases n (omega (arith, le))) fun1 (omega (arith, c1, le))) fun2
          (omega (arith, c1, c2)))
        fun3 (omega (arith, c2, c3)))
      fun4 (omega (arith, c3, c4))

report_after_example :
    (report 32 (rounds 31).mutex_val ≡ all_but_first 32)
    × ((m : ℕ) → m < 32 → (rounds 31).mutex_val m ≡ (if m == 0 then init_val else result_val))
report_after_example = report_after (rounds-Chases 31 (omega arith)) (rounds_cur 31 fun4)

-- The comment of mutex_chaser.c has 61.
value : result_val ≡ 624
value = refl

sys_err_arguments : valid_addr 0xa010_0000 24 0xa000_0000 0xa300_0000 ≡ true
unfolding valid_addr
sys_err_arguments = refl

sys_err_accepted :
    assign_schedule fixed (sort_tasks 1 (sys_err_tasks 0xa000_1000 two_tasks)) 1 ≡ true
unfolding assign_schedule bound sort_tasks
sys_err_accepted = refl

nobody_waits : NobodyWaits after.kernel
unfolding kmain hijacking mutex_init
nobody_waits d lt = refl

-- Two interrupts before the first call, none before the second, and one before the third.
sys_err-Runs_example :
    Runs fixed 0xa000_3000 0xa010_0000 0xa000_1000 two_tasks two_tasks after.kernel (2 ∷ 0 ∷ 1 ∷ [])
sys_err-Runs_example =
    sys_err-Runs fixed 0xa000_3000 0xa010_0000 0xa000_1000 two_tasks two_tasks 0xa200 0xa300 board
      after saved (2 ∷ 0 ∷ 1 ∷ []) enters nobody_waits sys_err_arguments sys_err_accepted

abbrev lab2_board : Lab2Board
lab2_board = record { memory = board.vectors.memory; kept = board.vectors.swi }

lab2_main_lem_example :
    lab2_main 0xa200 lab2_board
    ≡ with_hijacking board.vectors.irq (hijacking 0xa200 0xa300 8 1 board.vectors)
lab2_main_lem_example = lab2_main_lem 0xa200 0xa300 board.vectors.irq lab2_board
