-- ===== src/Tests/Queue.antt =====
-- lab4/lab4/kernel/sched/run_queue.c and lab4/lab4/kernel/memcheck.c on concrete inputs.
use fundamental_of_emb.Common.{
  ◌≤◌, ◌<◌, ◌≡◌, refl, ◌↔◌, ◌+◌, true, none, some, List, [], ◌∷◌, arith, test_bit, set_bit,
  clear_bit,
}
use fundamental_of_emb.Ready
use fundamental_of_emb.Ready.{Op, add, remove, highest, Reply, done, removed, prio, empty}
use fundamental_of_emb.RunQueue.{
  RunQueue, unmap, prio_unmap_table, runqueue_init, runqueue_add, runqueue_remove, highest_prio,
}
use fundamental_of_emb.RunQueue.Inv.{
  IsValid, is_runnable, runqueue_init-IsValid, runqueue_add-IsValid,
}
use fundamental_of_emb.RunQueue.Highest.{highest_prio-least}
use fundamental_of_emb.RunQueue.Refine
use fundamental_of_emb.RunQueue.Refine.{run_refines}
use fundamental_of_emb.Memcheck.{valid_addr, valid_addr_iff}

-- What memory may hold before `runqueue_init`.
abbrev pub noise : RunQueue
noise = record { run_list = λ p. some 9; run_bits = λ g. 77; group_run_bits = 255 }

abbrev pub empty_queue : RunQueue
empty_queue = runqueue_init noise

empty_queue-IsValid : IsValid empty_queue
empty_queue-IsValid = (runqueue_init-IsValid noise).0

-- Two tasks, at the priorities 12 and 40.
abbrev two_tasks : RunQueue
two_tasks = runqueue_add (runqueue_add empty_queue (some 40) 40) (some 12) 12

two_tasks-IsValid : IsValid two_tasks
two_tasks-IsValid =
    runqueue_add-IsValid (runqueue_add-IsValid empty_queue-IsValid 40 40 (omega arith)) 12 12
      (omega arith)

abbrev script : List Op
script = add 40 40 ∷ add 12 12 ∷ highest ∷ remove 12 ∷ highest ∷ remove 63 ∷ []

script-run :
    Refine.run empty_queue script
    ≡ done ∷ done ∷ prio 12 ∷ removed (some 12) ∷ prio 40 ∷ removed none ∷ []
unfolding Refine.run runqueue_init runqueue_add runqueue_remove highest_prio unmap prio_unmap_table
    set_bit clear_bit
script-run = refl

run_refines_example : Refine.run empty_queue script ≡ Ready.run empty script
run_refines_example =
    run_refines script empty (omega arith, (omega arith, (omega arith, (omega arith, tt))))
      empty_queue-IsValid (runqueue_init-IsValid noise).1

runnable_40 : is_runnable two_tasks 40 ≡ true
unfolding runqueue_init runqueue_add test_bit set_bit
runnable_40 = refl

highest_prio-least_example :
    (highest_prio two_tasks < 64)
    × (is_runnable two_tasks (highest_prio two_tasks) ≡ true)
    × (highest_prio two_tasks ≤ 40)
highest_prio-least_example = highest_prio-least two_tasks-IsValid 40 (omega arith) runnable_40

bit_set : test_bit 44 3 ≡ true
unfolding test_bit
bit_set = refl

valid_addr_iff_example :
    (valid_addr 0xa000_0000 24 0xa000_0000 0xa300_0000 ≡ true)
    ↔ ((0xa000_0000 ≤ 0xa000_0000) × (0xa000_0000 < 0xa300_0000) × (0xa000_0000 + 24 ≤ 0xa300_0000))
valid_addr_iff_example =
    valid_addr_iff 0xa000_0000 24 0xa000_0000 0xa300_0000 (omega arith) (omega arith) (omega arith)
