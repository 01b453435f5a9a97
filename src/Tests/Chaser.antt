-- ===== src/Tests/Chaser.antt =====
-- The systems of mutex_chaser.c, dagger.c and cyclone.c on a concrete board.
use fundamental_of_emb.Common.{ℕ, ◌≡◌, refl, true}
use fundamental_of_emb.Schedule.{assign_schedule, bound}
use fundamental_of_emb.Memcheck.{valid_addr}
use fundamental_of_emb.Task.{sort_tasks}
use fundamental_of_emb.Programs.Chaser.{Chaser, fun1, fun2, fun3, fun4, chaser_tasks}
use fundamental_of_emb.Programs.Chaser.Whole.{Runs, mutex_chaser-Runs}
use fundamental_of_emb.Programs.Dagger.Whole.{DaggerRuns, dagger-Runs}
use fundamental_of_emb.Programs.Mains.{cyclone_tasks, dagger_tasks}
use fundamental_of_emb.Programs.Cyclone.{Ends, cyclone-Ends}
use fundamental_of_emb.Tests.Start.{board, after, saved, enters}
use fundamental_of_emb.Tests.Tasks.{fixed, two_tasks}

abbrev entry : Chaser → ℕ
entry fun1 = 0xa000_1000
entry fun2 = 0xa000_1100
entry fun3 = 0xa000_1200
entry fun4 = 0xa000_1300

in_range : valid_addr 0xa010_0000 96 0xa000_0000 0xa300_0000 ≡ true
unfolding valid_addr
in_range = refl

accepted : assign_schedule fixed (sort_tasks 4 (chaser_tasks entry (λ i. 0) two_tasks)) 4 ≡ true
unfolding assign_schedule bound sort_tasks
accepted = refl

mutex_chaser-Runs_example : Runs fixed 0xa000_3000 0xa010_0000 entry (λ i. 0) two_tasks after.kernel
mutex_chaser-Runs_example =
    mutex_chaser-Runs fixed 0xa000_3000 0xa010_0000 entry (λ i. 0) two_tasks 0xa200 0xa300 board
      after saved enters in_range accepted

dagger_in_range : valid_addr 0xa010_0000 48 0xa000_0000 0xa300_0000 ≡ true
unfolding valid_addr
dagger_in_range = refl

dagger_accepted :
    assign_schedule fixed (sort_tasks 2 (dagger_tasks 0xa000_1000 0xa000_1100 0 two_tasks)) 2 ≡ true
unfolding assign_schedule bound sort_tasks
dagger_accepted = refl

dagger-Runs_example :
    DaggerRuns fixed 0xa000_3000 0xa010_0000 0xa000_1000 0xa000_1100 0 two_tasks after.kernel
dagger-Runs_example =
    dagger-Runs fixed 0xa000_3000 0xa010_0000 0xa000_1000 0xa000_1100 0 two_tasks 0xa200 0xa300
      board after saved enters dagger_in_range dagger_accepted

cyclone_in_range : valid_addr 0xa010_0000 24 0xa000_0000 0xa300_0000 ≡ true
unfolding valid_addr
cyclone_in_range = refl

cyclone_accepted :
    (ct : ℕ)
    → assign_schedule fixed (sort_tasks 1 (cyclone_tasks 0xa000_1000 0 0 two_tasks)) 1 ≡ true
unfolding assign_schedule bound sort_tasks
cyclone_accepted ct = refl

cyclone-Ends_example :
    Ends fixed 0xa000_3000 0xa010_0000 0xa000_1000
      (λ ct. two_tasks)
      cyclone_in_range
      cyclone_accepted
      after.kernel
cyclone-Ends_example =
    cyclone-Ends fixed 0xa000_3000 0xa010_0000 0xa000_1000 (λ ct. two_tasks) cyclone_in_range
      cyclone_accepted 0xa200 0xa300 board after saved enters
