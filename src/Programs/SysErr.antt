-- ===== src/Programs/SysErr.antt =====
-- lab4/lab4/tasks/sys_err/sys_err.c, which calls the kernel with wrong arguments and tests the errors.
pub mod Calls
pub mod Passes
pub mod Main
use fundamental_of_emb.Common.{update, some, ℕ, zero, suc, List, [], ◌∷◌, ◌++◌, ℤ, pos}
use fundamental_of_emb.Kernel.{Outcome, einval, eperm, enomem, efault, edeadlock}
use fundamental_of_emb.Mutex.{mutex_create, mutex_lock, mutex_unlock}
use fundamental_of_emb.Device.{event_wait}
use fundamental_of_emb.Task.{Task}
use fundamental_of_emb.Schedule.{Floats}
use fundamental_of_emb.Boot.{task_create}
use fundamental_of_emb.Protocol.Reach.{create_outcome}
use fundamental_of_emb.Programs.{Client, Prog, pure, ◌>>=◌, ◌>>◌, call, get_errno, same}

-- `check_return`; `true` stands for the lines of `report_suc`, and `false` for those of
-- `report_fail`.
unfoldable pub check_return : ℤ → ℤ → Prog Unit
check_return r expected u = some (tt, record u { passed = u.passed ++ (same r expected ∷ []) })

abbrev pub check_errno : ℕ → Prog Unit
check_errno expected = do e ← get_errno; check_return e (pos expected)

abbrev pub create : Prog ℤ
create = call (λ k. create_outcome (mutex_create k))

-- The first loop of `fun1`.
unfoldable pub create_mutexes : ℕ → Prog Unit
create_mutexes zero = pure tt
create_mutexes (suc n) = do create; create_mutexes n

-- `fun1` behind the loop, up to its last output.
unfoldable pub error_checks : Prog Unit
unfolding check_return
error_checks = do
  create
  check_errno enomem
  call (mutex_unlock 165)
  check_errno einval
  call (mutex_unlock 23)
  check_errno eperm
  call (mutex_lock 124)
  check_errno einval
  ret2 ← call (mutex_lock 4)
  check_return ret2 (pos 0)
  call (mutex_lock 4)
  check_errno edeadlock
  ret2 ← call (mutex_unlock 4)
  check_return ret2 (pos 0)
  call (event_wait 10000)
  check_errno einval

unfoldable pub fun1 : Prog Unit
unfolding create_mutexes error_checks
fun1 = do create_mutexes 32; error_checks

-- The array of `main`, of which only the first entry is set, with the address of `fun1`.
abbrev pub sys_err_tasks : ℕ → (ℕ → Task) → ℕ → Task
sys_err_tasks fun1_addr rest = update rest 0 (record {
  lambda = fun1_addr;
  argument = b'@';
  stack_pos = 0xa200_0000;
  cost = 1;
  period = 100;
  blocking = 0;
})

-- `tasks` is the array at `addr`, and `elsewhere` is what stands at 0xdeadbeef.
module _ (f : Floats) (idle addr : ℕ) (tasks elsewhere : ℕ → Task) where
  -- `main` up to its last call.
  unfoldable pub main_checks : Prog Unit
  unfolding check_return
  main_checks = do
    call (λ k. (task_create f idle addr tasks 65 k).1)
    check_errno einval
    call (λ k. (task_create f idle 0xdead_beef elsewhere 30 k).1)
    check_errno efault

  -- The last call of `main`.
  abbrev pub last_create : Client → Outcome
  last_create u = (task_create f idle addr tasks 1 u.kernel).1
