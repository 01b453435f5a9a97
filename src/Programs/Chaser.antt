-- ===== src/Programs/Chaser.antt =====
-- lab4/lab4/tasks/mutex_chaser/mutex_chaser.c: four tasks that change the number of each mutex in
-- turn, under the mutex.
pub mod Order
pub mod Main
pub mod World
pub mod Tally
pub mod Safe
pub mod System
pub mod Behaves
pub mod Whole
use fundamental_of_emb.Common.{
  ℕ, zero, suc, ◌+◌, ◌*◌, ◌<◌, ◌≡◌, Bool, true, false, Option, none, some, List, [], ◌∷◌, ◌++◌, pos,
  negsuc, update, fill, ◌==◌, if◌then◌else◌, u32, add32, sub32,
}
use fundamental_of_emb.Kernel.{Kernel, Outcome, leave, stuck, returned, launched, interrupted}
use fundamental_of_emb.Mutex.{mutex_lock, mutex_unlock}
use fundamental_of_emb.Task.{Task}

abbrev pub mutex_num : ℕ
mutex_num = 32

abbrev pub init_val : ℕ
init_val = 2

-- The four task functions.
pub data Chaser : Type 0 where
  fun1 : Chaser
  fun2 : Chaser
  fun3 : Chaser
  fun4 : Chaser

-- What a function does to the number of a mutex; an `int`, as its 32-bit pattern.
abbrev pub operate : Chaser → ℕ → ℕ
operate fun1 v = add32 v 3
operate fun2 v = u32 (v * 11)
operate fun3 v = sub32 v 7
operate fun4 v = u32 (v * 13)

-- The device that a function waits for.
abbrev pub device_of : Chaser → ℕ
device_of fun1 = 3
device_of fun2 = 0
device_of fun3 = 1
device_of fun4 = 2

-- The value that `main` computes.
abbrev pub result_val : ℕ
result_val = operate fun4 (operate fun3 (operate fun2 (operate fun1 init_val)))

-- The numbers of the mutexes, and the variable `cur_mutex` of each function.
pub record Chase : Type 0 where
  pub mutex_val : ℕ → ℕ
  pub cur_mutex : Chaser → ℕ

-- What `main` sets, and where the functions start.
unfoldable pub start : (ℕ → ℕ) → Chase
start old = record { mutex_val = fill mutex_num (λ i. init_val) old; cur_mutex = λ t. 1 }

abbrev pub next_mutex : Chaser → (Chaser → ℕ) → Chaser → ℕ
next_mutex fun1 cur fun1 = suc (cur fun1)
next_mutex fun1 cur t = cur t
next_mutex fun2 cur fun2 = suc (cur fun2)
next_mutex fun2 cur t = cur t
next_mutex fun3 cur fun3 = suc (cur fun3)
next_mutex fun3 cur t = cur t
next_mutex fun4 cur fun4 = suc (cur fun4)
next_mutex fun4 cur t = cur t

-- A round of a function, as it changes the numbers.
unfoldable pub chase : Chaser → Chase → Chase
chase t s =
    let m = s.cur_mutex t in
    record {
      mutex_val = update s.mutex_val m (operate t (s.mutex_val m));
      cur_mutex = next_mutex t s.cur_mutex;
    }

-- The report of `fun4` behind its loop: `true` is `YES_STR`.
unfoldable pub report : ℕ → (ℕ → ℕ) → List Bool
report zero vals = []
report (suc i) vals = report i vals ++ ((vals i == result_val) ∷ [])

-- The array of `main`. The fields B are not set: `blocking` is what the stack held.
abbrev pub chaser_tasks : (Chaser → ℕ) → (ℕ → ℕ) → (ℕ → Task) → ℕ → Task
chaser_tasks entry blocking rest =
    update
      (update
        (update
          (update rest 0 (record {
            lambda = entry fun2;
            argument = b'2';
            stack_pos = 0xa200_0000;
            cost = 1;
            period = 100;
            blocking = blocking 0;
          }))
          1
          (record {
            lambda = entry fun3;
            argument = b'3';
            stack_pos = 0xa100_0000;
            cost = 1;
            period = 200;
            blocking = blocking 1;
          }))
        2
        (record {
          lambda = entry fun4;
          argument = b'4';
          stack_pos = 0xa150_0000;
          cost = 1;
          period = 500;
          blocking = blocking 2;
        }))
      3
      (record {
        lambda = entry fun1;
        argument = b'1';
        stack_pos = 0xa250_0000;
        cost = 1;
        period = 50;
        blocking = blocking 3;
      })
