-- ===== src/Swi/Layout.antt =====
-- The task descriptors of task_create (lab4/lab4/kernel/include/task.h) in the user's memory: six
-- words each, the lowest byte of a word first.
use fundamental_of_emb.Common.{ℕ, zero, suc, ◌+◌, ◌*◌, ◌/◌, ◌%◌, update}
use fundamental_of_emb.Task.{Task}
use fundamental_of_emb.Boot.{size_of_task}

abbrev pub word_at : (ℕ → ℕ) → ℕ → ℕ
word_at mem a = mem a + 256 * mem (a + 1) + 65536 * mem (a + 2) + 16777216 * mem (a + 3)

abbrev pub put_word : ℕ → ℕ → (ℕ → ℕ) → ℕ → ℕ
put_word a w mem =
    update
      (update (update (update mem a (w % 256)) (a + 1) (w / 256 % 256)) (a + 2) (w / 65536 % 256))
      (a + 3) (w / 16777216 % 256)

-- `tasks[i]` of the array at `base`.
unfoldable pub load_tasks : ℕ → (ℕ → ℕ) → ℕ → Task
load_tasks base mem i =
    let a = base + size_of_task * i in
    record {
      lambda = word_at mem a;
      argument = word_at mem (a + 4);
      stack_pos = word_at mem (a + 8);
      cost = word_at mem (a + 12);
      period = word_at mem (a + 16);
      blocking = word_at mem (a + 20);
    }

abbrev pub put_task : ℕ → Task → (ℕ → ℕ) → ℕ → ℕ
put_task a t mem = put_word (a + 20) t.blocking (
    put_word (a + 16) t.period (
      put_word (a + 12) t.cost
        (put_word (a + 8) t.stack_pos (put_word (a + 4) t.argument (put_word a t.lambda mem)))))

-- The first `n` descriptors written to the array at `base`.
unfoldable pub store_tasks : ℕ → ℕ → (ℕ → Task) → (ℕ → ℕ) → ℕ → ℕ
store_tasks base zero tasks mem = mem
store_tasks base (suc n) tasks mem =
    put_task (base + size_of_task * n) (tasks n) (store_tasks base n tasks mem)
