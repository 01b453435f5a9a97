-- ===== src/RunQueue.antt =====
-- lab4/lab4/kernel/sched/run_queue.c: the table of runnable tasks and its two-level bitmap.
pub mod Inv
pub mod Highest
pub mod Refine
use fundamental_of_emb.Common.{
  ℕ, ◌+◌, ◌*◌, ◌/◌, ◌%◌, Option, none, List, [], ◌∷◌, ◌++◌, update, fill, get_or, set_bit,
  clear_bit, ◌==◌, if◌then◌else◌,
}

-- OS_MAX_TASKS, and IDLE_PRIO of config.h.
abbrev pub os_max_tasks : ℕ
os_max_tasks = 64

abbrev pub idle_prio : ℕ
idle_prio = 63

-- A `tcb_t *`: NULL, or the index of an entry of `system_tcb`.
abbrev pub Ptr : Type 0
Ptr = Option ℕ

-- The three statics of the file. The arrays have 64 and 8 entries.
pub record RunQueue : Type 0 where
  pub run_list : ℕ → Ptr
  pub run_bits : ℕ → ℕ
  pub group_run_bits : ℕ

-- The rows of `prio_unmap_table` differ in their first entry only.
abbrev row : ℕ → List ℕ
row n = n ∷ 0 ∷ 1 ∷ 0 ∷ 2 ∷ 0 ∷ 1 ∷ 0 ∷ 3 ∷ 0 ∷ 1 ∷ 0 ∷ 2 ∷ 0 ∷ 1 ∷ 0 ∷ []

unfoldable pub prio_unmap_table : List ℕ
prio_unmap_table =
    row 0
    ++ (row 4
        ++ (row 5
            ++ (row 4
                ++ (row 6
                    ++ (row 4
                        ++ (row 5
                            ++ (row 4
                                ++ (row 7
                                    ++ (row 4
                                        ++ (row 5
                                            ++ (row 4
                                                ++ (row 6 ++ (row 4 ++ (row 5 ++ row 4))))))))))))))

-- `prio_unmap_table[b]` of a `uint8_t`, which is always in range.
unfoldable pub unmap : ℕ → ℕ
unmap b = get_or prio_unmap_table b 0

unfoldable pub runqueue_init : RunQueue → RunQueue
unfolding fill
runqueue_init q = record {
  run_list = fill os_max_tasks (λ _. none) q.run_list;
  run_bits = fill (os_max_tasks / 8) (λ _. 0) q.run_bits;
  group_run_bits = 0;
}

-- `prio & 0x07` and `prio >> 3`.
abbrev pub position_in_group : ℕ → ℕ
position_in_group prio = prio % 8

abbrev pub group_of : ℕ → ℕ
group_of prio = prio / 8

unfoldable pub runqueue_add : RunQueue → Ptr → ℕ → RunQueue
runqueue_add q tcb prio =
    let position = position_in_group prio in
    let group = group_of prio in
    record {
      run_list = update q.run_list prio tcb;
      run_bits = update q.run_bits group (set_bit (q.run_bits group) position);
      group_run_bits = set_bit q.group_run_bits group;
    }

-- The returned pointer and the new queue. The idle task stays in the queue.
unfoldable pub runqueue_remove : RunQueue → ℕ → Ptr × RunQueue
runqueue_remove q prio =
    if prio == idle_prio
    then (q.run_list idle_prio, q)
    else let position = position_in_group prio in
      let group = group_of prio in
      let bits = clear_bit (q.run_bits group) position in
      (
        q.run_list prio,
        record {
          run_list = update q.run_list prio none;
          run_bits = update q.run_bits group bits;
          group_run_bits = if bits == 0 then clear_bit q.group_run_bits group else q.group_run_bits;
        },
      )

-- `(y << 3) + x`, as a `uint8_t`.
unfoldable pub highest_prio : RunQueue → ℕ
highest_prio q = let y = unmap q.group_run_bits in let x = unmap (q.run_bits y) in (y * 8 + x) % 256
