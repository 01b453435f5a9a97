-- ===== src/RunQueue/Inv.antt =====
-- The two bitmaps and the table of lab4/lab4/kernel/sched/run_queue.c agree, and every operation
-- keeps it so.
use fundamental_of_emb.Common.{
  ℕ, ◌/◌, ◌%◌, ◌<◌, ◌≡◌, Bool, false, not, none, some, is_some, fill, fill_lem, test_bit,
  test_bit-set_bit, test_bit-clear_bit, set_bit-lt, clear_bit-lt, set_bit-ne-zero, clear_bit-zero,
  test_bit-zero, ◌==◌, ltb, if◌then◌else◌, arith,
}
use fundamental_of_emb.RunQueue.{
  RunQueue, os_max_tasks, runqueue_init, runqueue_add, runqueue_remove,
}

-- The bit of priority `p` in `run_bits`.
abbrev pub is_runnable : RunQueue → ℕ → Bool
is_runnable q p = test_bit (q.run_bits (p / 8)) (p % 8)

pub record IsValid (q : RunQueue) : Type 0 where
  pub bytes : (g : ℕ) → g < 8 → q.run_bits g < 256
  pub group_byte : q.group_run_bits < 256
  pub listed : (p : ℕ) → p < 64 → is_runnable q p ≡ is_some (q.run_list p)
  pub grouped : (g : ℕ) → g < 8 → test_bit q.group_run_bits g ≡ not (q.run_bits g == 0)

-- After `runqueue_init` the queue is well formed, and no priority is runnable.
pub runqueue_init-IsValid :
    (q : RunQueue)
    → IsValid (runqueue_init q)
      × ((p : ℕ) → p < 64 → (runqueue_init q).run_list p ≡ none)
      × ((p : ℕ) → p < 64 → is_runnable (runqueue_init q) p ≡ false)
unfolding runqueue_init
runqueue_init-IsValid q = (
  record {
    bytes = λ g h. ground (arith, bits g);
    group_byte = omega arith;
    listed = λ p h. ground (arith, bits (p / 8), slots p, test_bit-zero (p % 8));
    grouped = λ g h. ground (arith, bits g, test_bit-zero g);
  },
  λ p h. ground (arith, slots p),
  λ p h. ground (arith, bits (p / 8), test_bit-zero (p % 8)),
)
  where
    bits : (g : ℕ) → fill 8 (λ _. 0) q.run_bits g ≡ (if ltb g 8 then 0 else q.run_bits g)
    bits g = fill_lem 8 (λ _. 0) q.run_bits g

    slots :
        (p : ℕ)
        → fill os_max_tasks (λ _. none) q.run_list p ≡ (if ltb p 64 then none else q.run_list p)
    slots p = fill_lem 64 (λ _. none) q.run_list p

module _ {q : RunQueue} (v : IsValid q) (t prio : ℕ) (h : prio < 64) where
  add-listed :
      (p : ℕ)
      → p < 64
      → is_runnable (runqueue_add q (some t) prio) p
        ≡ is_some ((runqueue_add q (some t) prio).run_list p)
  unfolding runqueue_add
  add-listed p hp = ground (
    arith,
    v.listed p hp,
    test_bit-set_bit (q.run_bits (prio / 8)) (prio % 8) (p % 8) (v.bytes (prio / 8) (omega arith)),
  )

  add-grouped :
      (g : ℕ)
      → g < 8
      → test_bit (runqueue_add q (some t) prio).group_run_bits g
        ≡ not ((runqueue_add q (some t) prio).run_bits g == 0)
  unfolding runqueue_add
  add-grouped g hg = ground (
    arith,
    v.grouped g hg,
    set_bit-ne-zero (q.run_bits (prio / 8)) (prio % 8) (v.bytes (prio / 8) (omega arith)),
    test_bit-set_bit q.group_run_bits (prio / 8) g v.group_byte,
  )

  -- `runqueue_add` of a task at a priority of the table keeps the queue well formed.
  pub runqueue_add-IsValid : IsValid (runqueue_add q (some t) prio)
  unfolding runqueue_add
  runqueue_add-IsValid = record {
    bytes = λ g hg. ground (arith, v.bytes g hg, set_bit-lt (q.run_bits (prio / 8)) (prio % 8));
    group_byte = set_bit-lt q.group_run_bits (prio / 8);
    listed = add-listed;
    grouped = add-grouped;
  }

module _ {q : RunQueue} (v : IsValid q) (prio : ℕ) (h : prio < 64) where
  remove-listed :
      (p : ℕ)
      → p < 64
      → is_runnable (runqueue_remove q prio).1 p ≡ is_some ((runqueue_remove q prio).1.run_list p)
  unfolding runqueue_remove
  remove-listed p hp = ground (
    arith,
    v.listed p hp,
    test_bit-clear_bit (q.run_bits (prio / 8)) (prio % 8) (p % 8)
        (v.bytes (prio / 8) (omega arith)),
  )

  remove-grouped :
      (g : ℕ)
      → g < 8
      → test_bit (runqueue_remove q prio).1.group_run_bits g
        ≡ not ((runqueue_remove q prio).1.run_bits g == 0)
  unfolding runqueue_remove
  remove-grouped g hg = ground (
    arith,
    v.grouped g hg,
    clear_bit-zero (prio % 8),
    test_bit-clear_bit q.group_run_bits (prio / 8) g v.group_byte,
  )

  -- `runqueue_remove` at a priority of the table keeps the queue well formed.
  pub runqueue_remove-IsValid : IsValid (runqueue_remove q prio).1
  unfolding runqueue_remove
  runqueue_remove-IsValid = record {
    bytes = λ g hg. ground (arith, v.bytes g hg, clear_bit-lt (q.run_bits (prio / 8)) (prio % 8));
    group_byte = ground (arith, v.group_byte, clear_bit-lt q.group_run_bits (prio / 8));
    listed = remove-listed;
    grouped = remove-grouped;
  }
