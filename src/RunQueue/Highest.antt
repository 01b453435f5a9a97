-- ===== src/RunQueue/Highest.antt =====
-- `highest_prio` of lab4/lab4/kernel/sched/run_queue.c finds the least runnable priority.
use fundamental_of_emb.Common.{
  ℕ, ◌+◌, ◌*◌, ◌/◌, ◌%◌, ◌≤◌, ◌<◌, ◌≡◌, ◌≢◌, refl, Bool, true, false, not, ◌&&◌, ◌||◌, test_bit,
  test_bit-zero, holds_below, holds_below_at, ◌==◌, ltb, leb, arith,
}
use fundamental_of_emb.RunQueue.{RunQueue, prio_unmap_table, unmap, highest_prio}
use fundamental_of_emb.RunQueue.Inv.{IsValid, is_runnable}

unmap_check : ℕ → Bool
unmap_check b =
    ltb (unmap b) 8
    && ((b == 0) || test_bit b (unmap b))
    && holds_below 8 (λ j. not (test_bit b j) || leb (unmap b) j)

unmap_table : holds_below 256 unmap_check ≡ true
unfolding holds_below unmap_check unmap prio_unmap_table test_bit
unmap_table = refl

unmap-lt : (b : ℕ) → b < 256 → unmap b < 8
unfolding unmap_check
unmap-lt b hb = ground (arith, holds_below_at 256 unmap_check b unmap_table hb)

test_bit-unmap : (b : ℕ) → b < 256 → b ≢ 0 → test_bit b (unmap b) ≡ true
unfolding unmap_check
test_bit-unmap b hb ne = ground (arith, holds_below_at 256 unmap_check b unmap_table hb)

unmap-le : (b j : ℕ) → b < 256 → j < 8 → test_bit b j ≡ true → unmap b ≤ j
unfolding unmap_check
unmap-le b j hb hj t = ground (
  arith,
  holds_below_at 256 unmap_check b unmap_table hb,
  holds_below_at 8 (λ j. not (test_bit b j) || leb (unmap b) j) j,
)

-- `prio_unmap_table` gives the position of the lowest set bit of every byte but 0: the bit there
-- is set, and every set bit is at that position or above.
pub unmap-lowest :
    (b j : ℕ)
    → b < 256
    → j < 8
    → test_bit b j ≡ true
    → (unmap b < 8) × (test_bit b (unmap b) ≡ true) × (unmap b ≤ j)
unmap-lowest b j hb hj t = (
  unmap-lt b hb,
  test_bit-unmap b hb (λ e. ground (arith, test_bit-zero j)),
  unmap-le b j hb hj t,
)

-- In a well-formed queue with a runnable priority, `highest_prio` is runnable and no runnable
-- priority lies below it.
pub highest_prio-least :
    {q : RunQueue}
    → IsValid q
    → (p : ℕ) → p < 64
    → is_runnable q p ≡ true
    → (highest_prio q < 64) × (is_runnable q (highest_prio q) ≡ true) × (highest_prio q ≤ p)
unfolding highest_prio
highest_prio-least {q} v p hp r =
    let group_set : test_bit q.group_run_bits (p / 8) ≡ true =
      ground (arith, v.grouped (p / 8) (omega arith), test_bit-zero (p % 8)) in
    let y = unmap-lowest q.group_run_bits (p / 8) v.group_byte (omega arith) group_set in
    let byte = v.bytes (unmap q.group_run_bits) y.0 in
    let x_lt = unmap-lt (q.run_bits (unmap q.group_run_bits)) byte in
    let x_set : test_bit (q.run_bits (unmap q.group_run_bits))
          (unmap (q.run_bits (unmap q.group_run_bits)))
        ≡ true =
      test_bit-unmap (q.run_bits (unmap q.group_run_bits)) byte
        (ground (arith, v.grouped (unmap q.group_run_bits) y.0)) in
    ground
      (arith, unmap-le (q.run_bits (p / 8)) (p % 8) (v.bytes (p / 8) (omega arith)) (omega arith) r)

all_clear-eq-zero : (b : ℕ) → b < 256 → ((j : ℕ) → j < 8 → test_bit b j ≡ false) → b ≡ 0
all_clear-eq-zero b hb h = ground (arith, test_bit-unmap b hb, unmap-lt b hb, h (unmap b))

group_clear :
    {q : RunQueue}
    → IsValid q
    → ((p : ℕ) → p < 64 → is_runnable q p ≡ false)
    → (g : ℕ) → g < 8
    → q.run_bits g ≡ 0
group_clear {q} v h g hg = all_clear-eq-zero (q.run_bits g) (v.bytes g hg) λ j hj.
    let e : (g * 8 + j) / 8 ≡ g = omega arith in
    let f : (g * 8 + j) % 8 ≡ j = omega arith in ground (arith, e, f, h (g * 8 + j))

-- An empty queue has no lowest bit: `highest_prio` returns 0.
pub highest_prio-empty :
    {q : RunQueue} → IsValid q → ((p : ℕ) → p < 64 → is_runnable q p ≡ false) → highest_prio q ≡ 0
unfolding highest_prio unmap prio_unmap_table
highest_prio-empty {q} v h = rw (group_zero, byte_zero)
  where
    byte_zero : q.run_bits 0 ≡ 0
    byte_zero =
        all_clear-eq-zero (q.run_bits 0) (v.bytes 0 (omega arith)) (λ j hj. ground (arith, h j))

    group_zero : q.group_run_bits ≡ 0
    group_zero =
        all_clear-eq-zero q.group_run_bits v.group_byte
          (λ g hg. ground (arith, v.grouped g hg, group_clear v h g hg))
