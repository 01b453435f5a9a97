-- ===== src/Sleep.antt =====
-- The sleep queues of mutexes and devices: blocks linked by their field `sleep_queue`, in
-- lab4/lab4/kernel/lock/mutex.c and lab4/lab4/kernel/device.c.
use fundamental_of_emb.Common.{ℕ, zero, suc, Option, none, some}
use fundamental_of_emb.RunQueue.{Ptr}
use fundamental_of_emb.Kernel.{Tcb, tcb_at, store}

-- `while (temp->sleep_queue != NULL) temp = temp->sleep_queue`: the last entry of the queue.
unfoldable pub last_sleeper : ℕ → (ℕ → Tcb) → ℕ → Option ℕ
last_sleeper zero s temp = none
last_sleeper (suc fuel) s temp = elim (s temp).sleep_queue [
  | none ↦ some temp
  | some next ↦ last_sleeper fuel s next
]

-- More than the entries of `system_tcb`, so enough for any queue without a cycle.
abbrev pub queue_fuel : ℕ
queue_fuel = 65

-- `p->sleep_queue = next`.
abbrev pub link : (ℕ → Tcb) → Ptr → Ptr → ℕ → Tcb
link s p next = store s p (record (tcb_at s p) { sleep_queue = next })

-- The current task goes to the end of a sleep queue: the queue's new head, and the blocks.
abbrev pub append_at : (ℕ → Tcb) → Ptr → Ptr → Option ℕ → Option (Ptr × (ℕ → Tcb))
append_at s head cur none = none
append_at s head cur (some last) = some (head, link (link s (some last) cur) cur none)

unfoldable pub append_sleeper : (ℕ → Tcb) → Ptr → Ptr → Option (Ptr × (ℕ → Tcb))
append_sleeper s none cur = some (cur, link s cur none)
append_sleeper s (some head) cur = append_at s (some head) cur (last_sleeper queue_fuel s head)
