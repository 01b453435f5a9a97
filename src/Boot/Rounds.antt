-- ===== src/Boot/Rounds.antt =====
-- The loop of allocate_tasks (lab4/lab4/kernel/sched/sched.c) fills the run queue and the blocks.
use fundamental_of_emb.Common.{
  ℕ, zero, suc, ◌+◌, ◌<◌, ◌≡◌, refl, ◌∙◌, ◌&&◌, none, some, update, ltb, leb, ◌==◌, if◌then◌else◌,
  arith, Bool-cases, inl, inr, ==_iff,
}
use fundamental_of_emb.RunQueue.{RunQueue, runqueue_add}
use fundamental_of_emb.RunQueue.Inv.{IsValid, runqueue_add-IsValid}
use fundamental_of_emb.Kernel.{Kernel, Tcb}
use fundamental_of_emb.Task.{Task}
use fundamental_of_emb.Boot.{fresh_tcb, set_context, allocate_rounds}

-- The state after `i` rounds of `allocate_tasks`, started at `k`.
pub record Allocated (tasks : ℕ → Task) (k : Kernel) (i : ℕ) (k' : Kernel) : Type 0 where
  pub valid : IsValid k'.run_queue
  pub listed :
      (t : ℕ) → t < 64 → k'.run_queue.run_list t ≡ (if ltb 0 t && leb t i then some t else none)
  pub blocks :
      (t : ℕ)
      → t < i
      → k'.system_tcb (t + 1)
        ≡ fresh_tcb (t + 1) (tasks t).lambda (tasks t).argument (tasks t).stack_pos
  pub devices : (d : ℕ) → k'.devices d ≡ k.devices d
  pub mutexes : (m : ℕ) → k'.gt_mutex m ≡ k.gt_mutex m
  pub clock : k'.timer_count ≡ k.timer_count

add_slot :
    (q : RunQueue) (i : ℕ) (t : ℕ)
    → (q.run_list t ≡ (if ltb 0 t && leb t i then some t else none))
    → (runqueue_add q (some (i + 1)) (i + 1)).run_list t
      ≡ (if ltb 0 t && leb t (suc i) then some t else none)
unfolding runqueue_add
add_slot q i t h = elim (Bool-cases (i + 1 == t)) [
  | inl e ↦ rw (e, (==_iff (i + 1) t).0 e) (ground arith)
  | inr e ↦ rw e (h ∙ ground arith)
]

set_block :
    (s : ℕ → Tcb) (b : ℕ → Tcb) (i t : ℕ)
    → (t < i → s (t + 1) ≡ b t)
    → t < suc i
    → update s (i + 1) (b i) (t + 1) ≡ b t
set_block s b i t h lt = elim (Bool-cases (i == t)) [
  | inl e ↦ let e' : i ≡ t = (==_iff i t).0 e in rw e' (ground arith)
  | inr e ↦ ground (arith, h)
]

task_block : (ℕ → Task) → ℕ → Tcb
task_block tasks t = fresh_tcb (t + 1) (tasks t).lambda (tasks t).argument (tasks t).stack_pos

pub allocate_rounds-Allocated :
    (tasks : ℕ → Task) (k : Kernel) (i : ℕ)
    → i < 63
    → IsValid k.run_queue
    → ((t : ℕ) → t < 64 → k.run_queue.run_list t ≡ none)
    → Allocated tasks k i (allocate_rounds tasks i k)
unfolding allocate_rounds set_context task_block
allocate_rounds-Allocated tasks k zero lt v e = record {
  valid = v;
  listed = λ t l. e t l ∙ ground arith;
  blocks = λ t l. absurd (omega arith);
  devices = λ d. refl;
  mutexes = λ m. refl;
  clock = refl;
}
allocate_rounds-Allocated tasks k (suc i) lt v e =
    let ih = allocate_rounds-Allocated tasks k i (omega arith) v e in
    record {
      valid = runqueue_add-IsValid ih.valid (i + 1) (i + 1) (omega arith);
      listed = λ t l. add_slot _ i t (ih.listed t l);
      blocks = λ t l.
          set_block ((allocate_rounds tasks i k).system_tcb) (task_block tasks) i t (ih.blocks t) l;
      devices = ih.devices;
      mutexes = ih.mutexes;
      clock = ih.clock;
    }
