-- ===== src/Protocol/Wake.antt =====
-- The inner loop of `dev_update` (lab4/lab4/kernel/device.c) empties a sleep queue.
use fundamental_of_emb.Common.{
  ℕ, zero, suc, ◌≤◌, ◌<◌, ◌≡◌, refl, sym, ◌∙◌, ap, false, Option, none, some, List, [], ◌∷◌, update,
  length, if◌then◌else◌, arith, subst,
}
use fundamental_of_emb.RunQueue.{Ptr, RunQueue, runqueue_add}
use fundamental_of_emb.RunQueue.Inv.{IsValid, runqueue_add-IsValid}
use fundamental_of_emb.Kernel.{Tcb}
use fundamental_of_emb.Device.{wake_all}
use fundamental_of_emb.Protocol.Defs.{contains, Chain, All, Distinct}
use fundamental_of_emb.Protocol.Lists.{All-map, Chain-frame}

-- The members at their own priorities.
pub add_all : RunQueue → List ℕ → RunQueue
add_all q [] = q
add_all q (x ∷ xs) = add_all (runqueue_add q (some x) x) xs

pub add_all-IsValid :
    (q : RunQueue) (xs : List ℕ) → IsValid q → All (λ t. t < 64) xs → IsValid (add_all q xs)
unfolding add_all
add_all-IsValid q [] v h = v
add_all-IsValid q (x ∷ xs) v h =
    add_all-IsValid (runqueue_add q (some x) x) xs (runqueue_add-IsValid v x x h.0) h.1

pub add_all_lem :
    (q : RunQueue) (xs : List ℕ) (t : ℕ)
    → (add_all q xs).run_list t ≡ (if contains t xs then some t else q.run_list t)
unfolding add_all contains runqueue_add
add_all_lem q [] t = refl
add_all_lem q (x ∷ xs) t = add_all_lem (runqueue_add q (some x) x) xs t ∙ ground arith

-- The loop ends with all members added and unlinked, and nothing else changed.
pub record Woken (s : ℕ → Tcb) (xs : List ℕ) (q : RunQueue) (o : Option (RunQueue × (ℕ → Tcb)))
    : Type 0 where
  pub blocks : ℕ → Tcb
  pub result : o ≡ some (add_all q xs, blocks)
  pub others : (t : ℕ) → contains t xs ≡ false → (blocks t).sleep_queue ≡ (s t).sleep_queue
  pub fields : (t : ℕ) → blocks t ≡ record (s t) { sleep_queue = (blocks t).sleep_queue }

abbrev unlinked : (ℕ → Tcb) → ℕ → ℕ → Tcb
unlinked s x = update s x (record (s x) { sleep_queue = none })

kept-prio :
    (s : ℕ → Tcb) (x : ℕ) (xs : List ℕ)
    → All (λ t. (s t).cur_prio ≡ t) xs
    → All (λ t. (unlinked s x t).cur_prio ≡ t) xs
kept-prio s x xs e = All-map (λ t h. ground (arith, h)) xs e

wake-step :
    (fuel : ℕ) (s : ℕ → Tcb) (x : ℕ) (xs : List ℕ) (q : RunQueue)
    → (s x).cur_prio ≡ x
    → Woken
        (unlinked s x)
        xs
        (runqueue_add q (some x) x)
        (wake_all fuel (s x).sleep_queue (runqueue_add q (some x) x) (unlinked s x))
    → Woken s
        (x ∷ xs)
        q
        (wake_all fuel (s x).sleep_queue (runqueue_add q (some x) (s x).cur_prio) (unlinked s x))
unfolding add_all contains
wake-step fuel s x xs q e ih = record {
  blocks = ih.blocks;
  result =
      ap (λ p. wake_all fuel (s x).sleep_queue (runqueue_add q (some x) p) (unlinked s x)) e
      ∙ ih.result;
  others = λ t h. ground (arith, h, ih.others t);
  fields = λ t. ground (arith, ih.fields t);
}

pub wake_all_lem :
    (fuel : ℕ) (s : ℕ → Tcb) (p : Ptr) (xs : List ℕ) (q : RunQueue)
    → length xs ≤ fuel
    → Chain s p xs
    → Distinct xs
    → All (λ t. (s t).cur_prio ≡ t) xs
    → Woken s xs q (wake_all fuel p q s)
unfolding wake_all add_all contains
wake_all_lem fuel s none [] q f c d e = record {
  blocks = s;
  result = refl;
  others = λ t h. refl;
  fields = λ t. refl;
}
wake_all_lem fuel s none (x ∷ xs) q f c d e = absurd c
wake_all_lem fuel s (some i) [] q f c d e = absurd c
wake_all_lem zero s (some i) (x ∷ xs) q f c d e = absurd (omega arith)
wake_all_lem (suc fuel) s (some i) (x ∷ xs) q f c d e =
    subst (λ j. Woken s (x ∷ xs) q (wake_all (suc fuel) (some j) q s)) (sym c.0)
      (wake-step fuel s x xs q e.0 (
        wake_all_lem fuel (unlinked s x) (s x).sleep_queue xs (runqueue_add q (some x) x)
          (omega arith)
          (Chain-frame s (unlinked s x) (s x).sleep_queue xs
            (All-map (λ t ne. ground (arith, ne)) xs d.0) c.1)
          d.1 (kept-prio s x xs e.1)))
