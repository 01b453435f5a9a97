-- ===== src/RunQueue/Refine.antt =====
-- The run queue of lab4/lab4/kernel/sched/run_queue.c behaves as the table of `Ready`.
use fundamental_of_emb.Common.{
  ℕ, zero, suc, ◌+◌, ◌≤◌, ◌<◌, ◌≡◌, refl, ap, inl, inr, true, false, Option, none, some, List, [],
  ◌∷◌, is_some, update, arith, Bool-cases, ◌∙◌,
}
use fundamental_of_emb.Ready
use fundamental_of_emb.Ready.{
  Op, Reply, Table, add, remove, highest, done, removed, prio, first_from, highest_of, or_zero,
  remove_at, InRange,
}
use fundamental_of_emb.RunQueue.{RunQueue, runqueue_add, runqueue_remove, highest_prio}
use fundamental_of_emb.RunQueue.Inv.{
  IsValid, is_runnable, runqueue_add-IsValid, runqueue_remove-IsValid,
}
use fundamental_of_emb.RunQueue.Highest.{highest_prio-least, highest_prio-empty}

-- The calls of a script on the real queue.
unfoldable pub run : RunQueue → List Op → List Reply
run q [] = []
run q (add t p ∷ ops) = done ∷ run (runqueue_add q (some t) p) ops
run q (remove p ∷ ops) = let (t, q') = runqueue_remove q p in removed t ∷ run q' ops
run q (highest ∷ ops) = prio (highest_prio q) ∷ run q ops

-- The queue holds the table's tasks at the 64 priorities.
abbrev pub Agrees : RunQueue → Table → Type 0
Agrees q r = (p : ℕ) → p < 64 → q.run_list p ≡ r p

-- What a search says of the table.
data Search (r : Table) (n p : ℕ) (o : Option ℕ) : Type 0 where
  missing : o ≡ none → ((j : ℕ) → p ≤ j → j < p + n → is_some (r j) ≡ false) → Search r n p o
  found :
      (k : ℕ)
      → o ≡ some k
      → p ≤ k
      → k < p + n
      → is_some (r k) ≡ true
      → ((j : ℕ) → p ≤ j → j < k → is_some (r j) ≡ false)
      → Search r n p o

Search-grow :
    (r : Table) (n p : ℕ) (o : Option ℕ)
    → is_some (r p) ≡ false
    → Search r n (p + 1) o
    → Search r (suc n) p o
Search-grow r n p o e (missing m h) = missing m (λ j lo hi. ground (arith, h j))
Search-grow r n p o e (found k m lo hi s below) =
    found k m (omega arith) (omega arith) s (λ j lo' hi'. ground (arith, below j))

first_from-Search : (n p : ℕ) (r : Table) → Search r n p (first_from n p r)
unfolding first_from
first_from-Search zero p r = missing refl (λ j lo hi. absurd (omega arith))
first_from-Search (suc n) p r = elim (Bool-cases (is_some (r p))) [
  | inl e ↦ rw e (found p refl (omega arith) (omega arith) e (λ j lo hi. absurd (omega arith)))
  | inr e ↦ rw e (Search-grow r n p (first_from n (p + 1) r) e (first_from-Search n (p + 1) r))
]

module _ {q : RunQueue} (v : IsValid q) (r : Table) (a : Agrees q r) where
  runnable-eq : (p : ℕ) → p < 64 → is_runnable q p ≡ is_some (r p)
  runnable-eq p h = v.listed p h ∙ ap is_some (a p h)

  highest_of_Search : (o : Option ℕ) → Search r 64 0 o → highest_prio q ≡ or_zero o
  highest_of_Search o (missing m h) =
      rw m (highest_prio-empty v λ p hp. runnable-eq p hp ∙ h p (omega arith) (omega arith))
  highest_of_Search o (found k m lo hi s below) =
      let least = highest_prio-least v k (omega arith) (runnable-eq k (omega arith) ∙ s) in
      ground (arith, least, runnable-eq (highest_prio q) least.0, below (highest_prio q))

  -- `highest_prio` is the most urgent priority of the table.
  pub highest_prio_refines : highest_prio q ≡ highest_of r
  unfolding highest_of
  highest_prio_refines = highest_of_Search (first_from 64 0 r) (first_from-Search 64 0 r)

  add-Agrees : (t p : ℕ) → Agrees (runqueue_add q (some t) p) (update r p (some t))
  unfolding runqueue_add
  add-Agrees t p j hj = ground (arith, a j hj)

  remove-Agrees : (p : ℕ) → Agrees (runqueue_remove q p).1 (remove_at r p)
  unfolding runqueue_remove
  remove-Agrees p j hj = ground (arith, a j hj)

  remove-eq : (p : ℕ) → p < 64 → (runqueue_remove q p).0 ≡ r p
  unfolding runqueue_remove
  remove-eq p h = ground (arith, a p h)

-- No script of calls at the 64 priorities tells a well-formed queue from the table it agrees with.
pub run_refines :
    (ops : List Op) {q : RunQueue} (r : Table)
    → InRange ops
    → IsValid q
    → Agrees q r
    → run q ops ≡ Ready.run r ops
unfolding run Ready.run
run_refines [] r i v a = refl
run_refines (add t p ∷ ops) r i v a =
    ap (λ l. done ∷ l)
      (run_refines ops (update r p (some t)) i.1 (runqueue_add-IsValid v t p i.0)
        (add-Agrees v r a t p))
run_refines (remove p ∷ ops) r i v a = rw (remove-eq v r a p i.0) (
    ap (λ l. removed (r p) ∷ l)
      (run_refines ops (remove_at r p) i.1 (runqueue_remove-IsValid v p i.0)
        (remove-Agrees v r a p)))
run_refines (highest ∷ ops) r i v a =
    rw (highest_prio_refines v r a) (ap (λ l. prio (highest_of r) ∷ l) (run_refines ops r i v a))
