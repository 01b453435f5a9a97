-- ===== src/Programs/Pool.antt =====
-- The mutexes as `mutex_create` of lab4/lab4/kernel/lock/mutex.c hands them out.
use fundamental_of_emb.Common.{
  ℕ, zero, suc, ◌+◌, ◌<◌, ◌≤◌, ◌≡◌, refl, ap, ◌∙◌, true, false, not, Option, none, some, ltb, ◌==◌,
  ==_iff, arith, Bool-cases, inl, inr, pos, minus,
}
use fundamental_of_emb.Kernel.{Kernel, Mutex, disable_interrupts, enable_interrupts, enomem}
use fundamental_of_emb.RunQueue.{Ptr}
use fundamental_of_emb.Kmain.Fresh.{creates}
use fundamental_of_emb.Mutex.{mutex_create, create_at, create_from, fresh_mutex}

-- The first `n` mutexes are created, and nothing else has happened to any of them; `c` is current.
pub record Created (n : ℕ) (c : Ptr) (k : Kernel) : Type 0 where
  pub mutexes : (i : ℕ) → i < 32 → k.gt_mutex i ≡ record fresh_mutex { available = not (ltb i n) }
  pub current : k.cur_tcb ≡ c

create_from-first :
    (j i n : ℕ) (ms : ℕ → Mutex)
    → ((m : ℕ) → m < n → (ms m).available ≡ false)
    → i ≤ n
    → n < i + j
    → (ms n).available ≡ true
    → create_from j i ms ≡ some n
unfolding create_from
create_from-first zero i n ms taken lo hi free = absurd (omega (arith, lo, hi))
create_from-first (suc j) i n ms taken lo hi free = elim (Bool-cases (i == n)) [
  | inl e ↦
      let at : i ≡ n = (==_iff i n).0 e in rw (ap (λ x. (ms x).available) at ∙ free) (ap some at)
  | inr ne ↦
      rw (taken i (ground arith))
        (create_from-first j (i + 1) n ms taken (ground arith) (ground arith) free)
]

create_from-none :
    (j i n : ℕ) (ms : ℕ → Mutex)
    → ((m : ℕ) → m < n → (ms m).available ≡ false)
    → i + j ≤ n
    → create_from j i ms ≡ none
unfolding create_from
create_from-none zero i n ms taken hi = refl
create_from-none (suc j) i n ms taken hi =
    rw (taken i (omega arith)) (create_from-none j (i + 1) n ms taken (omega arith))

module _ {n : ℕ} {c : Ptr} {k : Kernel} (p : Created n c k) where
  taken : n < 33 → (m : ℕ) → m < n → m < 32 → (k.gt_mutex m).available ≡ false
  taken le m lt in_range = ap (λ x. x.available) (p.mutexes m in_range) ∙ ground arith

  -- The next number, and the pool with one mutex less.
  pub mutex_create-next :
      n < 32 → Created (suc n) c (mutex_create k).0 × ((mutex_create k).1 ≡ pos n)
  unfolding mutex_create
  mutex_create-next lt =
      let found : create_from 32 0 k.gt_mutex ≡ some n =
        create_from-first 32 0 n k.gt_mutex (λ m l. taken (omega arith) m l (omega arith))
          (omega arith) (omega arith) (ap (λ x. x.available) (p.mutexes n lt) ∙ ground arith) in
      rw found (
        record {
          mutexes = λ i l. elim (Bool-cases (n == i)) [
            | inl e ↦
                let below : ltb i (suc n) ≡ true = ground arith in
                rw (e, below, p.mutexes n lt) refl
            | inr ne ↦
                let before : ltb i (suc n) ≡ ltb i n = ground arith in
                rw (ne, before) (p.mutexes i l)
          ];
          current = p.current;
        },
        refl,
      )

-- `n` calls in a kernel without a created mutex.
pub creates-Created :
    (n : ℕ) (k : Kernel)
    → n < 33
    → ((i : ℕ) → i < 32 → k.gt_mutex i ≡ fresh_mutex)
    → Created n k.cur_tcb (creates n k)
unfolding creates
creates-Created zero k lt fresh = record {
  mutexes = λ i l. let free : ltb i 0 ≡ false = ground arith in rw free (fresh i l);
  current = refl;
}
creates-Created (suc n) k lt fresh =
    (mutex_create-next (creates-Created n k (omega (arith, lt)) fresh) (omega (arith, lt))).0

-- With all mutexes taken, the error, and nothing else changes.
pub mutex_create-full :
    {c : Ptr} {k : Kernel}
    → Created 32 c k
    → mutex_create k ≡ (enable_interrupts (disable_interrupts k), minus enomem)
unfolding mutex_create
mutex_create-full {k} p =
    rw (create_from-none 32 0 32 k.gt_mutex (λ m l. taken p (omega arith) m l l) (omega arith)) refl

create_at-devices : (k : Kernel) (o : Option ℕ) → (create_at k o).0.devices ≡ k.devices
create_at-devices k none = refl
create_at-devices k (some i) = refl

pub mutex_create-devices : (k : Kernel) → (mutex_create k).0.devices ≡ k.devices
unfolding mutex_create
mutex_create-devices k = create_at-devices (disable_interrupts k) (create_from 32 0 k.gt_mutex)
