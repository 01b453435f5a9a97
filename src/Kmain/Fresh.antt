-- ===== src/Kmain/Fresh.antt =====
-- What `kmain` of lab4/lab4/kernel/main.c gives to `mutex_create` and `task_create`.
use fundamental_of_emb.Common.{
  ℕ, zero, suc, ◌+◌, ◌<◌, ◌≡◌, refl, sym, subst, ◌∙◌, true, false, not, none, some, Option, ◌||◌,
  ◌==◌, arith, Bool-cases, inl, inr, ==_iff, bit_and, ltb, u32, fill_lem,
}
use fundamental_of_emb.Hijack.{
  Vectors, hijacking, bad_code, mask_check_ldr, negative_offset, positive_offset, offset_mask,
}
use fundamental_of_emb.Timer.{Saved, set_timer, osmr0_addr, ten_millis}
use fundamental_of_emb.Kernel.{Kernel, Mutex, disable_interrupts}
use fundamental_of_emb.Mutex.{mutex_init, mutex_create, create_from, create_at, fresh_mutex}
use fundamental_of_emb.Schedule.{Floats, assign_schedule}
use fundamental_of_emb.Task.{Task, sort_tasks}
use fundamental_of_emb.Boot.{task_create, argument_error}
use fundamental_of_emb.Boot.Sound.{task_create-Starts, Starts}
use fundamental_of_emb.Protocol.Defs.{MutexFine}
use fundamental_of_emb.Kmain.{Board, Start, fails, user_mode, enter, kmain, swi_vector, irq_vector}

-- The vector at `base` is none of the two forms of `ldr pc, [pc, ...]`.
abbrev pub IsNoJump : Vectors → ℕ → Type 0
IsNoJump v base =
    not (
      bit_and (v.memory base) mask_check_ldr == negative_offset
      || bit_and (v.memory base) mask_check_ldr == positive_offset)
    ≡ true

-- Calls of `mutex_create`, `n` of them.
unfoldable pub creates : ℕ → Kernel → Kernel
creates zero k = k
creates (suc n) k = (mutex_create (creates n k)).0

-- No mutex is locked, and none has a holder or sleepers.
abbrev pub AllFree : Kernel → Type 0
AllFree k = (i : ℕ) → i < 32 → MutexFine none (k.gt_mutex i) × ((k.gt_mutex i).locked ≡ false)

-- What `mutex_init` leaves.
abbrev pub AllFresh : Kernel → Type 0
AllFresh k = (i : ℕ) → i < 32 → k.gt_mutex i ≡ fresh_mutex

init-AllFresh : (k : Kernel) → AllFresh (mutex_init k)
unfolding mutex_init
init-AllFresh k i lt = fill_lem 32 (λ _. fresh_mutex) k.gt_mutex i ∙ ground arith

pub fresh-AllFree : (k : Kernel) → AllFresh k → AllFree k
fresh-AllFree k fresh i lt =
    rw (fresh i lt) (record { holder = refl; no_sleepers = refl; allocated = λ a. refl }, refl)

taken-Free :
    (m : Mutex)
    → MutexFine none m × (m.locked ≡ false)
    → MutexFine none (record m { available = false }) × (m.locked ≡ false)
taken-Free m (f, free) =
    (record { holder = f.holder; no_sleepers = f.no_sleepers; allocated = λ a. free }, free)

create-AllFree : (k : Kernel) (o : Option ℕ) → AllFree k → AllFree (create_at k o).0
create-AllFree k none free = free
create-AllFree k (some j) free = λ i lt. elim (Bool-cases (j == i)) [
  | inl e ↦ rw e (
      taken-Free (k.gt_mutex j) (
        subst (λ x. MutexFine none (k.gt_mutex x) × ((k.gt_mutex x).locked ≡ false))
          (sym ((==_iff j i).0 e)) (free i lt)))
  | inr ne ↦ rw ne (free i lt)
]

creates-AllFree : (n : ℕ) (k : Kernel) → AllFree k → AllFree (creates n k)
unfolding creates mutex_create
creates-AllFree zero k free = free
creates-AllFree (suc n) k free =
    create-AllFree (disable_interrupts (creates n k)) (create_from 32 0 (creates n k).gt_mutex)
      (creates-AllFree n k free)

-- How `kmain` can end. `no_swi` and `no_irq` are the failures: nothing has changed, or the SWI
-- handler is replaced and stays so. Otherwise user mode is entered.
pub data KmainEnd (swihandler irq_wrapper : ℕ) (b : Board) : Start → Type 0 where
  no_swi : IsNoJump b.vectors swi_vector → KmainEnd swihandler irq_wrapper b (fails b)
  no_irq :
      (v : Vectors)
      → v ≡ (hijacking swihandler irq_wrapper swi_vector 1 b.vectors).1
      → IsNoJump v irq_vector
      → KmainEnd swihandler irq_wrapper b (fails (record b { vectors = v }))
  entered :
      (after : Board) (saved : Saved)
      → (¬ IsNoJump b.vectors swi_vector)
        × (¬ IsNoJump (hijacking swihandler irq_wrapper swi_vector 1 b.vectors).1 irq_vector)
      → after.regs osmr0_addr ≡ ten_millis
      → AllFresh after.kernel
      → after.vectors
        ≡ (hijacking swihandler irq_wrapper irq_vector 2
            (hijacking swihandler irq_wrapper swi_vector 1 b.vectors).1).1
      → KmainEnd swihandler irq_wrapper b (user_mode after saved)

-- `hijacking` returns 0xbadc0de only where the vector is no jump, and then changes nothing.
bad_only :
    (swihandler irq_wrapper base mode : ℕ) (v : Vectors)
    → ((hijacking swihandler irq_wrapper base mode v).0 == bad_code) ≡ true
    → IsNoJump v base × ((hijacking swihandler irq_wrapper base mode v).1 ≡ v)
unfolding hijacking
bad_only swihandler irq_wrapper base mode v e =
    let check = bit_and (v.memory base) mask_check_ldr in
    elim (Bool-cases (not (check == negative_offset || check == positive_offset))) [
      | inl bad ↦ rw bad (refl, refl)
      | inr good ↦ elim (Bool-cases (check == negative_offset)) [
        | inr positive ↦ absurd (ground (e, good, positive, arith))
        | inl neg ↦
            elim (Bool-cases (ltb (u32 (base + base)) (bit_and (v.memory base) offset_mask))) [
              | inl up ↦ absurd (ground (e, good, neg, up, arith))
              | inr down ↦ absurd (ground (e, good, neg, down, arith))
            ]
      ]
    ]

good_only :
    (swihandler irq_wrapper base mode : ℕ) (v : Vectors)
    → ((hijacking swihandler irq_wrapper base mode v).0 == bad_code) ≡ false
    → ¬ IsNoJump v base
unfolding hijacking
good_only swihandler irq_wrapper base mode v e p =
    let known : ((hijacking swihandler irq_wrapper base mode v).0 == bad_code) ≡ true = rw p refl in
    absurd (ground (arith, e, known))

module _ (swihandler irq_wrapper : ℕ) (b : Board) where
  enter-KmainEnd :
      (v : Vectors)
      → (¬ IsNoJump b.vectors swi_vector)
        × (¬ IsNoJump (hijacking swihandler irq_wrapper swi_vector 1 b.vectors).1 irq_vector)
      → v
        ≡ (hijacking swihandler irq_wrapper irq_vector 2
            (hijacking swihandler irq_wrapper swi_vector 1 b.vectors).1).1
      → KmainEnd swihandler irq_wrapper b (enter (record b { vectors = v }))
  unfolding set_timer
  enter-KmainEnd v jumps e = entered _ _ jumps refl (init-AllFresh b.kernel) e

  -- `kmain` fails exactly if one of the two vectors is no jump of the two forms that `hijacking`
  -- knows; the SWI handler stays replaced if it is the second. Otherwise it enters user mode with
  -- what the two calls of `hijacking` leave, the match register at 32500 and 32 free mutexes.
  pub kmain_lem : KmainEnd swihandler irq_wrapper b (kmain swihandler irq_wrapper b)
  unfolding kmain
  kmain_lem =
      let s = hijacking swihandler irq_wrapper swi_vector 1 b.vectors in
      let i = hijacking swihandler irq_wrapper irq_vector 2 s.1 in
      elim (Bool-cases (s.0 == bad_code)) [
        | inl e ↦
            let h = bad_only swihandler irq_wrapper swi_vector 1 b.vectors e in
            rw (e, h.1) (no_swi h.0)
        | inr good ↦ rw good (elim (Bool-cases (i.0 == bad_code)) [
          | inl e ↦
              let h = bad_only swihandler irq_wrapper irq_vector 2 s.1 e in
              rw (e, h.1) (no_irq s.1 refl h.0)
          | inr fine ↦ rw fine (
              enter-KmainEnd i.1
                (
                  good_only swihandler irq_wrapper swi_vector 1 b.vectors good,
                  good_only swihandler irq_wrapper irq_vector 2 s.1 fine,
                )
                refl)
        ])
      ]

  abbrev EntersFree : Start → Type 0
  EntersFree (fails b) = Unit
  EntersFree (user_mode after saved) = AllFresh after.kernel

  ended-EntersFree : (s : Start) → KmainEnd swihandler irq_wrapper b s → EntersFree s
  ended-EntersFree s (no_swi h) = tt
  ended-EntersFree s (no_irq v e h) = tt
  ended-EntersFree s (entered after saved jumps m free v) = free

  pub enters-AllFresh :
      (after : Board) (saved : Saved)
      → kmain swihandler irq_wrapper b ≡ user_mode after saved
      → AllFresh after.kernel
  enters-AllFresh after saved run = subst EntersFree run (ended-EntersFree _ kmain_lem)

  -- When `kmain` has entered user mode, `task_create` starts a sound system of `num` tasks in the
  -- first of the sorted tasks, after any number of `mutex_create` calls, if its arguments pass the
  -- checks and the sorted tasks the schedulability test.
  pub first_create :
      (f : Floats) (idle addr : ℕ) (tasks : ℕ → Task) (num calls : ℕ) (after : Board)
      (saved : Saved)
      → kmain swihandler irq_wrapper b ≡ user_mode after saved
      → argument_error addr tasks num ≡ 0
      → assign_schedule f (sort_tasks num tasks) num ≡ true
      → Starts num
          (sort_tasks num tasks 0)
          (creates calls after.kernel).gt_mutex
          (task_create f idle addr tasks num (creates calls after.kernel)).1
  first_create f idle addr tasks num calls after saved run ok accepted =
      (task_create-Starts f idle addr tasks num (creates calls after.kernel) ok accepted (
        creates-AllFree calls after.kernel
          (fresh-AllFree after.kernel (enters-AllFresh after saved run)))).1
