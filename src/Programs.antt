-- ===== src/Programs.antt =====
-- User programs as clients of the kernel: the C wrappers of the system calls in
-- lab4/lab4/tasks/libc/swi, which put the number of an error into `errno` and return -1.
pub mod SysErr
pub mod Quiet
pub mod Steps
pub mod Pool
pub mod Chaser
pub mod Mains
pub mod Dagger
pub mod Cyclone
use fundamental_of_emb.Common.{
  ℕ, zero, suc, ptr_eq, ◌≡◌, refl, ap, Bool, true, false, Option, none, some, List, [], ◌∷◌, ◌++◌,
  ℤ, pos, negsuc, minus, ◌==◌, if◌then◌else◌,
}
use fundamental_of_emb.Device.{timer_irq}
use fundamental_of_emb.Kernel.{Kernel, Outcome, leave, stuck, launched, returned, interrupted}

-- A program that runs as the current task: the kernel, its variable `errno`, the results of its
-- tests, the last one last, and how many timer interrupts there are before each of its next calls.
-- Behind the end of that list there are none.
pub record Client : Type 0 where
  pub kernel : Kernel
  pub errno : ℕ
  pub passed : List Bool
  pub pending : List ℕ

-- `none` is a call that does not come back to the program, but goes on in another one.
abbrev pub Prog : Type 0 → Type 0
Prog A = Client → Option (A × Client)

abbrev pub pure : {A : Type 0} → A → Prog A
pure a u = some (a, u)

module _ {A B : Type 0} where
  abbrev pub and_then : Option (A × Client) → (A → Prog B) → Option (B × Client)
  and_then none f = none
  and_then (some (a, u)) f = f a u

  infixl 5 ◌>>=◌ ◌>>◌
  abbrev pub ◌>>=◌ : Prog A → (A → Prog B) → Prog B
  p >>= f = λ u. and_then (p u) f

  abbrev pub ◌>>◌ : Prog A → Prog B → Prog B
  p >> q = p >>= λ _. q

-- What a wrapper makes of the end of its system call.
abbrev pub wrapped : Client → Outcome → Option (ℤ × Client)
wrapped u stuck = none
wrapped u (leave k launched) = none
wrapped u (leave k interrupted) = none
wrapped u (leave k (returned (pos r))) = some (pos r, record u { kernel = k })
wrapped u (leave k (returned (negsuc e))) = some (minus 1, record u { kernel = k; errno = suc e })

-- Timer interrupts, `n` of them, that all come back to the task that they interrupt. Interrupts are
-- on in user mode, whatever the kernel's flag was when it was left.
abbrev pub after_irq : Kernel → Outcome → Option Kernel
after_irq k stuck = none
after_irq k (leave k' launched) = none
after_irq k (leave k' (returned r)) = none
after_irq k (leave k' interrupted) = if ptr_eq k'.cur_tcb k.cur_tcb then some k' else none

unfoldable pub irqs : ℕ → Kernel → Option Kernel
irqs zero k = some k
irqs (suc n) k = elim (irqs n k) [ none ↦ none | some k' ↦ after_irq k' (timer_irq k') ]

abbrev pub continued : Client → List ℕ → Option Kernel → Option Client
continued u rest none = none
continued u rest (some k) = some (record u { kernel = k; pending = rest })

abbrev pub interrupted_by : Client → List ℕ → Option Client
interrupted_by u [] = some u
interrupted_by u (n ∷ rest) = continued u rest (irqs n u.kernel)

-- The program where its next call enters the kernel.
abbrev pub arrive : Client → Option Client
arrive u = interrupted_by u u.pending

abbrev pub called : (Kernel → Outcome) → Option Client → Option (ℤ × Client)
called handler none = none
called handler (some u) = wrapped u (handler u.kernel)

-- The interrupts before a call, and the call.
abbrev pub call : (Kernel → Outcome) → Prog ℤ
call handler u = called handler (arrive u)

abbrev pub get_errno : Prog ℤ
get_errno u = some (pos u.errno, u)

abbrev pub same : ℤ → ℤ → Bool
same (pos a) (pos b) = a == b
same (negsuc a) (negsuc b) = a == b
same (pos a) (negsuc b) = false
same (negsuc a) (pos b) = false
