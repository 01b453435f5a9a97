-- ===== src/Programs/Steps.antt =====
-- Calls of a program, in terms of what it knows of the kernel before and after them.
use fundamental_of_emb.Common.{ℕ, suc, ◌≡◌, refl, Option, some, List, ℤ, pos, negsuc, minus}
use fundamental_of_emb.Kernel.{Kernel, Outcome, leave, returned}
use fundamental_of_emb.Programs.{Client, call}
use fundamental_of_emb.Programs.Quiet.{NobodyWaits, Later, arrive-Arrives}

-- What is known of the kernel and no interrupt changes.
pub record Kept (I : Kernel → Type 0) : Type 0 where
  pub stays : {k k' : Kernel} → Later k k' → I k → I k'
  pub quiet : {k : Kernel} → I k → NobodyWaits k

pub record Returns (I : Kernel → Type 0) (r : ℤ) (o : Outcome) : Type 0 where
  pub after : Kernel
  pub result : o ≡ leave after (returned r)
  pub holds : I after

-- The handler returns `r` in every kernel with `I`, and leaves one with `J`.
abbrev pub Handles : (Kernel → Outcome) → (Kernel → Type 0) → ℤ → (Kernel → Type 0) → Type 0
Handles handler I r J = (k : Kernel) → I k → Returns J r (handler k)

-- What a wrapper returns, and what it leaves in `errno`.
abbrev pub value : ℤ → ℤ
value (pos n) = pos n
value (negsuc e) = minus 1

abbrev pub errno_after : ℤ → ℕ → ℕ
errno_after (pos n) old = old
errno_after (negsuc e) old = suc e

pub record Called (u : Client) (I : Kernel → Type 0) (r : ℤ) (o : Option (ℤ × Client))
    : Type 0 where
  pub kernel : Kernel
  pub pending : List ℕ
  pub result :
      o
      ≡ some
          (value r, record u { kernel = kernel; pending = pending; errno = errno_after r u.errno })
  pub holds : I kernel

module _ {I J : Kernel → Type 0} (kept : Kept I) where
  -- A call, whatever number of interrupts there is before it.
  pub call-Called :
      (handler : Kernel → Outcome) (r : ℤ)
      → Handles handler I r J
      → (u : Client) → I u.kernel
      → Called u J r (call handler u)
  call-Called handler (pos n) h u i =
      let a = arrive-Arrives u (kept.quiet i) in
      let ret = h a.kernel (kept.stays a.later i) in
      record {
        kernel = ret.after;
        pending = a.pending;
        result = rw (a.result, ret.result) refl;
        holds = ret.holds;
      }
  call-Called handler (negsuc e) h u i =
      let a = arrive-Arrives u (kept.quiet i) in
      let ret = h a.kernel (kept.stays a.later i) in
      record {
        kernel = ret.after;
        pending = a.pending;
        result = rw (a.result, ret.result) refl;
        holds = ret.holds;
      }
