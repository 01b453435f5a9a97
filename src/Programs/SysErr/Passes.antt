-- ===== src/Programs/SysErr/Passes.antt =====
-- Every test of lab4/lab4/tasks/sys_err/sys_err.c passes.
use fundamental_of_emb.Common.{
  append_assoc, ℕ, zero, suc, ◌+◌, ◌≡◌, refl, subst, ◌∙◌, Bool, true, Option, none, some, List, [],
  ◌∷◌, ◌++◌, arith, pos, negsuc,
}
use fundamental_of_emb.Kernel.{Kernel, Outcome}
use fundamental_of_emb.Programs.{Client, Prog, ◌>>=◌, ◌>>◌, call, same}
use fundamental_of_emb.Programs.Steps.{Kept, Handles, call-Called}
use fundamental_of_emb.Protocol.Reach.{create_outcome}
use fundamental_of_emb.Mutex.{mutex_create}
use fundamental_of_emb.Programs.SysErr.{
  check_return, check_errno, create_mutexes, error_checks, fun1,
}
use fundamental_of_emb.Programs.SysErr.Calls.{
  At, At-Kept, created, four_held, create-next, create-full, unlock_165, unlock_23, lock_124,
  lock_4, lock_again, unlock_4, wait_10000,
}

-- The program comes to its end, with these results behind the earlier ones.
abbrev pub Passes : List Bool → List Bool → Option (Unit {0} × Client) → Type 0
Passes results before none = ⊥
Passes results before (some (r, after)) = after.passed ≡ before ++ results

Passes-append :
    (before results : List Bool) (o : Option (Unit {0} × Client))
    → Passes results (before ++ (true ∷ [])) o
    → Passes (true ∷ results) before o
Passes-append before results none p = p
Passes-append before results (some (r, after)) p = p ∙ append_assoc before (true ∷ []) results

same_pos : (n : ℕ) → same (pos n) (pos n) ≡ true
same_pos n = ground arith

module _ {I J : Kernel → Type 0} (kept : Kept I) (handler : Kernel → Outcome) (rest : Prog Unit)
    (results : List Bool)
    (behind : (v : Client) → J v.kernel → Passes results v.passed (rest v)) where
  -- A call that fails, the test of `errno`, and the rest.
  error-Passes :
      (e : ℕ)
      → Handles handler I (negsuc e) J
      → (u : Client) → I u.kernel
      → Passes (true ∷ results) u.passed ((do call handler; check_errno (suc e); rest) u)
  unfolding check_return
  error-Passes e h u i =
      let c = call-Called kept handler (negsuc e) h u i in
      rw (c.result, same_pos (suc e))
        (Passes-append u.passed results _ (
          behind
            (record u {
              kernel = c.kernel;
              pending = c.pending;
              errno = suc e;
              passed = u.passed ++ (true ∷ []);
            })
            c.holds))

  -- A call that succeeds, the test of its result, and the rest.
  success-Passes :
      (n : ℕ)
      → Handles handler I (pos n) J
      → (u : Client) → I u.kernel
      → Passes (true ∷ results) u.passed ((do ret ← call handler; check_return ret (pos n); rest) u)
  unfolding check_return
  success-Passes n h u i =
      let c = call-Called kept handler (pos n) h u i in
      rw (c.result, same_pos n)
        (Passes-append u.passed results _ (
          behind
            (record u { kernel = c.kernel; pending = c.pending; passed = u.passed ++ (true ∷ []) })
            c.holds))

module _ {I J : Kernel → Type 0} (kept : Kept I) (handler : Kernel → Outcome) where
  -- A call that fails and the test of `errno`, at the end of a program.
  last-Passes :
      (e : ℕ)
      → Handles handler I (negsuc e) J
      → (u : Client) → I u.kernel
      → Passes (true ∷ []) u.passed ((do call handler; check_errno (suc e)) u)
  unfolding check_return
  last-Passes e h u i =
      let c = call-Called kept handler (negsuc e) h u i in rw (c.result, same_pos (suc e)) refl

record Filled (c : ℕ) (u : Client) (o : Option (Unit {0} × Client)) : Type 0 where
  after : Client
  ends : o ≡ some (tt, after)
  pool : At (created 32) c after.kernel
  passed : after.passed ≡ u.passed

create_mutexes-Filled :
    (j n c : ℕ) (u : Client)
    → n + j ≡ 32
    → At (created n) c u.kernel
    → Filled c u (create_mutexes j u)
unfolding create_mutexes
create_mutexes-Filled zero n c u e p = record {
  after = u;
  ends = refl;
  pool = subst (λ x. At (created x) c u.kernel) (omega (arith, e)) p;
  passed = refl;
}
create_mutexes-Filled (suc j) n c u e p =
    let m =
      call-Called (At-Kept (created n) c) (λ k. create_outcome (mutex_create k)) (pos n)
        (create-next c n (omega (arith, e))) u p in
    let rest =
      create_mutexes-Filled j (suc n) c (record u { kernel = m.kernel; pending = m.pending })
        (omega (arith, e)) m.holds in
    record {
      after = rest.after;
      ends = rw m.result rest.ends;
      pool = rest.pool;
      passed = rest.passed;
    }

error_checks-Passes :
    (c : ℕ) (u : Client)
    → At (created 32) c u.kernel
    → Passes (true ∷ true ∷ true ∷ true ∷ true ∷ true ∷ true ∷ true ∷ []) u.passed (error_checks u)
unfolding error_checks
error_checks-Passes c u p =
    let all = At-Kept (created 32) c in
    let held = At-Kept (four_held c) c in
    error-Passes all _ _ _
      (error-Passes all _ _ _
        (error-Passes all _ _ _
          (error-Passes all _ _ _
            (success-Passes all _ _ _
              (error-Passes held _ _ _
                (success-Passes held _ _ _ (λ v. last-Passes all _ _ (wait_10000 c) v) 0
                  (unlock_4 c))
                _ (lock_again c))
              0 (lock_4 c))
            _ (lock_124 c))
          _ (unlock_23 c))
        _ (unlock_165 c))
      _ (create-full c) u p

-- In a kernel in which no mutex has been created, and no task waits for a device, every test of
-- `fun1` passes, whatever timer interrupts there are between its calls.
pub fun1-Passes :
    (c : ℕ) (u : Client)
    → At (created 0) c u.kernel
    → Passes (true ∷ true ∷ true ∷ true ∷ true ∷ true ∷ true ∷ true ∷ []) u.passed (fun1 u)
unfolding fun1
fun1-Passes c u p =
    let filled = create_mutexes-Filled 32 0 c u refl p in
    rw filled.ends (
      subst
        (λ before.
          Passes (true ∷ true ∷ true ∷ true ∷ true ∷ true ∷ true ∷ true ∷ []) before
            (error_checks filled.after))
        filled.passed (error_checks-Passes c filled.after filled.pool))
