-- ===== src/Ilog2/Log.antt =====
-- The logarithm as a relation, and the loop of lab4/lab4/kernel/math.c that computes it.
use fundamental_of_emb.Common.{ℕ, zero, suc, ◌+◌, ◌*◌, ◌/◌, ◌^◌, ◌<◌, ◌≤◌, ◌≡◌, some, arith}
use native.Mathlib.Numerals.{unary_clauses}
use fundamental_of_emb.Ilog2.{ilog2_loop}

-- `e` halvings take `x` to 1.
pub data Log : ℕ → ℕ → Type 0 where
  one : Log 1 0
  half : {x e : ℕ} → 2 ≤ x → Log (x / 2) e → Log x (suc e)

pow_suc : (e : ℕ) → 2 ^ suc e ≡ 2 * 2 ^ e
pow_suc e = simp unary_clauses (omega arith)

pub Log-powers : {x e : ℕ} → Log x e → (2 ^ e ≤ x) × (x < 2 ^ suc e)
Log-powers one = (omega arith, omega arith)
Log-powers {e = suc e} (half le h) =
    let p = Log-powers h in
    (omega (arith, p, pow_suc e), omega (arith, p, pow_suc e, pow_suc (suc e)))

pub Log-loop :
    (fuel : ℕ) {x e : ℕ} (r : ℕ) → Log x e → e < fuel → ilog2_loop fuel x r ≡ some (r + e)
unfolding ilog2_loop
Log-loop zero r h lt = absurd (omega arith)
Log-loop (suc fuel) r one lt = ground arith
Log-loop (suc fuel) r (half le h) lt = ground (arith, Log-loop fuel (r + 1) h (omega arith))

-- A number below `2 ^ n` has a logarithm below `n`.
pub Log-small : (n : ℕ) {x e : ℕ} → x < 2 ^ n → Log x e → e < n
Log-small zero lt one = absurd (omega arith)
Log-small zero lt (half le h) = absurd (omega arith)
Log-small (suc n) lt one = omega arith
Log-small (suc n) lt (half le h) =
    let small = Log-small n (omega (arith, pow_suc n)) h in omega (arith, small)
