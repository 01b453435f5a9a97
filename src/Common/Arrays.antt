-- ===== src/Common/Arrays.antt =====
-- Static C arrays as functions of their index, and the counted loop that fills them.
use Prim.Native.Nat.{ℕ, zero, suc}
use mathlib.Core.Path.{◌≡◌, refl, ap}
use mathlib.Core.List.{List, [], ◌∷◌, ◌++◌}
use native.Mathlib.Omega.{arith}
use fundamental_of_emb.Common.Tests.{◌==◌, ltb, if◌then◌else◌}

module _ {ℓ} {A : Type ℓ} where
  -- `a[i] = x`
  abbrev pub update : (ℕ → A) → ℕ → A → ℕ → A
  update f i x j = if i == j then x else f j

  -- `for (k = 0; k < n; k++) a[k] = g(k)`
  unfoldable pub fill : ℕ → (ℕ → A) → (ℕ → A) → ℕ → A
  fill zero g f = f
  fill (suc n) g f = update (fill n g f) n (g n)

  pub fill_lem : (n : ℕ) (g f : ℕ → A) (j : ℕ) → fill n g f j ≡ (if ltb j n then g j else f j)
  unfolding fill
  fill_lem zero g f j = ground arith
  fill_lem (suc n) g f j = ground (arith, fill_lem n g f j)

  abbrev pub length : List A → ℕ
  length [] = 0
  length (x ∷ xs) = suc (length xs)

  abbrev pub get_or : List A → ℕ → A → A
  get_or [] i d = d
  get_or (x ∷ xs) zero d = x
  get_or (x ∷ xs) (suc i) d = get_or xs i d

  pub append_assoc : (a b c : List A) → (a ++ b) ++ c ≡ a ++ (b ++ c)
  append_assoc [] b c = refl
  append_assoc (x ∷ a) b c = ap (λ l. x ∷ l) (append_assoc a b c)

  pub append_nil : (a : List A) → a ++ [] ≡ a
  append_nil [] = refl
  append_nil (x ∷ a) = ap (λ l. x ∷ l) (append_nil a)
