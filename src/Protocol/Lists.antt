-- ===== src/Protocol/Lists.antt =====
-- Lists of waiting tasks, and counts.
use fundamental_of_emb.Common.{
  ℕ, zero, suc, ◌≤◌, ◌<◌, ◌≡◌, ◌≢◌, refl, ap, Bool, true, false, Option, none, some, List, [], ◌∷◌,
  ◌++◌, subst, Bool-cases, ==_iff, inl, inr, length, ◌==◌, if◌then◌else◌, arith,
}
use fundamental_of_emb.Kernel.{Tcb}
use fundamental_of_emb.Protocol.Defs.{count, contains, Chain, All, Distinct}

pub All-map : {P Q : ℕ → Type 0} (f : (t : ℕ) → P t → Q t) (xs : List ℕ) → All P xs → All Q xs
All-map f [] h = tt
All-map f (x ∷ xs) h = (f x h.0, All-map f xs h.1)

pub All-append : (P : ℕ → Type 0) (xs : List ℕ) (y : ℕ) → All P xs → P y → All P (xs ++ y ∷ [])
All-append P [] y h p = (p, tt)
All-append P (x ∷ xs) y h p = (h.0, All-append P xs y h.1 p)

pub Distinct-append :
    (xs : List ℕ) (y : ℕ) → Distinct xs → All (λ t. t ≢ y) xs → Distinct (xs ++ y ∷ [])
Distinct-append [] y d h = (tt, tt)
Distinct-append (x ∷ xs) y d h =
    (All-append (λ t. x ≢ t) xs y d.0 h.0, Distinct-append xs y d.1 h.1)

pub contains-append :
    (t : ℕ) (xs : List ℕ) (y : ℕ)
    → contains t (xs ++ y ∷ []) ≡ (if y == t then true else contains t xs)
unfolding contains
contains-append t [] y = refl
contains-append t (x ∷ xs) y = ground (arith, contains-append t xs y)

pub contains-All : (P : ℕ → Type 0) (t : ℕ) (xs : List ℕ) → All P xs → contains t xs ≡ true → P t
unfolding contains
contains-All P t [] h e = absurd (ground arith)
contains-All P t (x ∷ xs) h e = elim (Bool-cases (x == t)) [
  | inl s ↦ subst P ((==_iff x t).0 s) h.0
  | inr s ↦ contains-All P t xs h.1 (ground arith)
]

pub length-append : (xs : List ℕ) (y : ℕ) → length (xs ++ y ∷ []) ≡ suc (length xs)
length-append [] y = refl
length-append (x ∷ xs) y = ap suc (length-append xs y)

pub count-ext : (n : ℕ) (p q : ℕ → Bool) → ((t : ℕ) → t < n → p t ≡ q t) → count n p ≡ count n q
unfolding count
count-ext zero p q h = refl
count-ext (suc n) p q h = ground (arith, h n, count-ext n p q (λ t lt. h t (omega arith)))

pub count-none : (n : ℕ) (p : ℕ → Bool) → ((t : ℕ) → t < n → p t ≡ false) → count n p ≡ 0
unfolding count
count-none zero p h = refl
count-none (suc n) p h = ground (arith, h n, count-none n p (λ t lt. h t (omega arith)))

pub count-le : (n : ℕ) (p : ℕ → Bool) → count n p ≤ n
unfolding count
count-le zero p = omega arith
count-le (suc n) p = ground (arith, count-le n p)

-- One more number passes.
pub count-add :
    (n : ℕ) (p q : ℕ → Bool) (x : ℕ)
    → x < n
    → p x ≡ false
    → q x ≡ true
    → ((t : ℕ) → t < n → x ≢ t → p t ≡ q t)
    → count n q ≡ suc (count n p)
unfolding count
count-add zero p q x lt f g h = absurd (omega arith)
count-add (suc n) p q x lt f g h = elim (Bool-cases (x == n)) [
  | inl e ↦ ground (arith, count-ext n p q (λ t l. h t (omega arith) (ground arith)))
  | inr e ↦
      ground (arith, h n, count-add n p q x (ground arith) f g (λ t l ne. h t (omega arith) ne))
]

-- A passing number makes the count positive.
pub count-pos : (n : ℕ) (p : ℕ → Bool) (x : ℕ) → x < n → p x ≡ true → 0 < count n p
unfolding count
count-pos zero p x lt e = absurd (omega arith)
count-pos (suc n) p x lt e = ground (arith, count-pos n p x)

-- The queue depends on the blocks of its members only.
pub Chain-frame :
    (s s' : ℕ → Tcb) (p : Option ℕ) (xs : List ℕ)
    → All (λ t. (s' t).sleep_queue ≡ (s t).sleep_queue) xs
    → Chain s p xs
    → Chain s' p xs
Chain-frame s s' none [] h c = tt
Chain-frame s s' none (x ∷ xs) h c = absurd c
Chain-frame s s' (some i) [] h c = absurd c
Chain-frame s s' (some i) (x ∷ xs) h c =
    (c.0, Chain-frame s s' (s' x).sleep_queue xs h.1 (rw h.0 c.1))

pub Chain-nil : (s : ℕ → Tcb) (p : Option ℕ) → Chain s p [] → p ≡ none
Chain-nil s none c = refl
Chain-nil s (some i) c = absurd c

pub Chain-cons :
    (s : ℕ → Tcb) (p : Option ℕ) (x : ℕ) (xs : List ℕ)
    → Chain s p (x ∷ xs)
    → (p ≡ some x) × Chain s (s x).sleep_queue xs
Chain-cons s none x xs c = absurd c
Chain-cons s (some i) x xs c = (ap some c.0, c.1)
