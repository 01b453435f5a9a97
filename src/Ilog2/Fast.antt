-- ===== src/Ilog2/Fast.antt =====
-- The optimized `ilog2` of lab4/lab4/kernel/math.c: each round shifts by a power of two, if the
-- upper half of the digits left is not 0.
use fundamental_of_emb.Common.{
  ℕ, suc, ◌+◌, ◌*◌, ◌/◌, ◌%◌, ◌^◌, ◌<◌, ◌≤◌, ◌≡◌, refl, subst, ap, ◌∙◌, Bool, true, false, not,
  ◌||◌, some, bit_and, bit_or, arith, ◌==◌, leb, Bool-cases, inl, inr, holds_below, holds_below_at,
}
use fundamental_of_emb.Common.Masks.{
  upper_half2, upper_half4, upper_half16, upper_half256, upper_half65536,
}
use fundamental_of_emb.Ilog2.{ilog2_debug, ilog2_round, ilog2_rounds, ilog2}
use fundamental_of_emb.Ilog2.Log.{Log, one, half, Log-powers, Log-loop, Log-small}

-- Several halvings at once.
up2 : {x e : ℕ} → 2 ≤ x → Log (x / 2) e → Log x (1 + e)
up2 {x} {e} le h = let i : suc e ≡ 1 + e = omega arith in subst (Log x) i (half le h)

up4 : {x e : ℕ} → 4 ≤ x → Log (x / 4) e → Log x (2 + e)
up4 {x} {e} le h =
    let d : x / 4 ≡ x / 2 / 2 = omega arith in
    let i : 1 + (1 + e) ≡ 2 + e = omega arith in
    subst (Log x) i (up2 (omega arith) (up2 (omega arith) (subst (λ y. Log y e) d h)))

up16 : {x e : ℕ} → 16 ≤ x → Log (x / 16) e → Log x (4 + e)
up16 {x} {e} le h =
    let d : x / 16 ≡ x / 4 / 4 = omega arith in
    let i : 2 + (2 + e) ≡ 4 + e = omega arith in
    subst (Log x) i (up4 (omega arith) (up4 (omega arith) (subst (λ y. Log y e) d h)))

up256 : {x e : ℕ} → 256 ≤ x → Log (x / 256) e → Log x (8 + e)
up256 {x} {e} le h =
    let d : x / 256 ≡ x / 16 / 16 = omega arith in
    let i : 4 + (4 + e) ≡ 8 + e = omega arith in
    subst (Log x) i (up16 (omega arith) (up16 (omega arith) (subst (λ y. Log y e) d h)))

up65536 : {x e : ℕ} → 65536 ≤ x → Log (x / 65536) e → Log x (16 + e)
up65536 {x} {e} le h =
    let d : x / 65536 ≡ x / 256 / 256 = omega arith in
    let i : 8 + (8 + e) ≡ 16 + e = omega arith in
    subst (Log x) i (up256 (omega arith) (up256 (omega arith) (subst (λ y. Log y e) d h)))

-- What holds after the rounds down to the one for `S` digits: below `B` there is still something
-- to find, `r` is a multiple of `S` below 32, and what is missing at `v` is missing at `x`.
record Left (x S B : ℕ) (state : ℕ × ℕ) : Type 0 where
  positive : 0 < state.0
  below : state.0 < B
  multiple : state.1 % S ≡ 0
  small : state.1 < 32
  rest : (e : ℕ) → Log state.0 e → Log x (state.1 + e)

or_check : ℕ → ℕ → Bool
or_check S r = not (r % (2 * S) == 0) || (bit_or r S == r + S)

or_table1 : holds_below 32 (or_check 1) ≡ true
unfolding holds_below or_check
or_table1 = refl

or_table2 : holds_below 32 (or_check 2) ≡ true
unfolding holds_below or_check
or_table2 = refl

or_table4 : holds_below 32 (or_check 4) ≡ true
unfolding holds_below or_check
or_table4 = refl

or_table8 : holds_below 32 (or_check 8) ≡ true
unfolding holds_below or_check
or_table8 = refl

or_table16 : holds_below 32 (or_check 16) ≡ true
unfolding holds_below or_check
or_table16 = refl

round4 : (x v r : ℕ) → Left x 32 4294967296 (v, r) → Left x 16 65536 (ilog2_round 4 v r)
unfolding ilog2_round or_check
round4 x v r h = elim (Bool-cases (leb 65536 v)) [
  | inl high ↦
      let test : (bit_and v 4294901760 == 0) ≡ false = ground (arith, upper_half65536 v h.below) in
      let added : bit_or r 16 ≡ r + 16 =
        ground (arith, h.multiple, holds_below_at 32 (or_check 16) r or_table16 h.small) in
      let le : 65536 ≤ v = ground arith in
      rw (test, added)
        (record {
          positive = omega (arith, le);
          below = omega (arith, h.below);
          multiple = omega (arith, h.multiple);
          small = omega (arith, h.multiple, h.small);
          rest = λ e l.
              let i : r + (16 + e) ≡ r + 16 + e = omega arith in
              subst (Log x) i (h.rest (16 + e) (up65536 le l));
        })
  | inr low ↦
      let test : (bit_and v 4294901760 == 0) ≡ true = ground (arith, upper_half65536 v h.below) in
      rw test (record {
        positive = h.positive;
        below = ground arith;
        multiple = omega (arith, h.multiple);
        small = h.small;
        rest = h.rest;
      })
]

round3 : (x v r : ℕ) → Left x 16 65536 (v, r) → Left x 8 256 (ilog2_round 3 v r)
unfolding ilog2_round or_check
round3 x v r h = elim (Bool-cases (leb 256 v)) [
  | inl high ↦
      let test : (bit_and v 65280 == 0) ≡ false = ground (arith, upper_half256 v h.below) in
      let added : bit_or r 8 ≡ r + 8 =
        ground (arith, h.multiple, holds_below_at 32 (or_check 8) r or_table8 h.small) in
      let le : 256 ≤ v = ground arith in
      rw (test, added)
        (record {
          positive = omega (arith, le);
          below = omega (arith, h.below);
          multiple = omega (arith, h.multiple);
          small = omega (arith, h.multiple, h.small);
          rest = λ e l.
              let i : r + (8 + e) ≡ r + 8 + e = omega arith in
              subst (Log x) i (h.rest (8 + e) (up256 le l));
        })
  | inr low ↦
      let test : (bit_and v 65280 == 0) ≡ true = ground (arith, upper_half256 v h.below) in
      rw test (record {
        positive = h.positive;
        below = ground arith;
        multiple = omega (arith, h.multiple);
        small = h.small;
        rest = h.rest;
      })
]

round2 : (x v r : ℕ) → Left x 8 256 (v, r) → Left x 4 16 (ilog2_round 2 v r)
unfolding ilog2_round or_check
round2 x v r h = elim (Bool-cases (leb 16 v)) [
  | inl high ↦
      let test : (bit_and v 240 == 0) ≡ false = ground (arith, upper_half16 v h.below) in
      let added : bit_or r 4 ≡ r + 4 =
        ground (arith, h.multiple, holds_below_at 32 (or_check 4) r or_table4 h.small) in
      let le : 16 ≤ v = ground arith in
      rw (test, added)
        (record {
          positive = omega (arith, le);
          below = omega (arith, h.below);
          multiple = omega (arith, h.multiple);
          small = omega (arith, h.multiple, h.small);
          rest = λ e l.
              let i : r + (4 + e) ≡ r + 4 + e = omega arith in
              subst (Log x) i (h.rest (4 + e) (up16 le l));
        })
  | inr low ↦
      let test : (bit_and v 240 == 0) ≡ true = ground (arith, upper_half16 v h.below) in
      rw test (record {
        positive = h.positive;
        below = ground arith;
        multiple = omega (arith, h.multiple);
        small = h.small;
        rest = h.rest;
      })
]

round1 : (x v r : ℕ) → Left x 4 16 (v, r) → Left x 2 4 (ilog2_round 1 v r)
unfolding ilog2_round or_check
round1 x v r h = elim (Bool-cases (leb 4 v)) [
  | inl high ↦
      let test : (bit_and v 12 == 0) ≡ false = ground (arith, upper_half4 v h.below) in
      let added : bit_or r 2 ≡ r + 2 =
        ground (arith, h.multiple, holds_below_at 32 (or_check 2) r or_table2 h.small) in
      let le : 4 ≤ v = ground arith in
      rw (test, added)
        (record {
          positive = omega (arith, le);
          below = omega (arith, h.below);
          multiple = omega (arith, h.multiple);
          small = omega (arith, h.multiple, h.small);
          rest = λ e l.
              let i : r + (2 + e) ≡ r + 2 + e = omega arith in
              subst (Log x) i (h.rest (2 + e) (up4 le l));
        })
  | inr low ↦
      let test : (bit_and v 12 == 0) ≡ true = ground (arith, upper_half4 v h.below) in
      rw test (record {
        positive = h.positive;
        below = ground arith;
        multiple = omega (arith, h.multiple);
        small = h.small;
        rest = h.rest;
      })
]

round0 : (x v r : ℕ) → Left x 2 4 (v, r) → Left x 1 2 (ilog2_round 0 v r)
unfolding ilog2_round or_check
round0 x v r h = elim (Bool-cases (leb 2 v)) [
  | inl high ↦
      let test : (bit_and v 2 == 0) ≡ false = ground (arith, upper_half2 v h.below) in
      let added : bit_or r 1 ≡ r + 1 =
        ground (arith, h.multiple, holds_below_at 32 (or_check 1) r or_table1 h.small) in
      let le : 2 ≤ v = ground arith in
      rw (test, added)
        (record {
          positive = omega (arith, le);
          below = omega (arith, h.below);
          multiple = omega (arith, h.multiple);
          small = omega (arith, h.multiple, h.small);
          rest = λ e l.
              let i : r + (1 + e) ≡ r + 1 + e = omega arith in
              subst (Log x) i (h.rest (1 + e) (up2 le l));
        })
  | inr low ↦
      let test : (bit_and v 2 == 0) ≡ true = ground (arith, upper_half2 v h.below) in
      rw test (record {
        positive = h.positive;
        below = ground arith;
        multiple = omega (arith, h.multiple);
        small = h.small;
        rest = h.rest;
      })
]

last_Left : (x : ℕ) (state : ℕ × ℕ) → Left x 1 2 state → Log x state.1
last_Left x state h =
    let v1 : 1 ≡ state.0 = omega (arith, h.positive, h.below) in
    let i : state.1 + 0 ≡ state.1 = omega arith in
    subst (Log x) i (h.rest 0 (subst (λ v. Log v 0) v1 one))

ilog2-Log : (x : ℕ) → 0 < x → x < 2 ^ 32 → Log x (ilog2 x)
unfolding ilog2 ilog2_rounds
ilog2-Log x pos_x lt =
    let start : Left x 32 4294967296 (x, 0) = record {
      positive = pos_x;
      below = lt;
      multiple = refl;
      small = omega arith;
      rest = λ e l. let i : e ≡ 0 + e = omega arith in subst (Log x) i l;
    } in
    let s4 = ilog2_round 4 x 0 in
    let h4 = round4 x x 0 start in
    let s3 = ilog2_round 3 s4.0 s4.1 in
    let h3 = round3 x s4.0 s4.1 h4 in
    let s2 = ilog2_round 2 s3.0 s3.1 in
    let h2 = round2 x s3.0 s3.1 h3 in
    let s1 = ilog2_round 1 s2.0 s2.1 in
    let h1 = round1 x s2.0 s2.1 h2 in last_Left x (ilog2_round 0 s1.0 s1.1) (round0 x s1.0 s1.1 h1)

-- For every word but 0 the optimized version gives the number `e` of the highest set bit, the one
-- with `2 ^ e ≤ x` and `x < 2 ^ (e + 1)`, and the debug version ends with the same number.
pub ilog2_lem :
    (x : ℕ)
    → 0 < x
    → x < 2 ^ 32
    → (2 ^ ilog2 x ≤ x) × (x < 2 ^ suc (ilog2 x)) × (ilog2_debug x ≡ some (ilog2 x))
unfolding ilog2_debug
ilog2_lem x pos_x lt =
    let h = ilog2-Log x pos_x lt in
    let p = Log-powers h in
    let i : 0 + ilog2 x ≡ ilog2 x = omega arith in
    (p.0, p.1, Log-loop 32 0 h (Log-small 32 lt h) ∙ ap some i)
