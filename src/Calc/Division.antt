-- ===== src/Calc/Division.antt =====
-- Division in Lab1/Solution/lab1-part1-sdhandha/lab1/calc/math.c.
use fundamental_of_emb.Common.{
  ℕ, ◌+◌, ◌-◌, ◌*◌, ◌/◌, ◌%◌, ◌^◌, ◌<◌, ◌≤◌, ◌≡◌, ◌≢◌, ◌⊎◌, refl, ap, Bool, true, false, ◌==◌,
  if◌then◌else◌, u32, add32, is_negative, arith, Bool-cases, inl, inr,
}
use native.Mathlib.Nat.{mod-lt, div-le_self}
use fundamental_of_emb.Calc.{is_undefined, neg32, abs32, mul32, cdiv, modulo, quotient, remainder}

add_times : (a b c : ℕ) → (a + b) * c ≡ a * c + b * c
add_times a b c = ground arith

times_add : (a b c : ℕ) → c * (a + b) ≡ c * a + c * b
times_add a b c = ground arith

-- A sign goes out of a product.
neg_times : (q y : ℕ) → q < 2 ^ 32 → mul32 (neg32 q) y ≡ neg32 (mul32 q y)
neg_times q y lt = elim (Bool-cases (q == 0)) [
  | inl e ↦ let at : q ≡ 0 = ground arith in let z : 0 * y ≡ 0 = ground arith in rw (at, z) refl
  | inr ne ↦
      let n : neg32 q ≡ 2 ^ 32 - q = ground arith in
      let s : 2 ^ 32 - q + q ≡ 2 ^ 32 = ground arith in
      let d : (2 ^ 32 - q) * y + q * y ≡ 2 ^ 32 * y =
        rw⁻¹ (add_times (2 ^ 32 - q) q y) (ap (λ z. z * y) s) in
      rw n (omega (arith, d))
]

times_neg : (q y b : ℕ) → y + b ≡ 2 ^ 32 → mul32 q y ≡ neg32 (mul32 q b)
times_neg q y b s =
    let d : q * y + q * b ≡ q * 2 ^ 32 = rw⁻¹ (times_add y b q) (ap (λ z. q * z) s) in
    omega (arith, d)

neg_neg : (w : ℕ) → neg32 (neg32 (u32 w)) ≡ u32 w
neg_neg w = omega arith

-- What the two functions give for a divisor that is 0, or is not: `q` and `r` for `x` by `y`.
abbrev pub Divides : Bool → ℕ → ℕ → ℕ → ℕ → Type 0
Divides true x y q r = (q ≡ 0) × (r ≡ 0)
Divides false x y q r =
    (add32 (mul32 q y) r ≡ x) × (abs32 r < abs32 y) × ((r ≡ 0) ⊎ (is_negative r ≡ is_negative x))

-- The absolute values behind the division.
module _ (any_quotient any_remainder : ℕ → ℕ → ℕ) (x y : ℕ) (word_x : x < 2 ^ 32)
    (word_y : y < 2 ^ 32) (defined : is_undefined x y ≡ false) where
  abbrev the_quotient : ℕ
  the_quotient = quotient any_quotient any_remainder x y

  abbrev the_remainder : ℕ
  the_remainder = remainder any_quotient any_remainder x y

  nonzero : y ≢ 0
  nonzero e = ground (arith, e, defined)

  positive : 0 < abs32 y
  positive = ground arith

  divided : abs32 x / abs32 y * abs32 y + abs32 x % abs32 y ≡ abs32 x
  divided = ground arith

  below : abs32 x % abs32 y < abs32 y
  below = mod-lt (abs32 x) positive

  word_abs : abs32 x < 2 ^ 32
  word_abs = ground arith

  magnitude : abs32 y ≤ 2 ^ 31
  magnitude = ground arith

  sign_kept : (the_remainder ≡ 0) ⊎ (is_negative the_remainder ≡ is_negative x)
  sign_kept = rw defined (elim (Bool-cases (abs32 x % abs32 y == 0)) [
    | inl e ↦ inl (ground (arith, e))
    | inr ne ↦ inr (elim (Bool-cases (is_negative x)) [
      | inl nx ↦ ground (arith, ne, nx, below, magnitude)
      | inr px ↦ ground (arith, px, below, magnitude)
    ])
  ])

  product : mul32 the_quotient y ≡ (
      if is_negative x
      then neg32 (u32 (abs32 x / abs32 y * abs32 y))
      else u32 (abs32 x / abs32 y * abs32 y))
  product =
      let q = abs32 x / abs32 y in
      let small : q < 2 ^ 32 = omega (arith, div-le_self (abs32 x) (abs32 y), word_abs) in
      elim (Bool-cases (is_negative y)) [
        | inl ny ↦
            let opposite : y + abs32 y ≡ 2 ^ 32 = ground arith in
            let times = times_neg q y (abs32 y) opposite in
            elim (Bool-cases (is_negative x)) [
              | inl nx ↦ ground (arith, nx, ny, times)
              | inr px ↦ ground (arith, px, ny, times, neg_times q y small, neg_neg (q * abs32 y))
            ]
        | inr py ↦
            let same : abs32 y ≡ y = ground arith in
            elim (Bool-cases (is_negative x)) [
              | inl nx ↦ ground (arith, nx, py, neg_times q y small, ap (λ z. q * z) same)
              | inr px ↦ ground (arith, px, py, ap (λ z. q * z) same)
            ]
      ]

  law : Divides false x y the_quotient the_remainder
  law = elim (Bool-cases (is_negative x)) [
    | inl nx ↦ (
      ground (arith, product, divided, below, nx, defined),
      ground (arith, below, nx, defined),
      sign_kept,
    )
    | inr px ↦ (
      ground (arith, product, divided, below, px, defined),
      ground (arith, below, px, defined),
      sign_kept,
    )
  ]

-- The test for 0 before both divisions.
guarded :
    (zero : Bool) (x y q r : ℕ)
    → (zero ≡ false → Divides false x y q r)
    → Divides zero x y (if zero then 0 else q) (if zero then 0 else r)
guarded true x y q r d = (refl, refl)
guarded false x y q r d = d refl

-- For all words `x` and `y` but the least int and -1, whatever the processor gives where C leaves it
-- open: by 0, the quotient and the remainder are 0; otherwise the quotient times `y` and the remainder
-- add up to `x`, the remainder's absolute value is below that of `y`, and it is 0 or has the sign of
-- `x`.
pub cdiv_lem :
    (any_quotient any_remainder : ℕ → ℕ → ℕ) (x y : ℕ)
    → x < 2 ^ 32
    → y < 2 ^ 32
    → (x ≢ 2 ^ 31) ⊎ (y ≢ 2 ^ 32 - 1)
    → Divides
        (y == 0)
        x
        y
        (cdiv any_quotient any_remainder x y)
        (modulo any_quotient any_remainder x y)
unfolding cdiv modulo
cdiv_lem any_quotient any_remainder x y word_x word_y fits =
    guarded (y == 0) x y _ _
      (λ ne. law any_quotient any_remainder x y word_x word_y (ground (arith, ne, fits)))
