-- ===== src/Rot13.antt =====
-- Lab2/Solution/lab2/part1/rot13/rot13.c and Lab 3/lab3-support/tasks/rot13/rot13.c: the cipher, and
-- in the child modules the dialogue.
pub mod Dialogue
pub mod Lines
pub mod Main
pub mod Shown
pub mod Round
pub mod Ends
use fundamental_of_emb.Common.{
  ℕ, zero, suc, ◌+◌, ◌-◌, ◌≡◌, ap, ◌∙◌, ◌&&◌, ◌||◌, update, ltb, leb, ◌==◌, if◌then◌else◌, ==_iff,
  arith, Bool-cases, inl, inr,
}

-- What happens to one character, which is a byte.
unfoldable pub rot13_char : ℕ → ℕ
rot13_char c =
    if (ltb c 78 && ltb 64 c) || (ltb c 110 && ltb 96 c)
    then c + 13
    else if (ltb c 123 && ltb 109 c) || (ltb c 91 && ltb 77 c)
    then c - 13
    else c

-- The loop over the buffer at `buf`, which counts down: the rounds for the entries below `n`.
unfoldable pub rot13_buf : ℕ → ℕ → (ℕ → ℕ) → ℕ → ℕ
rot13_buf buf zero mem = mem
rot13_buf buf (suc n) mem = rot13_buf buf n (update mem (buf + n) (rot13_char (mem (buf + n))))

pub rot13_buf_at :
    (buf n : ℕ) (mem : ℕ → ℕ) (a : ℕ)
    → rot13_buf buf n mem a ≡ (if leb buf a && ltb a (buf + n) then rot13_char (mem a) else mem a)
unfolding rot13_buf
rot13_buf_at buf zero mem a = ground arith
rot13_buf_at buf (suc n) mem a =
    rot13_buf_at buf n (update mem (buf + n) (rot13_char (mem (buf + n)))) a
    ∙ elim (Bool-cases (buf + n == a)) [
      | inl e ↦ rw ((==_iff (buf + n) a).0 e) (ground (arith, e))
      | inr e ↦ rw e (ground arith)
    ]

rot13_char_twice : (c : ℕ) → rot13_char (rot13_char c) ≡ c
unfolding rot13_char
rot13_char_twice c = ground arith

-- The cipher is its own inverse: applied twice to the `n` bytes from `buf` on, it gives the memory
-- back. Applied once it changes these bytes one by one, and no other.
pub rot13_twice :
    (buf n : ℕ) (mem : ℕ → ℕ) (a : ℕ)
    → (rot13_buf buf n (rot13_buf buf n mem) a ≡ mem a)
      × (rot13_buf buf n mem a
          ≡ (if leb buf a && ltb a (buf + n) then rot13_char (mem a) else mem a))
rot13_twice buf n mem a = (
  rot13_buf_at buf n (rot13_buf buf n mem) a
      ∙ ap (λ c. if leb buf a && ltb a (buf + n) then rot13_char c else c)
          (rot13_buf_at buf n mem a)
      ∙ ground (arith, rot13_char_twice (mem a)),
  rot13_buf_at buf n mem a,
)
