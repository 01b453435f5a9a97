-- ===== src/Memmove.antt =====
-- memmove and memcpy of lab4/lab4/tasks/libc/string/memmove.c.
use fundamental_of_emb.Common.{
  ℕ, zero, suc, ◌+◌, ◌-◌, ◌<◌, ◌≤◌, ◌≡◌, ap, ◌∙◌, false, ◌&&◌, update, ltb, leb, ◌==◌,
  if◌then◌else◌, arith, Bool-cases, inl, inr,
}

-- The loop for `i` from 0 up, after its first `n` rounds. The memory is one for both areas.
unfoldable pub move_up : ℕ → ℕ → ℕ → (ℕ → ℕ) → ℕ → ℕ
move_up d s zero mem = mem
move_up d s (suc n) mem = let before = move_up d s n mem in update before (d + n) (before (s + n))

-- The loop for `i` from `n` down.
unfoldable pub move_down : ℕ → ℕ → ℕ → (ℕ → ℕ) → ℕ → ℕ
move_down d s zero mem = mem
move_down d s (suc n) mem = move_down d s n (update mem (d + n) (mem (s + n)))

unfoldable pub memmove : ℕ → ℕ → ℕ → (ℕ → ℕ) → ℕ → ℕ
memmove dest src count mem =
    if ltb dest src then move_up dest src count mem else move_down dest src count mem

unfoldable pub memcpy : ℕ → ℕ → ℕ → (ℕ → ℕ) → ℕ → ℕ
memcpy dest src count mem = memmove dest src count mem

-- The memory with the old content of `n` bytes from `s` on at `d`.
abbrev pub copied : ℕ → ℕ → ℕ → (ℕ → ℕ) → ℕ → ℕ
copied d s n mem a = if leb d a && ltb a (d + n) then mem (s + (a - d)) else mem a

move_up_lem : (d s n : ℕ) (mem : ℕ → ℕ) → d < s → (a : ℕ) → move_up d s n mem a ≡ copied d s n mem a
unfolding move_up
move_up_lem d s zero mem lt a = ground arith
move_up_lem d s (suc n) mem lt a =
    let source : move_up d s n mem (s + n) ≡ mem (s + n) =
      move_up_lem d s n mem lt (s + n) ∙ ground arith in
    elim (Bool-cases (d + n == a)) [
      | inl here ↦
          let at : s + n ≡ s + (a - d) = ground arith in rw here (source ∙ ap mem at ∙ ground arith)
      | inr there ↦ rw there (move_up_lem d s n mem lt a ∙ ground arith)
    ]

move_down_lem :
    (d s n : ℕ) (mem : ℕ → ℕ) → s ≤ d → (a : ℕ) → move_down d s n mem a ≡ copied d s n mem a
unfolding move_down
move_down_lem d s zero mem le a = ground arith
move_down_lem d s (suc n) mem le a =
    move_down_lem d s n (update mem (d + n) (mem (s + n))) le a ∙ elim (Bool-cases (d + n == a)) [
      | inl here ↦
          let at : s + n ≡ s + (a - d) = ground arith in
          let past : (leb d a && ltb a (d + n)) ≡ false = ground arith in
          rw (past, here) (ap mem at ∙ ground arith)
      | inr there ↦ rw there (ground arith)
    ]

-- `memmove` copies the old content of the source area to the destination, also where the two areas
-- overlap, and changes no other byte; `memcpy` does the same.
pub memmove_lem :
    (dest src count : ℕ) (mem : ℕ → ℕ) (a : ℕ)
    → (memmove dest src count mem a ≡ copied dest src count mem a)
      × (memcpy dest src count mem a ≡ copied dest src count mem a)
unfolding memmove memcpy
memmove_lem dest src count mem a =
    let moved : memmove dest src count mem a ≡ copied dest src count mem a =
      elim (Bool-cases (ltb dest src)) [
        | inl up ↦ rw up (move_up_lem dest src count mem (ground arith) a)
        | inr down ↦ rw down (move_down_lem dest src count mem (ground arith) a)
      ] in
    (moved, moved)
