-- ===== src/Io/Line.antt =====
-- The line editing of `read_syscall` in lab4/lab4/kernel/syscall/io.c, as a function on lists, and
-- the echo of the line by `write_syscall`.
use fundamental_of_emb.Common.{
  ℕ, suc, ◌+◌, ◌-◌, ◌%◌, ◌<◌, ◌≤◌, ◌≡◌, refl, ◌∙◌, subst, not, pos, Option, none, some, List, [],
  ◌∷◌, length, ltb, if◌then◌else◌, arith, Bool-cases, inl, inr,
}
use fundamental_of_emb.Io.{
  Io, ReadEnd, waits, ended, is_end, is_erase, is_newline, put_char, erase_char, end_line,
  read_from, read_end, read_syscall, Call, blocked, returns, start_sdram, end_sdram,
}

-- The line without its last character. Lines are lists with the last character first.
abbrev pub tail : List ℕ → List ℕ
tail [] = []
tail (x ∷ xs) = xs

-- The line that an input gives, from the line `xs` on: nothing if the input runs out first.
unfoldable pub edit : ℕ → List ℕ → List ℕ → Option (List ℕ)
edit len [] xs = if ltb (length xs) len then none else some xs
edit len (c ∷ input) xs =
    let ch = c % 256 in
    let rest = edit len input (if is_erase ch then tail xs else ch ∷ xs) in
    if not (ltb (length xs) len)
    then some xs
    else if is_end ch
    then some xs
    else if is_newline ch
    then some (10 ∷ xs)
    else rest

-- The line stands in memory from `buf` on.
abbrev pub Holds : (ℕ → ℕ) → ℕ → List ℕ → Type 0
Holds mem buf [] = Unit
Holds mem buf (x ∷ xs) = (mem (buf + length xs) ≡ x) × Holds mem buf xs

-- Outside the `len + 1` bytes from `buf` on nothing has changed.
abbrev pub Untouched : ℕ → ℕ → (ℕ → ℕ) → (ℕ → ℕ) → Type 0
Untouched buf len old new = (a : ℕ) → (a < buf → new a ≡ old a) × (buf + len < a → new a ≡ old a)

-- The end of the loop that goes with the line.
abbrev pub Reads : ℕ → ℕ → (ℕ → ℕ) → Option (List ℕ) → ReadEnd → Type 0
Reads buf len old none waits = Unit
Reads buf len old none (ended count io rest) = ⊥
Reads buf len old (some xs) waits = ⊥
Reads buf len old (some xs) (ended count io rest) =
    (count ≡ length xs) × (count ≤ len) × Holds io.memory buf xs × Untouched buf len old io.memory

Holds-frame :
    (mem mem' : ℕ → ℕ) (buf : ℕ) (xs : List ℕ)
    → ((a : ℕ) → buf ≤ a → a < buf + length xs → mem' a ≡ mem a)
    → Holds mem buf xs
    → Holds mem' buf xs
Holds-frame mem mem' buf [] f h = tt
Holds-frame mem mem' buf (x ∷ xs) f h = (
  f (buf + length xs) (omega arith) (ground arith) ∙ h.0,
  Holds-frame mem mem' buf xs (λ a lo hi. f a lo (ground arith)) h.1,
)

put_Holds :
    (buf ch : ℕ) (xs : List ℕ) (io : Io)
    → Holds io.memory buf xs
    → Holds (put_char buf (length xs) ch io).memory buf (ch ∷ xs)
put_Holds buf ch xs io h = (
  ground arith,
  Holds-frame io.memory (put_char buf (length xs) ch io).memory buf xs (λ a lo hi. ground arith) h,
)

erase_Holds :
    (buf : ℕ) (xs : List ℕ) (io : Io)
    → Holds io.memory buf xs
    → Holds (erase_char buf (length xs) io).memory buf (tail xs)
erase_Holds buf [] io h = tt
erase_Holds buf (x ∷ xs) io h =
    Holds-frame io.memory (erase_char buf (suc (length xs)) io).memory buf xs
      (λ a lo hi. ground arith) h.1

newline_Reads :
    (buf len ch : ℕ) (xs : List ℕ) (old : ℕ → ℕ) (io : Io) (rest : List ℕ)
    → length xs < len
    → Holds io.memory buf xs
    → Untouched buf len old io.memory
    → Reads buf len old
        (some (10 ∷ xs))
        (ended (length xs + 1) (end_line buf (length xs) ch io) rest)
newline_Reads buf len ch xs old io rest lt h u = (
  ground arith,
  omega arith,
  (
    ground arith,
    Holds-frame io.memory (end_line buf (length xs) ch io).memory buf xs (λ a lo hi. ground arith)
        h,
  ),
  λ a. (λ lo. ground (arith, u a), λ hi. ground (arith, u a)),
)

put_Untouched :
    (buf len count ch : ℕ) (old : ℕ → ℕ) (io : Io)
    → count < len
    → Untouched buf len old io.memory
    → Untouched buf len old (put_char buf count ch io).memory
put_Untouched buf len count ch old io lt u a =
    (λ lo. ground (arith, u a), λ hi. ground (arith, u a))

erase_Untouched :
    (buf len count : ℕ) (old : ℕ → ℕ) (io : Io)
    → count < len
    → Untouched buf len old io.memory
    → Untouched buf len old (erase_char buf count io).memory
erase_Untouched buf len count old io lt u a = (λ lo. ground (arith, u a), λ hi. ground (arith, u a))

length-tail : (xs : List ℕ) → length (tail xs) ≡ length xs - 1
length-tail [] = refl
length-tail (x ∷ xs) = omega arith

-- The loop of `read_syscall`, started behind a line that stands in the buffer, waits exactly if
-- the input runs out, and otherwise ends with the edited line in the buffer, the count being its
-- length and at most `len`; it has written no byte outside the `len + 1` from the buffer's start on.
pub read_from-Reads :
    (buf len : ℕ) (input xs : List ℕ) (old : ℕ → ℕ) (io : Io)
    → length xs ≤ len
    → Holds io.memory buf xs
    → Untouched buf len old io.memory
    → Reads buf len old (edit len input xs) (read_from buf len input (length xs) io)
unfolding read_from edit
read_from-Reads buf len [] xs old io le h u = elim (Bool-cases (ltb (length xs) len)) [
  | inl room ↦ rw room tt
  | inr full ↦ rw full (refl, le, h, u)
]
read_from-Reads buf len (c ∷ input) xs old io le h u = elim (Bool-cases (ltb (length xs) len)) [
  | inr full ↦ rw full (refl, le, h, u)
  | inl room ↦ elim (Bool-cases (is_end (c % 256))) [
    | inl e ↦ rw (room, e) (refl, le, h, u)
    | inr ne ↦ elim (Bool-cases (is_newline (c % 256))) [
      | inl nl ↦
          rw (room, ne, nl) (newline_Reads buf len (c % 256) xs old io input (ground arith) h u)
      | inr nn ↦ elim (Bool-cases (is_erase (c % 256))) [
        | inl er ↦
            rw (room, ne, nn, er)
              (subst
                (λ n.
                  Reads buf len old (edit len input (tail xs))
                    (read_from buf len input n (erase_char buf (length xs) io)))
                (length-tail xs)
                (read_from-Reads buf len input (tail xs) old (erase_char buf (length xs) io)
                  (omega (arith, length-tail xs)) (erase_Holds buf xs io h)
                  (erase_Untouched buf len (length xs) old io (ground arith) u)))
        | inr ke ↦
            rw (room, ne, nn, ke)
              (subst
                (λ n.
                  Reads buf len old (edit len input (c % 256 ∷ xs))
                    (read_from buf len input n (put_char buf (length xs) (c % 256) io)))
                (omega arith)
                (read_from-Reads buf len input (c % 256 ∷ xs) old
                  (put_char buf (length xs) (c % 256) io) (ground arith)
                  (put_Holds buf (c % 256) xs io h)
                  (put_Untouched buf len (length xs) (c % 256) old io (ground arith) u)))
      ]
    ]
  ]
]

-- The end of a call of `read_syscall` that goes with the line.
abbrev pub Answers : ℕ → ℕ → (ℕ → ℕ) → Option (List ℕ) → Call → Type 0
Answers buf len old none blocked = Unit
Answers buf len old none (returns r io rest) = ⊥
Answers buf len old (some xs) blocked = ⊥
Answers buf len old (some xs) (returns r io rest) =
    (r ≡ pos (length xs)) × Holds io.memory buf xs × Untouched buf len old io.memory

read_end-Answers :
    (buf len : ℕ) (old : ℕ → ℕ) (line : Option (List ℕ)) (e : ReadEnd)
    → start_sdram ≤ buf
    → buf + len < end_sdram
    → Reads buf len old line e
    → Answers buf len old line (read_end buf e)
read_end-Answers buf len old none waits lo hi h = tt
read_end-Answers buf len old none (ended count io rest) lo hi h = h
read_end-Answers buf len old (some xs) waits lo hi h = h
read_end-Answers buf len old (some xs) (ended count io rest) lo hi h =
    (ground (arith, h.0, h.1), h.2, h.3)

-- For a buffer of `len` bytes below the last byte of the SDRAM, `read_syscall` on the standard
-- input blocks exactly if the input runs out before the line ends, and otherwise returns the length
-- of the edited line, with the line in the buffer; no byte outside the `len + 1` from the buffer's
-- start on has changed.
pub read_syscall-Answers :
    (buf len : ℕ) (input : List ℕ) (io : Io)
    → start_sdram ≤ buf
    → buf + len < end_sdram
    → Answers buf len io.memory (edit len input []) (read_syscall 0 buf len input io)
unfolding read_syscall
read_syscall-Answers buf len input io lo hi =
    read_end-Answers buf len io.memory (edit len input []) (read_from buf len input 0 io) lo hi
      (read_from-Reads buf len input [] io.memory io (omega arith) tt (λ a. (λ l. refl, λ l. refl)))
