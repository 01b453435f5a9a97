-- ===== src/Rot13/Lines.antt =====
-- Lines in memory, for the programs Lab2/Solution/lab2/part1/rot13/rot13.c and
-- Lab 3/lab3-support/tasks/rot13/rot13.c: what READ takes of the input, what is written of a line,
-- and the cipher on a line.
use fundamental_of_emb.Common.{
  ℕ, zero, suc, ◌+◌, ◌-◌, ◌%◌, ◌≤◌, ◌<◌, ◌≡◌, refl, ap, ◌∙◌, List, [], ◌∷◌, map, length, ltb, arith,
  Bool-cases, inl, inr, ◌^◌, ◌++◌, pos,
}
use fundamental_of_emb.Io.{
  Io, ReadEnd, ended, is_end, is_erase, is_newline, erase_char, put_char, read_from, write_rounds,
}
use fundamental_of_emb.Io.Line.{Holds}
use fundamental_of_emb.Io.Echo.{rev}
use fundamental_of_emb.Io.Earlier.{lab2_write, lab3_write, lab2_write_lem, lab3_write_lem}
use fundamental_of_emb.Rot13.Dialogue.{Lab, lab2, lab3, write}
use fundamental_of_emb.Rot13.{rot13_char, rot13_buf, rot13_buf_at}

-- At most `total` characters are in the line and in the rest of the input.
abbrev pub Consumes : ℕ → ReadEnd → Type 0
Consumes total ReadEnd.waits = Unit
Consumes total (ended count io rest) = count + length rest ≤ total

Consumes-le : (m n : ℕ) (e : ReadEnd) → m ≤ n → Consumes m e → Consumes n e
Consumes-le m n ReadEnd.waits le c = tt
Consumes-le m n (ended count io rest) le c = omega (arith, le, c)

pub read_from-Consumes :
    (buf len : ℕ) (input : List ℕ) (count : ℕ) (io : Io)
    → Consumes (count + length input) (read_from buf len input count io)
unfolding read_from
read_from-Consumes buf len [] count io = elim (Bool-cases (ltb count len)) [
  | inl room ↦ rw room tt
  | inr full ↦ rw full (omega arith)
]
read_from-Consumes buf len (c ∷ input) count io = elim (Bool-cases (ltb count len)) [
  | inr full ↦ rw full (omega arith)
  | inl room ↦ elim (Bool-cases (is_end (c % 256))) [
    | inl e ↦ rw (room, e) (omega arith)
    | inr ne ↦ elim (Bool-cases (is_newline (c % 256))) [
      | inl nl ↦ rw (room, ne, nl) (omega arith)
      | inr nn ↦ elim (Bool-cases (is_erase (c % 256))) [
        | inl er ↦
            rw (room, ne, nn, er)
              (Consumes-le _ _ _ (omega arith)
                (read_from-Consumes buf len input (count - 1) (erase_char buf count io)))
        | inr ke ↦
            rw (room, ne, nn, ke)
              (Consumes-le _ _ _ (omega arith)
                (read_from-Consumes buf len input (count + 1) (put_char buf count (c % 256) io)))
      ]
    ]
  ]
]

-- A `write` changes no memory.
write_rounds-memory : (buf n : ℕ) (io : Io) → (write_rounds buf n io).memory ≡ io.memory
unfolding write_rounds
write_rounds-memory buf zero io = refl
write_rounds-memory buf (suc n) io = write_rounds-memory buf n io

pub write-memory :
    (lab : Lab) (text len : ℕ) (io : Io) → (write lab text len io).1.memory ≡ io.memory
unfolding lab2_write lab3_write
write-memory lab2 text len io = write_rounds-memory text _ io
write-memory lab3 text len io = write_rounds-memory text _ io

-- "Cipher Text:", the last character first, as in `Io.Line`.
abbrev pub cipher_text : List ℕ
cipher_text = b':' ∷ b't' ∷ b'x' ∷ b'e' ∷ b'T' ∷ b' ' ∷ b'r' ∷ b'e' ∷ b'h' ∷ b'p' ∷ b'i' ∷ b'C' ∷ []

-- What is written of it.
abbrev pub title : Lab → List ℕ
title lab2 = cipher_text
title lab3 = 0 ∷ cipher_text

-- What the console shows of a line written from memory; the kernel of lab 2 prints a byte more.
abbrev pub printed : Lab → (ℕ → ℕ) → ℕ → List ℕ → List ℕ
printed lab2 mem text xs = mem (text + length xs) ∷ xs
printed lab3 mem text xs = xs

abbrev pub printed_len : Lab → ℕ → ℕ
printed_len lab2 n = n + 1
printed_len lab3 n = n

pub write_lem :
    (lab : Lab) (text : ℕ) (xs : List ℕ) (io : Io)
    → 0 < length xs
    → length xs < 2 ^ 31 - 1
    → Holds io.memory text xs
    → write lab text (length xs) io ≡ (
      pos (printed_len lab (length xs)),
      record io { output = io.output ++ rev (printed lab io.memory text xs) },
    )
write_lem lab2 text xs io filled short h = lab2_write_lem text xs io filled short h
write_lem lab3 text xs io filled short h = lab3_write_lem text xs io (omega (arith, short)) h

pub length-map : (f : ℕ → ℕ) (xs : List ℕ) → length (map f xs) ≡ length xs
length-map f [] = refl
length-map f (x ∷ xs) = ap suc (length-map f xs)

-- The cipher on a line in memory.
pub rot13_Holds :
    (buf n : ℕ) (mem : ℕ → ℕ) (xs : List ℕ)
    → length xs ≤ n
    → Holds mem buf xs
    → Holds (rot13_buf buf n mem) buf (map rot13_char xs)
rot13_Holds buf n mem [] le h = tt
rot13_Holds buf n mem (x ∷ xs) le h =
    let at : rot13_buf buf n mem (buf + length xs) ≡ rot13_char (mem (buf + length xs)) =
      rot13_buf_at buf n mem (buf + length xs) ∙ ground (arith, le) in
    (
      ap (λ i. rot13_buf buf n mem (buf + i)) (length-map rot13_char xs) ∙ at ∙ ap rot13_char h.0,
      rot13_Holds buf n mem xs (omega (arith, le)) h.1,
    )

-- A line below an address, where nothing below it changes.
pub below_Holds :
    (mem mem' : ℕ → ℕ) (text : ℕ) (xs : List ℕ) (top : ℕ)
    → ((a : ℕ) → a < top → mem' a ≡ mem a)
    → text + length xs ≤ top
    → Holds mem text xs
    → Holds mem' text xs
below_Holds mem mem' text [] top same le h = tt
below_Holds mem mem' text (x ∷ xs) top same le h = (
  same (text + length xs) (omega (arith, le)) ∙ h.0,
  below_Holds mem mem' text xs top same (omega (arith, le)) h.1,
)
