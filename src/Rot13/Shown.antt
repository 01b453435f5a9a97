-- ===== src/Rot13/Shown.antt =====
-- What `main` of the two versions of rot13.c, Lab2/Solution/lab2/part1/rot13 and
-- Lab 3/lab3-support/tasks/rot13, shows of its arguments.
use fundamental_of_emb.Common.{
  ℕ, ℤ, zero, suc, ◌+◌, ◌-◌, ◌^◌, ◌++◌, false, true, ==_iff, append_assoc, append_nil, ◌≤◌, ◌<◌,
  ◌≡◌, refl, ap, ◌∙◌, sym, subst, Option, some, List, [], ◌∷◌, length, ◌==◌, arith, Bool-cases, inl,
  inr,
}
use fundamental_of_emb.Io.{Io, start_sdram, end_sdram, write_rounds}
use fundamental_of_emb.Io.Line.{Holds}
use fundamental_of_emb.Io.Echo.{rev}
use fundamental_of_emb.Io.Earlier.{lab2_write}
use fundamental_of_emb.Rot13.Dialogue.{Lab, lab2, lab3, RoundEnd, write, rounds}
use fundamental_of_emb.Rot13.Lines.{title, printed, write_lem}
use fundamental_of_emb.Rot13.Ends.{EndsWell, rounds-EndsWell}
use fundamental_of_emb.Rot13.Main.{
  arg_len, shown_len, newline_len, show_arg, show_rest, show_args, greet, enter_loop, main,
}

-- The first 0 of the string at `arg` stands behind the characters of `xs`, before `chars` bytes. A
-- string is a list with the last character first.
pub record IsString (chars : ℕ) (mem : ℕ → ℕ) (arg : ℕ) (xs : List ℕ) : Type 0 where
  pub text : Holds mem arg xs
  pub inner : (i : ℕ) → i < length xs → (mem (arg + i) == 0) ≡ false
  pub ended : mem (arg + length xs) ≡ 0
  pub below : length xs < chars

abbrev pub Strings : ℕ → (ℕ → ℕ) → List ℕ → List (List ℕ) → Type 0
Strings chars mem [] [] = Unit
Strings chars mem [] (xs ∷ texts) = ⊥
Strings chars mem (arg ∷ args) [] = ⊥
Strings chars mem (arg ∷ args) (xs ∷ texts) =
    IsString chars mem arg xs × Strings chars mem args texts

-- What the console shows of an argument: its characters and a 0, which lab 2's kernel adds and lab 3's
-- program asks for; an empty argument gives nothing in lab 2.
abbrev pub shown_text : Lab → List ℕ → List ℕ
shown_text lab2 [] = []
shown_text lab2 (x ∷ xs) = rev (0 ∷ x ∷ xs)
shown_text lab3 xs = rev (0 ∷ xs)

-- Each argument on a line of its own, with a 0 behind the newline.
abbrev pub shown_lines : Lab → List (List ℕ) → List ℕ
shown_lines lab [] = []
shown_lines lab (xs ∷ texts) = (shown_text lab xs ++ (10 ∷ 0 ∷ [])) ++ shown_lines lab texts

-- "No arguments have been passed!\n" with its 0, the last character first.
abbrev pub missing_text : List ℕ
missing_text =
    0 ∷ 10 ∷ b'!' ∷ b'd' ∷ b'e' ∷ b's' ∷ b's' ∷ b'a' ∷ b'p' ∷ b' ' ∷ b'n' ∷ b'e' ∷ b'e' ∷ b'b'
    ∷ b' ' ∷ b'e' ∷ b'v' ∷ b'a' ∷ b'h' ∷ b' ' ∷ b's' ∷ b't' ∷ b'n' ∷ b'e' ∷ b'm' ∷ b'u' ∷ b'g'
    ∷ b'r' ∷ b'a' ∷ b' ' ∷ b'o' ∷ b'N' ∷ []

abbrev pub greeting : Lab → (ℕ → ℕ) → ℕ → List (List ℕ) → List ℕ
greeting lab mem missing [] = rev (printed lab mem missing missing_text)
greeting lab mem missing (xs ∷ texts) = shown_lines lab (xs ∷ texts)

-- The loop finds the first 0.
arg_len_lem :
    (fuel : ℕ) (mem : ℕ → ℕ) (arg len n : ℕ)
    → ((i : ℕ) → i < n → (mem (arg + i) == 0) ≡ false)
    → mem (arg + n) ≡ 0
    → len ≤ n
    → n < len + fuel
    → arg_len fuel mem arg len ≡ some n
unfolding arg_len
arg_len_lem zero mem arg len n inner ended le lt = absurd (omega (arith, le, lt))
arg_len_lem (suc fuel) mem arg len n inner ended le lt = elim (Bool-cases (len == n)) [
  | inl e ↦
      let same : len ≡ n = (==_iff len n).0 e in
      let zero : (mem (arg + len) == 0) ≡ true =
        subst (λ x. (mem (arg + x) == 0) ≡ true) (sym same) (rw ended refl) in
      rw zero (ap some same)
  | inr ne ↦ rw (inner len (ground (arith, le, ne))) (
      arg_len_lem fuel mem arg (suc len) n inner ended (ground (arith, le, ne)) (omega (arith, lt)))
]

-- The output is longer by `xs`.
abbrev adds : Io → List ℕ → Io
adds io xs = record io { output = io.output ++ xs }

module _ (lab : Lab) (chars newline : ℕ) (mem : ℕ → ℕ) (short : chars < 2 ^ 31 - 2)
    (new_line : Holds mem newline (0 ∷ 10 ∷ [])) where
  shown_newline :
      (lab : Lab) (io : Io)
      → io.memory ≡ mem
      → (write lab newline (newline_len lab) io).1 ≡ adds io (10 ∷ 0 ∷ [])
  shown_newline lab2 io same =
      ap (λ (p : ℤ × Io). p.1)
        (write_lem lab2 newline (10 ∷ []) io (omega arith) (omega arith)
          (subst (λ m. Holds m newline (10 ∷ [])) (sym same) new_line.1))
      ∙ ap (λ z. adds io (10 ∷ z ∷ [])) (ap (λ m. m (newline + 1)) same ∙ new_line.0)
  shown_newline lab3 io same =
      ap (λ (p : ℤ × Io). p.1)
        (write_lem lab3 newline (0 ∷ 10 ∷ []) io (omega arith) (omega arith)
          (subst (λ m. Holds m newline (0 ∷ 10 ∷ [])) (sym same) new_line))

  -- An empty argument is not written in lab 2.
  shown_nothing : (arg : ℕ) (io : Io) → (write lab2 arg 0 io).1 ≡ adds io []
  unfolding lab2_write write_rounds
  shown_nothing arg io = ap (λ o. record io { output = o }) (sym (append_nil io.output))

  shown_string :
      (lab : Lab) (arg : ℕ) (xs : List ℕ) (io : Io)
      → io.memory ≡ mem
      → IsString chars mem arg xs
      → (write lab arg (shown_len lab (length xs)) io).1 ≡ adds io (shown_text lab xs)
  shown_string lab2 arg [] io same s = shown_nothing arg io
  shown_string lab2 arg (x ∷ xs) io same s =
      ap (λ (p : ℤ × Io). p.1)
        (write_lem lab2 arg (x ∷ xs) io (omega arith) (omega (arith, s.below, short))
          (subst (λ m. Holds m arg (x ∷ xs)) (sym same) s.text))
      ∙ ap (λ z. adds io (rev (z ∷ x ∷ xs))) (ap (λ m. m (arg + length (x ∷ xs))) same ∙ s.ended)
  shown_string lab3 arg xs io same s =
      ap (λ n. (write lab3 arg n io).1) (omega arith)
      ∙ ap (λ (p : ℤ × Io). p.1)
          (write_lem lab3 arg (0 ∷ xs) io (omega arith) (omega (arith, s.below, short))
            (subst (λ m. Holds m arg (0 ∷ xs)) (sym same) (s.ended, s.text)))

  show_args_lem :
      (args : List ℕ) (texts : List (List ℕ)) (io : Io)
      → io.memory ≡ mem
      → Strings chars mem args texts
      → show_args lab chars newline args io ≡ some (adds io (shown_lines lab texts))
  unfolding show_args
  show_args_lem [] [] io same s =
      ap (λ o. some (record io { output = o })) (sym (append_nil io.output))
  show_args_lem [] (xs ∷ texts) io same s = absurd s
  show_args_lem (arg ∷ args) [] io same s = absurd s
  show_args_lem (arg ∷ args) (xs ∷ texts) io same s =
      let shown : Option Io = some (adds (adds io (shown_text lab xs)) (10 ∷ 0 ∷ [])) in
      let first : show_arg lab chars newline arg io (arg_len chars io.memory arg 0) ≡ shown =
        subst (λ m. show_arg lab chars newline arg io (arg_len chars m arg 0) ≡ shown) (sym same)
          (ap (show_arg lab chars newline arg io) (
              arg_len_lem chars mem arg 0 (length xs) s.0.inner s.0.ended (omega arith)
                (omega (arith, s.0.below)))
            ∙ ap (λ i. some (write lab newline (newline_len lab) i).1)
                (shown_string lab arg xs io same s.0)
            ∙ ap some (shown_newline lab (adds io (shown_text lab xs)) same)) in
      ap (show_rest lab chars newline (show_args lab chars newline args)) first
      ∙ show_args_lem args texts (adds (adds io (shown_text lab xs)) (10 ∷ 0 ∷ [])) same s.1
      ∙ ap (λ o. some (record io { output = o }))
          (ap (λ o. o ++ shown_lines lab texts)
              (append_assoc io.output (shown_text lab xs) (10 ∷ 0 ∷ []))
            ∙ append_assoc io.output (shown_text lab xs ++ (10 ∷ 0 ∷ [])) (shown_lines lab texts))

  greet_lem :
      (missing : ℕ) (args : List ℕ) (texts : List (List ℕ)) (io : Io)
      → io.memory ≡ mem
      → Holds mem missing missing_text
      → Strings chars mem args texts
      → greet lab chars newline missing args io ≡ some (adds io (greeting lab mem missing texts))
  greet_lem missing [] [] io same m s = ap some (
      ap (λ (p : ℤ × Io). p.1)
        (write_lem lab missing missing_text io (omega arith) (omega arith)
          (subst (λ x. Holds x missing missing_text) (sym same) m))
      ∙ ap (λ x. adds io (rev (printed lab x missing missing_text))) same)
  greet_lem missing [] (xs ∷ texts) io same m s = absurd s
  greet_lem missing (arg ∷ args) [] io same m s = absurd s
  greet_lem missing (arg ∷ args) (xs ∷ texts) io same m s =
      show_args_lem (arg ∷ args) (xs ∷ texts) io same s

-- `main` in each lab, with the newline, the message "No arguments have been passed!\n" and the text
-- "Cipher Text:" in memory. When every argument is a string of less than `chars` characters, with
-- `chars` below 2^31 - 2, it writes the arguments in order, each with a 0 (in lab 2 only when it has
-- characters) and the newline with a 0, or without arguments the message (in lab 2 with the byte behind
-- its 0); it changes no memory, and then runs its rounds. With a buffer of 100 bytes below the last byte
-- of the SDRAM, the text below the buffer, fuel for one new attempt of lab 3, and one round more than
-- there are characters in the input, the whole run waits for more input or exits with status 0.
pub main-EndsWell :
    (lab : Lab) (retries chars missing newline prompt cipher failed buf fuel : ℕ) (args : List ℕ)
    (texts : List (List ℕ)) (input : List ℕ) (io : Io)
    → start_sdram ≤ buf
    → buf + 100 < end_sdram
    → cipher + 12 < buf
    → 0 < retries
    → length input < fuel
    → chars < 2 ^ 31 - 2
    → Strings chars io.memory args texts
    → Holds io.memory newline (0 ∷ 10 ∷ [])
    → Holds io.memory missing missing_text
    → Holds io.memory cipher (title lab)
    → (main lab retries chars missing newline prompt cipher failed buf fuel args input io
        ≡ rounds lab retries prompt cipher failed buf fuel input
            (record io { output = io.output ++ greeting lab io.memory missing texts }))
      × EndsWell
          (main lab retries chars missing newline prompt cipher failed buf fuel args input io)
unfolding main
main-EndsWell lab retries chars missing newline prompt cipher failed buf fuel args texts input io lo
      hi apart attempts lt short s new_line message text =
    let run : Option Io → Option RoundEnd =
      enter_loop (rounds lab retries prompt cipher failed buf fuel input) in
    let g =
      greet_lem lab chars newline io.memory short new_line missing args texts io refl message s in
    (
      ap run g,
      subst (λ r. EndsWell (run r)) (sym g)
          (rounds-EndsWell lab retries prompt cipher failed buf lo hi apart attempts fuel input
            (adds io (greeting lab io.memory missing texts)) lt text),
    )
