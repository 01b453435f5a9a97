-- ===== src/Rot13/Main.antt =====
-- `main` of the two versions of rot13.c, Lab2/Solution/lab2/part1/rot13 and
-- Lab 3/lab3-support/tasks/rot13: it shows its arguments and enters its loop.
use fundamental_of_emb.Common.{
  ℕ, zero, suc, ◌+◌, Option, none, some, List, [], ◌∷◌, ◌==◌, if◌then◌else◌,
}
use fundamental_of_emb.Io.{Io}
use fundamental_of_emb.Rot13.Dialogue.{Lab, lab2, lab3, RoundEnd, write, rounds}

-- The characters before the 0 of a string, counted from `len` on.
unfoldable pub arg_len : ℕ → (ℕ → ℕ) → ℕ → ℕ → Option ℕ
arg_len zero mem arg len = none
arg_len (suc fuel) mem arg len =
    let rest = arg_len fuel mem arg (suc len) in if mem (arg + len) == 0 then some len else rest

-- What is written of an argument; lab 3 writes the 0 too, and the 0 behind the newline.
abbrev pub shown_len : Lab → ℕ → ℕ
shown_len lab2 len = len
shown_len lab3 len = len + 1

abbrev pub newline_len : Lab → ℕ
newline_len lab2 = 1
newline_len lab3 = 2

-- The lab, the fuel for a string, and the address of the newline.
module _ (lab : Lab) (chars newline : ℕ) where
  abbrev pub show_arg : ℕ → Io → Option ℕ → Option Io
  show_arg arg io none = none
  show_arg arg io (some len) =
      some (write lab newline (newline_len lab) (write lab arg (shown_len lab len) io).1).1

  abbrev pub show_rest : (Io → Option Io) → Option Io → Option Io
  show_rest next none = none
  show_rest next (some io) = next io

  unfoldable pub show_args : List ℕ → Io → Option Io
  show_args [] io = some io
  show_args (arg ∷ args) io =
      show_rest (show_args args) (show_arg arg io (arg_len chars io.memory arg 0))

  -- Without arguments, there is a message.
  abbrev pub greet : ℕ → List ℕ → Io → Option Io
  greet missing [] io = some (write lab missing 32 io).1
  greet missing (arg ∷ args) io = show_args (arg ∷ args) io

abbrev pub enter_loop : (Io → Option RoundEnd) → Option Io → Option RoundEnd
enter_loop loop none = none
enter_loop loop (some io) = loop io

-- The addresses are those of the arguments, of the five texts and of the buffer.
unfoldable pub main :
    Lab
    → (retries chars missing newline prompt cipher failed buf fuel : ℕ) → (args : List ℕ)
    → (input : List ℕ) → Io
    → Option RoundEnd
main lab retries chars missing newline prompt cipher failed buf fuel args input io =
    enter_loop (rounds lab retries prompt cipher failed buf fuel input)
      (greet lab chars newline missing args io)
