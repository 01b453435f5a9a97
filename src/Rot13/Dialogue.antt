-- ===== src/Rot13/Dialogue.antt =====
-- The endless loops of `main` in the two versions of rot13.c, Lab2/Solution/lab2/part1/rot13 and
-- Lab 3/lab3-support/tasks/rot13, each on the calls of its lab's kernel. The wrappers, in
-- Lab2/Solution/lab2/part1/libc and Lab 3/lab3-support/tasks/libc/swi, make -1 of every error.
use fundamental_of_emb.Common.{
  ℕ, zero, suc, Bool, true, Option, none, some, List, ℤ, pos, negsuc, ltb, ◌==◌, if◌then◌else◌,
}
use fundamental_of_emb.Io.{Io, Call, blocked, returns}
use fundamental_of_emb.Io.Earlier.{read, lab2_write, lab3_write}
use fundamental_of_emb.Rot13.{rot13_buf}

abbrev pub max_buflen : ℕ
max_buflen = 100

pub data Lab : Type 0 where
  lab2 : Lab
  lab3 : Lab

-- `write` on the standard output.
abbrev pub write : Lab → ℕ → ℕ → Io → ℤ × Io
write lab2 text len io = lab2_write 1 text len io
write lab3 text len io = lab3_write 1 text len io

-- The lengths given for "Enter text:" and "Cipher Text:"; lab 3 counts the 0 behind them.
abbrev pub prompt_len : Lab → ℕ
prompt_len lab2 = 11
prompt_len lab3 = 12

abbrev pub title_len : Lab → ℕ
title_len lab2 = 12
title_len lab3 = 13

-- How a round ends: it waits in `read` for characters that have not come, the program exits with a
-- status, the next round begins, with the rest of the input, or lab 3's loop has made as many new
-- attempts as the fuel allows.
pub data RoundEnd : Type 0 where
  waits : RoundEnd
  exits : (status : ℕ) → Io → RoundEnd
  again : Io → (rest : List ℕ) → RoundEnd
  retrying : RoundEnd

-- `errcheck < len`.
abbrev pub is_short : ℤ → ℕ → Bool
is_short (pos errcheck) len = ltb errcheck len
is_short (negsuc e) len = true

-- The addresses of the text for a new attempt and of the buffer.
module _ (failed buf : ℕ) where
  -- A new attempt of lab 2; the result of its `write` is not looked at.
  abbrev pub retry_once : ℕ → ℤ × Io → ℤ × Io
  retry_once len (errcheck, io) =
      if is_short errcheck len
      then (errcheck, (write lab2 buf len (write lab2 failed 30 io).1).1)
      else (errcheck, io)

  -- The new attempts of lab 3.
  unfoldable pub retry_loop : ℕ → ℕ → ℤ × Io → Option (ℤ × Io)
  retry_loop zero len (errcheck, io) = none
  retry_loop (suc fuel) len (errcheck, io) =
      let more = retry_loop fuel len (write lab3 buf len (write lab3 failed 30 io).1) in
      if is_short errcheck len then more else some (errcheck, io)

  abbrev pub retry : Lab → ℕ → ℕ → ℤ × Io → Option (ℤ × Io)
  retry lab2 fuel len r = some (retry_once len r)
  retry lab3 fuel len r = retry_loop fuel len r

abbrev pub finish : List ℕ → Option (ℤ × Io) → RoundEnd
finish rest none = retrying
finish rest (some (pos errcheck, io)) = again io rest
finish rest (some (negsuc e, io)) = exits 1 io

-- The lab, the fuel for its new attempts, and the addresses of the three texts and of the buffer.
module _ (lab : Lab) (retries prompt cipher failed buf : ℕ) where
  abbrev pub after_read : Call → RoundEnd
  after_read blocked = waits
  after_read (returns (negsuc e) io rest) = exits 1 io
  after_read (returns (pos len) io rest) =
      if len == 0
      then exits 0 io
      else finish rest (
          retry failed buf lab retries len (
            write lab buf len
              (write lab cipher (title_len lab)
                (record io { memory = rot13_buf buf len io.memory })).1))

  unfoldable pub round : List ℕ → Io → RoundEnd
  round input io = after_read (read 0 buf max_buflen input (write lab prompt (prompt_len lab) io).1)

  -- How the program ends, within `fuel` rounds.
  abbrev pub goes_on : (List ℕ → Io → Option RoundEnd) → RoundEnd → Option RoundEnd
  goes_on next waits = some waits
  goes_on next (exits status io) = some (exits status io)
  goes_on next retrying = some retrying
  goes_on next (again io rest) = next rest io

  unfoldable pub rounds : ℕ → List ℕ → Io → Option RoundEnd
  rounds zero input io = none
  rounds (suc fuel) input io = goes_on (rounds fuel) (round input io)
