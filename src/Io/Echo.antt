-- ===== src/Io/Echo.antt =====
-- The output of `write_syscall` in lab4/lab4/kernel/syscall/io.c, for a line as in `Io.Line`.
use fundamental_of_emb.Common.{
  ℕ, ◌≤◌, ◌<◌, ◌≡◌, sym, ap, true, pos, int_of, ◌^◌, List, [], ◌∷◌, ◌++◌, length, arith,
  append_assoc, append_nil,
}
use fundamental_of_emb.Io.{Io, write_rounds, write_syscall, write_allowed, start_sdram, end_sdram}
use fundamental_of_emb.Io.Line.{Holds}

-- The characters of a line in their order.
abbrev pub rev : List ℕ → List ℕ
rev [] = []
rev (x ∷ xs) = rev xs ++ (x ∷ [])

pub write_rounds_lem :
    (buf : ℕ) (xs : List ℕ) (io : Io)
    → Holds io.memory buf xs
    → write_rounds buf (length xs) io ≡ record { memory = io.memory; output = io.output ++ rev xs }
unfolding write_rounds
write_rounds_lem buf [] io h =
    ap (λ o. record { memory = io.memory; output = o }) (sym (append_nil io.output))
write_rounds_lem buf (x ∷ xs) io h =
    let ih = write_rounds_lem buf xs io h.1 in
    rw (ih, h.0)
      (ap (λ o. record { memory = io.memory; output = o })
        (append_assoc io.output (rev xs) (x ∷ [])))

-- `write_syscall` on the standard output prints a line of less than 2^31 characters that stands in
-- a buffer of the SDRAM, character by character, returns its length and changes no memory.
pub write_syscall_lem :
    (buf : ℕ) (xs : List ℕ) (io : Io)
    → start_sdram ≤ buf
    → buf < end_sdram
    → length xs < 2 ^ 31
    → Holds io.memory buf xs
    → write_syscall 1 buf (length xs) io
      ≡ (pos (length xs), record { memory = io.memory; output = io.output ++ rev xs })
unfolding write_syscall
write_syscall_lem buf xs io lo hi short h =
    let allowed : write_allowed buf ≡ true = ground arith in
    let small : int_of (length xs) ≡ pos (length xs) = ground arith in
    rw (write_rounds_lem buf xs io h, allowed, small)
