-- ===== src/Io/Earlier.antt =====
-- READ and WRITE of the earlier kernels, Lab2/Solution/lab2/part2/kernel/C_SWI_handler.c and
-- Lab 3/lab3-support/kernel/C_SWI_handler.c, where lengths and counts are signed.
use fundamental_of_emb.Common.{
  ℕ, suc, ◌+◌, ◌-◌, ◌^◌, ◌≤◌, ◌<◌, ◌≡◌, refl, Bool, true, not, ◌||◌, List, [], ◌∷◌, ◌++◌, length, ℤ,
  pos, minus, int_of, is_negative, u32, ltb, leb, ◌==◌, if◌then◌else◌, arith,
}
use fundamental_of_emb.Kernel.{ebadf, efault}
use fundamental_of_emb.Io.{
  Io, Call, returns, read_from, read_end, read_result, read_syscall, write_rounds, start_sdram,
  end_sdram, end_strata,
}
use fundamental_of_emb.Io.Line.{edit, Answers, Holds, read_syscall-Answers}
use fundamental_of_emb.Io.Echo.{rev, write_rounds_lem}

-- A loop `while (count < len)` on an `int` does nothing for a negative `len`, as for 0.
abbrev pub rounds_of : ℕ → ℕ
rounds_of len = if is_negative len then 0 else len

-- READ, the same in both labs. The body is that of `read_syscall`.
unfoldable pub read : ℕ → ℕ → ℕ → List ℕ → Io → Call
read fd buf buf_len input io =
    if fd == 0
    then read_end buf (read_from buf (rounds_of buf_len) input 0 io)
    else returns (read_result buf 0 (minus ebadf)) io input

-- WRITE of lab 3: the result of the address check, -EFAULT, is overwritten in both branches.
unfoldable pub lab3_write : ℕ → ℕ → ℕ → Io → ℤ × Io
lab3_write fd buf len io =
    if fd == 1
    then (int_of (rounds_of len), write_rounds buf (rounds_of len) io)
    else (minus ebadf, io)

-- The rounds of `while (count <= len)`, which is entered for a positive `len`.
abbrev pub lab2_rounds : ℕ → ℕ
lab2_rounds len = if is_negative len || len == 0 then 0 else len + 1

-- The address check of lab 2, behind the loop.
abbrev pub lab2_flag : ℕ → ℕ → Bool
lab2_flag buf count =
    (ltb (u32 (buf + count)) end_sdram || leb start_sdram buf)
    || (ltb (u32 (buf + count)) end_strata || leb 0 buf)

abbrev pub lab2_result : ℕ → ℕ → ℤ → ℤ
lab2_result buf count result = if not (lab2_flag buf count) then minus efault else result

-- WRITE of lab 2.
unfoldable pub lab2_write : ℕ → ℕ → ℕ → Io → ℤ × Io
lab2_write fd buf len io =
    if fd == 1
    then (
      lab2_result buf (lab2_rounds len) (int_of (lab2_rounds len)),
      write_rounds buf (lab2_rounds len) io,
    )
    else (lab2_result buf 0 (minus ebadf), io)

-- For a buffer of `len` bytes, `len` not negative, below the last byte of the SDRAM, READ on the
-- standard input blocks exactly if the input runs out before the line ends, and otherwise returns
-- the length of the edited line, with the line in the buffer; no byte outside the `len + 1` from the
-- buffer's start on has changed.
pub read-Answers :
    (buf len : ℕ) (input : List ℕ) (io : Io)
    → len < 2 ^ 31
    → start_sdram ≤ buf
    → buf + len < end_sdram
    → Answers buf len io.memory (edit len input []) (read 0 buf len input io)
unfolding read read_syscall
read-Answers buf len input io short lo hi =
    let e : rounds_of len ≡ len = ground arith in rw e (read_syscall-Answers buf len input io lo hi)

-- WRITE of lab 3 on the standard output prints a line of less than 2^31 characters that stands in
-- memory, wherever that is, and returns its length.
pub lab3_write_lem :
    (buf : ℕ) (xs : List ℕ) (io : Io)
    → length xs < 2 ^ 31
    → Holds io.memory buf xs
    → lab3_write 1 buf (length xs) io
      ≡ (pos (length xs), record { memory = io.memory; output = io.output ++ rev xs })
unfolding lab3_write
lab3_write_lem buf xs io short h =
    let e : rounds_of (length xs) ≡ length xs = ground arith in
    let small : int_of (length xs) ≡ pos (length xs) = ground arith in
    rw (e, write_rounds_lem buf xs io h, small)

-- WRITE of lab 2 on the standard output prints one byte more than asked for: for a line that is not
-- empty and has less than 2^31 - 1 characters it prints the line and the byte behind it, wherever the
-- line stands in memory, and returns the length plus one.
pub lab2_write_lem :
    (buf : ℕ) (xs : List ℕ) (io : Io)
    → 0 < length xs
    → length xs < 2 ^ 31 - 1
    → Holds io.memory buf xs
    → lab2_write 1 buf (length xs) io ≡ (
      pos (length xs + 1),
      record { memory = io.memory; output = io.output ++ rev (io.memory (buf + length xs) ∷ xs) },
    )
unfolding lab2_write
lab2_write_lem buf xs io filled short h =
    let e : lab2_rounds (length xs) ≡ suc (length xs) = ground arith in
    let small : int_of (suc (length xs)) ≡ pos (length xs + 1) = ground arith in
    let checked : lab2_flag buf (suc (length xs)) ≡ true = ground arith in
    rw (e, write_rounds_lem buf (io.memory (buf + length xs) ∷ xs) io (refl, h), checked, small)
