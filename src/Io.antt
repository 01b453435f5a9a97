-- ===== src/Io.antt =====
-- The console calls of lab4/lab4/kernel/syscall/io.c.
pub mod Line
pub mod Echo
pub mod Earlier
use fundamental_of_emb.Common.{
  ℕ, zero, suc, ◌+◌, ◌-◌, ◌%◌, Bool, true, false, not, ◌&&◌, ◌||◌, List, [], ◌∷◌, ◌++◌, ℤ, minus,
  int_of, u32, update, ltb, leb, ◌==◌, if◌then◌else◌,
}
use fundamental_of_emb.Kernel.{ebadf, efault}

abbrev pub start_sdram : ℕ
start_sdram = 0xa000_0000

abbrev pub end_sdram : ℕ
end_sdram = 0xa3ff_ffff

abbrev pub end_strata : ℕ
end_strata = 0x00ff_ffff

-- The memory, byte by byte, and the characters that `putc` and `puts` have sent.
pub record Io : Type 0 where
  pub memory : ℕ → ℕ
  pub output : List ℕ

-- Where the loop of `read_syscall` ends: it waits in `getc` for a character that has not come, or
-- it leaves with a count and the characters not yet read.
pub data ReadEnd : Type 0 where
  waits : ReadEnd
  ended : (count : ℕ) → Io → (rest : List ℕ) → ReadEnd

-- NULL_CHAR and END_OF_TRANSMISSION, BACKSPACE and DELETE, NEW_LINE and CARRAIGE_RETURN.
abbrev pub is_end : ℕ → Bool
is_end ch = ch == 0 || ch == 4

abbrev pub is_erase : ℕ → Bool
is_erase ch = ch == 8 || ch == 127

abbrev pub is_newline : ℕ → Bool
is_newline ch = ch == 10 || ch == 13

-- `buf[count] = ch; putc(echo)` for the next count.
abbrev pub put_char : ℕ → ℕ → ℕ → Io → Io
put_char buf count ch io = record {
  memory = update io.memory (buf + count) ch;
  output = io.output ++ (ch ∷ []);
}

-- The last character is taken back, on the screen by `"\b \b"`.
abbrev pub erase_char : ℕ → ℕ → Io → Io
erase_char buf count io = if count == 0 then io else record {
  memory = update io.memory (buf + (count - 1)) 0;
  output = io.output ++ (8 ∷ 32 ∷ 8 ∷ []);
}

-- The end of a line: the newline, and a 0 behind it.
abbrev pub end_line : ℕ → ℕ → ℕ → Io → Io
end_line buf count ch io = record {
  memory =
      update (update (update io.memory (buf + count) ch) (buf + count) 10) (buf + (count + 1)) 0;
  output = io.output ++ (10 ∷ []);
}

-- The loop of `read_syscall`, on the characters that `getc` will give.
unfoldable pub read_from : ℕ → ℕ → List ℕ → ℕ → Io → ReadEnd
read_from buf len [] count io = if ltb count len then waits else ended count io []
read_from buf len (c ∷ input) count io =
    let ch = c % 256 in
    let rest =
      read_from buf len input (if is_erase ch then count - 1 else count + 1)
        (if is_erase ch then erase_char buf count io else put_char buf count ch io) in
    if not (ltb count len)
    then ended count io (c ∷ input)
    else if is_end ch
    then ended count io input
    else if is_newline ch
    then ended (count + 1) (end_line buf count ch io) input
    else rest

-- The check at the end of `read_syscall`, on the address behind the characters read.
abbrev pub read_result : ℕ → ℕ → ℤ → ℤ
read_result buf count result =
    if leb end_sdram (u32 (buf + count)) || ltb buf start_sdram then minus efault else result

-- How a call ends: it waits, or returns.
pub data Call : Type 0 where
  blocked : Call
  returns : ℤ → Io → (rest : List ℕ) → Call

abbrev pub read_end : ℕ → ReadEnd → Call
read_end buf waits = blocked
read_end buf (ended count io rest) = returns (read_result buf count (int_of count)) io rest

-- STDIN_FILENO is 0.
unfoldable pub read_syscall : ℕ → ℕ → ℕ → List ℕ → Io → Call
read_syscall fd buf len input io =
    if fd == 0
    then read_end buf (read_from buf len input 0 io)
    else returns (read_result buf 0 (minus ebadf)) io input

-- The first `n` rounds of the loop of `write_syscall`.
unfoldable pub write_rounds : ℕ → ℕ → Io → Io
write_rounds buf zero io = io
write_rounds buf (suc n) io =
    let before = write_rounds buf n io in
    record before { output = before.output ++ (before.memory (buf + n) ∷ []) }

-- The check comes before the loop, where the count is 0: it is on the first address only.
abbrev pub write_allowed : ℕ → Bool
write_allowed buf =
    (ltb (u32 (buf + 0)) end_sdram && leb start_sdram buf) || ltb (u32 (buf + 0)) end_strata

-- STDOUT_FILENO is 1.
unfoldable pub write_syscall : ℕ → ℕ → ℕ → Io → ℤ × Io
write_syscall fd buf len io =
    if not (write_allowed buf)
    then (minus efault, io)
    else if fd == 1
    then (int_of len, write_rounds buf len io)
    else (minus ebadf, io)
