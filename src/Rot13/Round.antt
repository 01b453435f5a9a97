-- ===== src/Rot13/Round.antt =====
-- A round of the loop of Lab2/Solution/lab2/part1/rot13/rot13.c and of
-- Lab 3/lab3-support/tasks/rot13/rot13.c.
use fundamental_of_emb.Common.{
  zero, suc, ◌-◌, ◌^◌, ℕ, ◌+◌, ◌≤◌, ◌<◌, ◌≡◌, refl, sym, subst, ap, ◌∙◌, false, Option, none, some,
  List, [], ◌∷◌, ◌++◌, map, length, ℤ, pos, ltb, ◌==◌, arith, int_of,
}
use fundamental_of_emb.Io.{
  Io, ReadEnd, ended, returns, read_from, read_end, read_result, start_sdram, end_sdram,
}
use fundamental_of_emb.Io.Line.{edit, Holds, Untouched, Reads, read_from-Reads}
use fundamental_of_emb.Io.Echo.{rev}
use fundamental_of_emb.Io.Earlier.{read}
use fundamental_of_emb.Rot13.{rot13_char, rot13_buf, rot13_buf_at}
use fundamental_of_emb.Rot13.Dialogue.{
  Lab, lab2, lab3, write, prompt_len, title_len, RoundEnd, waits, exits, again, retry, retry_loop,
  after_read, finish, round,
}
use fundamental_of_emb.Rot13.Lines.{
  Consumes, read_from-Consumes, write-memory, title, printed, printed_len, write_lem, length-map,
  rot13_Holds, below_Holds,
}

length-title : (lab : Lab) → length (title lab) ≡ title_len lab
length-title lab2 = refl
length-title lab3 = refl

title_bounds : (lab : Lab) → (0 < length (title lab)) × (length (title lab) < 2 ^ 31 - 1)
title_bounds lab2 = (omega arith, omega arith)
title_bounds lab3 = (omega arith, omega arith)

pub title_below :
    (lab : Lab) (cipher buf : ℕ) → cipher + 12 < buf → cipher + length (title lab) ≤ buf
title_below lab2 cipher buf apart = omega (arith, apart)
title_below lab3 cipher buf apart = omega (arith, apart)

-- A `write` that succeeds needs no new attempt.
complete :
    (lab : Lab) (retries failed buf len : ℕ) (io : Io)
    → 0 < retries
    → retry failed buf lab retries len (pos (printed_len lab len), io)
      ≡ some (pos (printed_len lab len), io)
unfolding retry_loop
complete lab2 retries failed buf len io pos_retries =
    let enough : ltb (len + 1) len ≡ false = ground arith in rw enough refl
complete lab3 zero failed buf len io pos_retries = absurd (omega (arith, pos_retries))
complete lab3 (suc retries) failed buf len io pos_retries =
    let enough : ltb len len ≡ false = ground arith in rw enough refl

module _ (lab : Lab) (retries prompt cipher failed buf : ℕ) (input : List ℕ) (io : Io) where
  -- Behind the prompt.
  abbrev pub prompted : Io
  prompted = (write lab prompt (prompt_len lab) io).1

  -- `read` has given the line `xs`, which is not empty. The round has printed the text and the line
  -- in cipher, and left the line in cipher in the buffer. No byte outside the buffer and the one
  -- behind it has changed, and the input has become shorter.
  pub record Answered (xs : List ℕ) (e : RoundEnd) : Type 0 where
    pub line : Io
    pub rest : List ℕ
    pub after : Io
    pub reads : read 0 buf 100 input prompted ≡ returns (pos (length xs)) line rest
    pub result : e ≡ again after rest
    pub output :
        after.output
        ≡ (line.output ++ rev (printed lab after.memory cipher (title lab)))
          ++ rev (printed lab after.memory buf (map rot13_char xs))
    pub holds : Holds after.memory buf (map rot13_char xs)
    pub untouched : Untouched buf 100 io.memory after.memory
    pub shorter : length rest < length input

  -- The end of a round, told from the line that the input gives: it waits if there is none, exits
  -- with status 0 if it is empty, and answers it otherwise.
  abbrev pub RoundGoes : Option (List ℕ) → RoundEnd → Type 0
  RoundGoes none e = e ≡ waits
  RoundGoes (some []) e = (after : Io) × (e ≡ exits 0 after)
  RoundGoes (some (x ∷ xs)) e = Answered (x ∷ xs) e

  module _ (lo : start_sdram ≤ buf) (hi : buf + 100 < end_sdram) (apart : cipher + 12 < buf)
      (attempts : 0 < retries) (text : Holds io.memory cipher (title lab)) where
    module _ (line : Io) (xs : List ℕ) (le : length xs ≤ 100)
        (u : Untouched buf 100 io.memory line.memory) where
      abbrev ciphered : ℕ → ℕ
      ciphered = rot13_buf buf (length xs) line.memory

      below : (a : ℕ) → a < buf → ciphered a ≡ io.memory a
      below a lt = rot13_buf_at buf (length xs) line.memory a ∙ ground (arith, lt) ∙ (u a).0 lt

      above : (a : ℕ) → buf + 100 < a → ciphered a ≡ io.memory a
      above a lt = rot13_buf_at buf (length xs) line.memory a ∙ ground (arith, lt, le) ∙ (u a).1 lt

      -- Behind the text, and behind the line in cipher.
      abbrev titled : Io
      titled = record {
        memory = ciphered;
        output = line.output ++ rev (printed lab ciphered cipher (title lab));
      }

      abbrev written : Io
      written = record titled {
        output = titled.output ++ rev (printed lab ciphered buf (map rot13_char xs));
      }

      title_lem :
          write lab cipher (title_len lab) (record line { memory = ciphered })
          ≡ (pos (printed_len lab (title_len lab)), titled)
      title_lem =
          subst
            (λ n.
              write lab cipher n (record line { memory = ciphered })
              ≡ (pos (printed_len lab n), titled))
            (length-title lab)
            (write_lem lab cipher (title lab) (record line { memory = ciphered })
              (title_bounds lab).0 (title_bounds lab).1
              (below_Holds io.memory ciphered cipher (title lab) buf below
                (title_below lab cipher buf apart) text))

      line_lem :
          0 < length xs
          → Holds line.memory buf xs
          → write lab buf (length xs) titled ≡ (pos (printed_len lab (length xs)), written)
      line_lem filled h =
          subst (λ n. write lab buf n titled ≡ (pos (printed_len lab n), written))
            (length-map rot13_char xs)
            (write_lem lab buf (map rot13_char xs) titled
              (omega (arith, filled, length-map rot13_char xs))
              (omega (arith, le, length-map rot13_char xs))
              (rot13_Holds buf (length xs) line.memory xs (omega arith) h))

      answers :
          (rest : List ℕ)
          → 0 < length xs
          → read 0 buf 100 input prompted ≡ returns (pos (length xs)) line rest
          → Holds line.memory buf xs
          → length xs + length rest ≤ length input
          → Answered xs (
              after_read lab retries prompt cipher failed buf (returns (pos (length xs)) line rest))
      answers rest filled e h fewer =
          let some_read : (length xs == 0) ≡ false = ground arith in
          record {
            line = line;
            rest = rest;
            after = written;
            reads = e;
            result = rw some_read (
                ap
                  (λ (p : ℤ × Io).
                    finish rest
                      (retry failed buf lab retries (length xs) (write lab buf (length xs) p.1)))
                  title_lem
                ∙ ap (λ p. finish rest (retry failed buf lab retries (length xs) p))
                    (line_lem filled h)
                ∙ ap (finish rest) (complete lab retries failed buf (length xs) written attempts));
            output = refl;
            holds = rot13_Holds buf (length xs) line.memory xs (omega arith) h;
            untouched = λ a. (below a, above a);
            shorter = omega (arith, filled, fewer);
          }

    read_result_lem : (n : ℕ) → n ≤ 100 → read_result buf n (int_of n) ≡ pos n
    read_result_lem n le = ground (arith, le, lo, hi)

    ends :
        (found : Option (List ℕ)) (e : ReadEnd)
        → read 0 buf 100 input prompted ≡ read_end buf e
        → Reads buf 100 io.memory found e
        → Consumes (length input) e
        → RoundGoes found (after_read lab retries prompt cipher failed buf (read_end buf e))
    ends none ReadEnd.waits r h c = refl
    ends none (ended count line rest) r h c = absurd h
    ends (some []) ReadEnd.waits r h c = absurd h
    ends (some (x ∷ xs)) ReadEnd.waits r h c = absurd h
    ends (some []) (ended count line rest) r h c =
        let at : read_result buf count (int_of count) ≡ pos 0 =
          read_result_lem count h.1 ∙ ap pos h.0 in
        (line, rw at refl)
    ends (some (x ∷ xs)) (ended count line rest) r h c =
        let at : read_result buf count (int_of count) ≡ pos (length (x ∷ xs)) =
          read_result_lem count h.1 ∙ ap pos h.0 in
        subst
          (λ v.
            Answered (x ∷ xs)
              (after_read lab retries prompt cipher failed buf (returns v line rest)))
          (sym at)
          (answers line (x ∷ xs) (omega (arith, h.0, h.1)) h.3 rest (omega arith)
            (r ∙ ap (λ v. returns v line rest) at) h.2 (omega (arith, h.0, c)))

    -- A round of the loop in each lab, with fuel for one new attempt at least, for a buffer of 100
    -- bytes below the last byte of the SDRAM and the text "Cipher Text:" below the buffer: it waits if the input runs out before the line ends,
    -- the program exits with status 0 on an empty line, and otherwise the round prints the text and
    -- the line in cipher, in lab 2 each with the byte behind it and in lab 3 the text with its 0,
    -- leaves the line in cipher in the buffer and changes no byte outside the buffer and the one
    -- behind it, and the next round begins with a shorter input.
    pub round-RoundGoes :
        RoundGoes (edit 100 input []) (round lab retries prompt cipher failed buf input io)
    unfolding round read
    round-RoundGoes =
        let same = write-memory lab prompt (prompt_len lab) io in
        ends (edit 100 input []) (read_from buf 100 input 0 prompted) refl
          (subst (λ mem. Reads buf 100 mem (edit 100 input []) (read_from buf 100 input 0 prompted))
            same
            (read_from-Reads buf 100 input [] prompted.memory prompted (omega arith) tt
              (λ a. (λ l. refl, λ l. refl))))
          (subst (λ n. Consumes n (read_from buf 100 input 0 prompted)) (omega arith)
            (read_from-Consumes buf 100 input 0 prompted))
