-- ===== src/Rot13/Ends.antt =====
-- The programs Lab2/Solution/lab2/part1/rot13/rot13.c and Lab 3/lab3-support/tasks/rot13/rot13.c end.
use fundamental_of_emb.Common.{
  ℕ, zero, suc, ◌+◌, ◌≤◌, ◌<◌, ◌≡◌, refl, sym, subst, Option, none, some, List, [], ◌∷◌, length,
  arith,
}
use fundamental_of_emb.Io.{Io, start_sdram, end_sdram}
use fundamental_of_emb.Io.Line.{edit, Holds}
use fundamental_of_emb.Rot13.Dialogue.{
  Lab, RoundEnd, waits, exits, again, retrying, goes_on, round, rounds,
}
use fundamental_of_emb.Rot13.Lines.{title, below_Holds}
use fundamental_of_emb.Rot13.Round.{title_below, RoundGoes, round-RoundGoes}

-- The program waits for input, or exits with status 0.
abbrev pub EndsWell : Option RoundEnd → Type 0
EndsWell none = ⊥
EndsWell (some waits) = Unit
EndsWell (some (exits status io)) = status ≡ 0
EndsWell (some (again io rest)) = ⊥
EndsWell (some retrying) = ⊥

module _ (lab : Lab) (retries prompt cipher failed buf : ℕ) (lo : start_sdram ≤ buf)
    (hi : buf + 100 < end_sdram) (apart : cipher + 12 < buf) (attempts : 0 < retries) where
  goes_on-EndsWell :
      (input : List ℕ) (io : Io) (next : List ℕ → Io → Option RoundEnd) (found : Option (List ℕ))
      (e : RoundEnd)
      → ((rest : List ℕ) (after : Io)
          → length rest < length input
          → Holds after.memory cipher (title lab)
          → EndsWell (next rest after))
      → Holds io.memory cipher (title lab)
      → RoundGoes lab retries prompt cipher failed buf input io found e
      → EndsWell (goes_on lab retries prompt cipher failed buf next e)
  goes_on-EndsWell input io next none e ih text g =
      subst (λ x. EndsWell (goes_on lab retries prompt cipher failed buf next x)) (sym g) tt
  goes_on-EndsWell input io next (some []) e ih text g =
      subst (λ x. EndsWell (goes_on lab retries prompt cipher failed buf next x)) (sym g.1) refl
  goes_on-EndsWell input io next (some (x ∷ xs)) e ih text g =
      subst (λ x. EndsWell (goes_on lab retries prompt cipher failed buf next x)) (sym g.result)
        (ih g.rest g.after g.shorter (
          below_Holds io.memory g.after.memory cipher (title lab) buf (λ a. (g.untouched a).0)
            (title_below lab cipher buf apart) text))

  -- In each lab, with a buffer of 100 bytes below the last byte of the SDRAM and the text
  -- "Cipher Text:" below the buffer, one round more than there are characters in the input is enough,
  -- and fuel for one new attempt: the program waits for more input or exits with status 0, never with status 1.
  pub rounds-EndsWell :
      (fuel : ℕ) (input : List ℕ) (io : Io)
      → length input < fuel
      → Holds io.memory cipher (title lab)
      → EndsWell (rounds lab retries prompt cipher failed buf fuel input io)
  unfolding rounds
  rounds-EndsWell zero input io lt text = absurd (omega (arith, lt))
  rounds-EndsWell (suc fuel) input io lt text =
      goes_on-EndsWell input io (rounds lab retries prompt cipher failed buf fuel)
        (edit 100 input []) (round lab retries prompt cipher failed buf input io)
        (λ rest after shorter kept.
          rounds-EndsWell fuel rest after (omega (arith, lt, shorter)) kept)
        text
        (round-RoundGoes lab retries prompt cipher failed buf input io lo hi apart attempts text)
