-- ===== src/Tests/Cipher.antt =====
-- The programs Lab2/Solution/lab2/part1/rot13/rot13.c and Lab 3/lab3-support/tasks/rot13/rot13.c on
-- concrete inputs.
use fundamental_of_emb.Common.{
  ℕ, ◌+◌, ◌≡◌, refl, List, [], ◌∷◌, ltb, leb, ◌&&◌, ◌-◌, get_or, arith, ◌==◌, if◌then◌else◌,
  Bool-cases, inl, inr, ==_iff, Option,
}
use fundamental_of_emb.Io.{Io}
use fundamental_of_emb.Io.Line.{edit, Holds}
use fundamental_of_emb.Rot13.{rot13_char, rot13_buf, rot13_twice}
use fundamental_of_emb.Rot13.Dialogue.{lab2, lab3, round}
use fundamental_of_emb.Rot13.Lines.{cipher_text}
use fundamental_of_emb.Rot13.Round.{RoundGoes, round-RoundGoes}
use fundamental_of_emb.Rot13.Ends.{EndsWell}
use fundamental_of_emb.Rot13.Dialogue.{rounds, RoundEnd}
use fundamental_of_emb.Rot13.Main.{main}
use fundamental_of_emb.Rot13.Shown.{main-EndsWell, IsString, missing_text}

-- "Cipher Text:" at 0xa0001000.
abbrev text : ℕ → ℕ
text a =
    get_or (b'C' ∷ b'i' ∷ b'p' ∷ b'h' ∷ b'e' ∷ b'r' ∷ b' ' ∷ b'T' ∷ b'e' ∷ b'x' ∷ b't' ∷ b':' ∷ [])
      (a - 0xa000_1000) 0

rot13_twice_example :
    (rot13_buf 0xa000_1000 5 (rot13_buf 0xa000_1000 5 text) 0xa000_1002 ≡ text 0xa000_1002)
    × (rot13_buf 0xa000_1000 5 text 0xa000_1002 ≡ (
        if leb 0xa000_1000 0xa000_1002 && ltb 0xa000_1002 (0xa000_1000 + 5)
        then rot13_char (text 0xa000_1002)
        else text 0xa000_1002))
rot13_twice_example = rot13_twice 0xa000_1000 5 text 0xa000_1002

abbrev memory_of_texts : Io
memory_of_texts = record { memory = text; output = [] }

text_there : Holds text 0xa000_1000 cipher_text
text_there = (
  refl,
  (refl, (refl, (refl, (refl, (refl, (refl, (refl, (refl, (refl, (refl, (refl, tt))))))))))),
)

-- "Hi", a newline, and the end of the transmission.
abbrev greeting : List ℕ
greeting = b'H' ∷ b'i' ∷ 10 ∷ 4 ∷ []

round-RoundGoes_example :
    RoundGoes lab2 1 0xa000_1100 0xa000_1000 0xa000_1200 0xa200_0000 greeting memory_of_texts
      (edit 100 greeting [])
      (round lab2 1 0xa000_1100 0xa000_1000 0xa000_1200 0xa200_0000 greeting memory_of_texts)
round-RoundGoes_example =
    round-RoundGoes lab2 1 0xa000_1100 0xa000_1000 0xa000_1200 0xa200_0000 greeting memory_of_texts
      (omega arith) (omega arith) (omega arith) (omega arith) text_there

-- Also the argument "no" at 0xa0000100, the newline at 0xa0000200 and the message at 0xa0000300.
abbrev message : List ℕ
message =
    b'N' ∷ b'o' ∷ b' ' ∷ b'a' ∷ b'r' ∷ b'g' ∷ b'u' ∷ b'm' ∷ b'e' ∷ b'n' ∷ b't' ∷ b's' ∷ b' ' ∷ b'h'
    ∷ b'a' ∷ b'v' ∷ b'e' ∷ b' ' ∷ b'b' ∷ b'e' ∷ b'e' ∷ b'n' ∷ b' ' ∷ b'p' ∷ b'a' ∷ b's' ∷ b's'
    ∷ b'e' ∷ b'd' ∷ b'!' ∷ 10 ∷ []

abbrev with_argument : Io
with_argument = record {
  memory = λ a.
      if leb 0xa000_1000 a
      then text a
      else if leb 0xa000_0300 a
      then get_or message (a - 0xa000_0300) 0
      else if leb 0xa000_0200 a
      then get_or (10 ∷ []) (a - 0xa000_0200) 0
      else get_or (b'n' ∷ b'o' ∷ []) (a - 0xa000_0100) 0;
  output = [];
}

argument : IsString 3 with_argument.memory 0xa000_0100 (b'o' ∷ b'n' ∷ [])
argument = record {
  text = (refl, (refl, tt));
  inner = λ i lt. elim (Bool-cases (i == 0)) [
    | inl e ↦ rw ((==_iff i 0).0 e) refl
    | inr ne ↦ let e : i ≡ 1 = ground (arith, lt, ne) in rw e refl
  ];
  ended = refl;
  below = omega arith;
}

message_there : Holds with_argument.memory 0xa000_0300 missing_text
message_there = (
  refl,
  (
    refl,
    (
      refl,
      (
        refl,
        (
          refl,
          (
            refl,
            (
              refl,
              (
                refl,
                (
                  refl,
                  (
                    refl,
                    (
                      refl,
                      (
                        refl,
                        (
                          refl,
                          (
                            refl,
                            (
                              refl,
                              (
                                refl,
                                (
                                  refl,
                                  (
                                    refl,
                                    (
                                      refl,
                                      (
                                        refl,
                                        (
                                          refl,
                                          (
                                            refl,
                                            (
                                              refl,
                                              (
                                                refl,
                                                (
                                                  refl,
                                                  (
                                                    refl,
                                                    (
                                                      refl,
                                                      (refl, (refl, (refl, (refl, (refl, tt))))),
                                                    ),
                                                  ),
                                                ),
                                              ),
                                            ),
                                          ),
                                        ),
                                      ),
                                    ),
                                  ),
                                ),
                              ),
                            ),
                          ),
                        ),
                      ),
                    ),
                  ),
                ),
              ),
            ),
          ),
        ),
      ),
    ),
  ),
)

title_there : Holds with_argument.memory 0xa000_1000 cipher_text
title_there = (
  refl,
  (refl, (refl, (refl, (refl, (refl, (refl, (refl, (refl, (refl, (refl, (refl, tt))))))))))),
)

abbrev end : Option RoundEnd
end =
    main lab3 1 3 0xa000_0300 0xa000_0200 0xa000_1100 0xa000_1000 0xa000_1200 0xa200_0000 5
      (0xa000_0100 ∷ []) greeting with_argument

main-EndsWell_example :
    (end
      ≡ rounds lab3 1 0xa000_1100 0xa000_1000 0xa000_1200 0xa200_0000 5 greeting
          (record { memory = with_argument.memory; output = b'n' ∷ b'o' ∷ 0 ∷ 10 ∷ 0 ∷ [] }))
    × EndsWell end
main-EndsWell_example =
    main-EndsWell lab3 1 3 0xa000_0300 0xa000_0200 0xa000_1100 0xa000_1000 0xa000_1200 0xa200_0000 5
      (0xa000_0100 ∷ []) ((b'o' ∷ b'n' ∷ []) ∷ []) greeting with_argument (omega arith)
      (omega arith) (omega arith) (omega arith) (omega arith) (omega arith) (argument, tt)
      (refl, (refl, tt)) message_there (refl, title_there)
