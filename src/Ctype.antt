-- ===== src/Ctype.antt =====
-- The character predicates of lab4/lab4/kernel/include/ctype.h, which the C libraries of the labs
-- have too. The argument is an `int`.
use fundamental_of_emb.Common.{
  ℕ, ◌+◌, ◌-◌, ◌≡◌, Bool, true, false, not, ◌&&◌, ◌||◌, ℤ, pos, negsuc, leb, if◌then◌else◌, arith,
}

-- `c >= n`, `c <= n` and `c == n` for a character `n`.
abbrev pub at_least : ℤ → ℕ → Bool
at_least (pos c) n = leb n c
at_least (negsuc c) n = false

abbrev pub at_most : ℤ → ℕ → Bool
at_most (pos c) n = leb c n
at_most (negsuc c) n = true

abbrev pub is_char : ℤ → ℕ → Bool
is_char c n = at_least c n && at_most c n

unfoldable pub isascii : ℤ → Bool
isascii c = at_least c 0 && at_most c 127

unfoldable pub iscntrl : ℤ → Bool
iscntrl c = not (at_least c b' ') || not (at_most c 126)

unfoldable pub isdigit : ℤ → Bool
isdigit c = at_least c b'0' && at_most c b'9'

unfoldable pub isgraph : ℤ → Bool
isgraph c = not (at_most c b' ') && at_most c 126

unfoldable pub islower : ℤ → Bool
islower c = at_least c b'a' && at_most c b'z'

unfoldable pub isprint : ℤ → Bool
isprint c = at_least c b' ' && at_most c 126

-- The codes 12, 10, 13, 9 and 11 are `\f`, `\n`, which is tested twice, `\r`, `\t` and `\v`.
unfoldable pub isspace : ℤ → Bool
isspace c =
    is_char c b' '
    || is_char c 12
    || is_char c 10
    || is_char c 10
    || is_char c 13
    || is_char c 9
    || is_char c 11

unfoldable pub isupper : ℤ → Bool
isupper c = at_least c b'A' && at_most c b'Z'

unfoldable pub isxdigit : ℤ → Bool
unfolding isdigit
isxdigit c = isdigit c || (at_least c b'A' && at_most c b'F') || (at_least c b'a' && at_most c b'f')

unfoldable pub isalpha : ℤ → Bool
unfolding islower isupper
isalpha c = islower c || isupper c

unfoldable pub isalnum : ℤ → Bool
unfolding isalpha isdigit
isalnum c = isalpha c || isdigit c

unfoldable pub ispunct : ℤ → Bool
unfolding isgraph isalnum
ispunct c = isgraph c && not (isalnum c)

-- `c - n + m`, for `c` at least `n`.
abbrev pub shift : ℤ → ℕ → ℕ → ℤ
shift (pos c) n m = pos (c - n + m)
shift (negsuc c) n m = negsuc (c + n - m)

unfoldable pub toupper : ℤ → ℤ
unfolding islower
toupper c = if islower c then shift c b'a' b'A' else c

unfoldable pub tolower : ℤ → ℤ
unfolding isupper
tolower c = if isupper c then shift c b'A' b'a' else c

-- Every `int` is a control character or printable, and not both; the printable ones are the space
-- and the graphic ones; a graphic one is a letter, a digit or punctuation, and only one of these.
pub classes_lem :
    (c : ℤ)
    → (iscntrl c ≡ not (isprint c))
      × (isprint c ≡ (is_char c b' ' || isgraph c))
      × (isgraph c ≡ (isalpha c || (isdigit c || ispunct c)))
      × ((isalpha c && isdigit c) ≡ false)
      × ((ispunct c && (isalpha c || isdigit c)) ≡ false)
unfolding iscntrl isprint isgraph ispunct
classes_lem (pos c) = ground arith
classes_lem (negsuc c) = ground arith

toupper_pos :
    (c : ℕ) → toupper (pos c) ≡ pos (if leb b'a' c && leb c b'z' then c - b'a' + b'A' else c)
unfolding toupper
toupper_pos c = ground arith

tolower_pos :
    (c : ℕ) → tolower (pos c) ≡ pos (if leb b'A' c && leb c b'Z' then c - b'A' + b'a' else c)
unfolding tolower
tolower_pos c = ground arith

-- `toupper` and `tolower` take letters to letters of the other case and back, and leave every other
-- `int` alone.
pub toupper_lem :
    (c : ℤ)
    → (islower (tolower c) ≡ isalpha c)
      × (isupper (toupper c) ≡ isalpha c)
      × (tolower (toupper c) ≡ tolower c)
      × (toupper (tolower c) ≡ toupper c)
      × ((if isalpha c then c else toupper c) ≡ c)
unfolding islower isupper isalpha
toupper_lem (pos c) = rw (tolower_pos c, toupper_pos c, tolower_pos, toupper_pos) (ground arith)
toupper_lem (negsuc c) = unfold tolower toupper in ground arith
